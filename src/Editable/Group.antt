-- ===== src/Editable/Group.antt =====
-- The elements of one call of the plugin. They share the settings of the call, into which the handler of
-- each edit writes the sizes of its form.
pub mod Sizes
pub mod Sticks
use nswall.Common.{ℕ, none, some, List, [], ◌∷◌, get_elem?, set}
use nswall.Editable.State.{Size, Editable}
use nswall.Editable.Settings.{Library, Settings}
use nswall.Editable.Types.{InputType}
use nswall.Editable.Begin.{Outcome}
use nswall.Editable.Step.{Event, step}

-- `settings.width` and `settings.height`, and the elements; of an element's own sizes nothing is read.
pub record Group : Type 0 where
  pub width : Size
  pub height : Size
  pub elements : List Editable

-- The element as its handlers see it.
abbrev pub with_sizes : Group → Editable → Editable
with_sizes g e = record e { width = g.width; height = g.height }

-- What a handler of the element at `i` leaves.
abbrev pub put_back : ℕ → Group → Editable → Group
put_back i g e = record { width = e.width; height = e.height; elements = set g.elements i e }

module _ (lib : Library) (s : Settings) (t : InputType) where
  unfoldable pub step_group : ℕ → Event → Group → Group
  step_group i ev g = elim (get_elem? g.elements i) [
    | none ↦ g
    | some e ↦ put_back i g (step lib s t ev (with_sizes g e)).editable
  ]

  unfoldable pub run_group : List (ℕ × Event) → Group → Group
  unfolding step_group
  run_group [] g = g
  run_group ((i, ev) ∷ evs) g = run_group evs (step_group i ev g)
