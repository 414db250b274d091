-- ===== src/Selectable/Element/Stops.antt =====
-- What the release makes of an element's classes.
use nswall.Common.{
  Bool-cases, inl, inr, ◌≡◌, refl, subst, Bool, false, not, ◌&&◌, ◌||◌, Option, none, some, List,
  arith,
}
use nswall.Common.Result.{Returns}
use nswall.Selectable.State.{Box, Item, Selectee, Callback}
use nswall.Selectable.Element.{stop_unselecting, stop_selecting}
use nswall.Selectable.Element.Tracks.{tracked}

-- The element has data.
abbrev pub HasItem : Selectee → Type 0
HasItem s = elim s.item [ none ↦ ⊥ | some item ↦ Unit {0} ]

-- An element's three classes, and that it has data.
pub record HasClasses (selected selecting unselecting : Bool) (s : Selectee) : Type 0 where
  pub selected_class : s.ui_selected ≡ selected
  pub selecting_class : s.ui_selecting ≡ selecting
  pub unselecting_class : s.ui_unselecting ≡ unselecting
  pub has_item : HasItem s

pub tracked-HasClasses :
    (box : Box) (meta was pressed ever last : Bool) (calls : List Callback)
    → HasClasses
        (not last && (meta && (was && (not pressed || ever))))
        last
        (tracked box meta was pressed ever last calls).ui_unselecting
        (tracked box meta was pressed ever last calls)
tracked-HasClasses box meta was pressed ever last calls = record {
  selected_class = refl;
  selecting_class = refl;
  unselecting_class = refl;
  has_item = tt;
}

pub stop_unselecting-HasClasses :
    (a b c : Bool) (s : Selectee)
    → HasClasses a b c s
    → Returns (HasClasses a b false) (stop_unselecting s)
unfolding stop_unselecting
stop_unselecting-HasClasses a b c s v = on s.item refl
  where
    on : (i : Option Item) → s.item ≡ i → Returns (HasClasses a b false) (stop_unselecting s)
    on none e =
        absurd
          (subst (λ (x : Option Item). elim x [ none ↦ ⊥ | some item ↦ Unit {0} ]) e v.has_item)
    on (some item) e = elim (Bool-cases s.ui_unselecting) [
      | inl y ↦
          rw (y, e, stop_unselecting)
            (record {
              selected_class = v.selected_class;
              selecting_class = v.selecting_class;
              unselecting_class = refl;
              has_item = tt;
            })
      | inr z ↦
          rw (z, stop_unselecting)
            (record {
              selected_class = v.selected_class;
              selecting_class = v.selecting_class;
              unselecting_class = refl;
              has_item = v.has_item;
            })
    ]

pub stop_selecting-HasClasses :
    (a b : Bool) (s : Selectee)
    → HasClasses a b false s
    → Returns (HasClasses (b || a) false false) (stop_selecting s)
unfolding stop_selecting
stop_selecting-HasClasses a b s v = on s.item refl
  where
    on :
        (i : Option Item)
        → s.item ≡ i
        → Returns (HasClasses (b || a) false false) (stop_selecting s)
    on none e =
        absurd
          (subst (λ (x : Option Item). elim x [ none ↦ ⊥ | some item ↦ Unit {0} ]) e v.has_item)
    on (some item) e = elim (Bool-cases s.ui_selecting) [
      | inl y ↦
          rw (y, e, stop_selecting)
            (record {
              selected_class = ground (arith, v.selecting_class, y);
              selecting_class = refl;
              unselecting_class = v.unselecting_class;
              has_item = tt;
            })
      | inr z ↦
          rw (z, stop_selecting)
            (record {
              selected_class = ground (arith, v.selecting_class, v.selected_class, z);
              selecting_class = refl;
              unselecting_class = v.unselecting_class;
              has_item = v.has_item;
            })
    ]
