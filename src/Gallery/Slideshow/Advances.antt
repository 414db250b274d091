-- ===== src/Gallery/Slideshow/Advances.antt =====
-- The slideshow advances to the next image, and its control agrees with the interval.
use nswall.Common.{
  ℕ, ◌+◌, ◌≡◌, refl, Bool, true, false, not, Option, none, some, ◌⊎◌, arith, length, subst, sym, ap,
  ◌∙◌, Bool-cases, inl, inr, if◌then◌else◌,
}
use nswall.Common.Int.{ℤ, pos, pos_part, ◌-ℤ◌}
use nswall.Common.Result.{ok, Returns, Returns-bind, Returns-mono, ◌>>=◌}
use nswall.Gallery.State.{Gallery, Control, play_link, pause_link}
use nswall.Gallery.Index.{get_next_index, clamp, InRange}
use nswall.Gallery.Index.Laws.{get_next_index-InRange, clamp_of_InRange}
use nswall.Gallery.Layout.{core, hash_at_of_InRange}
use nswall.Gallery.Display.{goto}
use nswall.Gallery.Display.Synced.{IsSynced}
use nswall.Gallery.Display.Goto.{Shows, goto-Shows}
use nswall.Gallery.Slideshow.{
  Outcome, stay, ss_advance, set_control, stop_slideshow, toggle_slideshow, pause, play,
  click_handler,
}

-- `goto` in a gallery that is in sync already.
pub goto-IsSynced :
    (g : Gallery) (index : ℤ)
    → IsSynced (core g)
    → Returns (Shows g (clamp (length g.images) index)) (goto g index)
goto-IsSynced g index v =
    goto-Shows g index v.ready.laid_out (omega (arith, v.ready.in_range.below))
      (λ z _. v.page_shown z)

abbrev pub next_of : Gallery → ℤ
next_of g = get_next_index (length g.images) g.current_index

module _ (g : Gallery) (v : IsSynced (core g)) where
  next-InRange : InRange (length g.images) (next_of g)
  next-InRange = get_next_index-InRange (length g.images) g.current_index v.ready.in_range

  -- With the history enabled an advance leaves the gallery as it is, and sets the address to the
  -- hash of the next image.
  pub ss_advance_history :
      g.settings.enable_history ≡ true
      → ss_advance g
        ≡ ok (record { gallery = g; location = some (g.offset + pos_part (next_of g)) })
  unfolding ss_advance
  ss_advance_history y =
      ground (arith, hash_at_of_InRange g (next_of g) v.ready.laid_out next-InRange)

  -- In a gallery that is in sync, with the history not enabled, an advance does not throw: it
  -- goes to the next image and leaves the address alone.
  pub ss_advance-Shows :
      g.settings.enable_history ≡ false
      → Returns (λ o. Shows g (next_of g) o.gallery × (o.location ≡ none)) (ss_advance g)
  unfolding ss_advance
  ss_advance-Shows z =
      simp (hash_at_of_InRange g (next_of g) v.ready.laid_out next-InRange, z)
        (Returns-bind (Shows g (next_of g))
          (λ o. Shows g (next_of g) o.gallery × (o.location ≡ none)) (goto g (next_of g)) _
          (subst (λ i. Returns (Shows g i) (goto g (next_of g)))
            (clamp_of_InRange (length g.images) (next_of g) next-InRange)
            (goto-IsSynced g (next_of g) v))
          λ g1 s. (s, refl))

  pub ss_advance-IsSynced : Returns (λ o. IsSynced (core o.gallery)) (ss_advance g)
  ss_advance-IsSynced = elim (Bool-cases g.settings.enable_history) [
    | inl y ↦ rw (ss_advance_history y) v
    | inr z ↦
        Returns-mono _ (λ o. IsSynced (core o.gallery)) (ss_advance g) (ss_advance-Shows z)
          (λ o s. s.0.0)
  ]

abbrev control_for : Bool → Control
control_for true = pause_link
control_for false = play_link

-- The control offers to pause exactly while the slideshow runs.
abbrev pub ControlAgrees : Gallery → Type 0
ControlAgrees g = (g.view.control ≡ none) ⊎ (g.view.control ≡ some (control_for g.interval))

set_control-SameCore : (c : Control) (g : Gallery) → core (set_control c g) ≡ core g
unfolding set_control
set_control-SameCore c g = ground arith

set_control-ControlAgrees :
    (g : Gallery) (b : Bool)
    → ControlAgrees (set_control (control_for b) (record g { interval = b }))
      × ((set_control (control_for b) (record g { interval = b })).interval ≡ b)
unfolding set_control
set_control-ControlAgrees g b = ground arith

-- What a slideshow method leaves: a gallery that is in sync, running or not as `b` says, with a
-- control that agrees.
abbrev pub Running : Bool → Outcome → Type 0
Running b o = IsSynced (core o.gallery) × ControlAgrees o.gallery × (o.gallery.interval ≡ b)

-- The gallery is in sync, and its slideshow is on or off as `b` says.
abbrev pub Leaves : Bool → Outcome → Type 0
Leaves b o = IsSynced (core o.gallery) × (o.gallery.interval ≡ b)

module _ (g : Gallery) (v : IsSynced (core g)) where
  controlled :
      (g1 : Gallery) (b : Bool) (l : Option ℕ)
      → IsSynced (core g1)
      → Running b (record {
        gallery = set_control (control_for b) (record g1 { interval = b });
        location = l;
      })
  controlled g1 b l s =
      let (a, e) = set_control-ControlAgrees g1 b in
      (
        subst IsSynced (sym (set_control-SameCore (control_for b) (record g1 { interval = b }))) s,
        a,
        e,
      )

  -- In a gallery whose page and thumbnails are those of its current image (`IsSynced`)
  -- `toggleSlideshow` does not throw, and keeps that so; it turns the slideshow on if it is off,
  -- and off if it is on, and the control then agrees, whatever it said before.
  pub toggle_slideshow-Running : Returns (Running (not g.interval)) (toggle_slideshow g)
  unfolding toggle_slideshow stop_slideshow
  toggle_slideshow-Running = elim (Bool-cases g.interval) [
    | inl y ↦ simp y (controlled g false none v)
    | inr z ↦ simp z (
        Returns-bind (λ o. IsSynced (core o.gallery)) (Running true) (ss_advance g) _
          (ss_advance-IsSynced g v) λ o s. controlled o.gallery true o.location s)
  ]

  toggled : (b c : Bool) → g.interval ≡ b → not b ≡ c → Returns (Leaves c) (toggle_slideshow g)
  toggled b c e e' =
      Returns-mono (Running (not g.interval)) (Leaves c) (toggle_slideshow g)
        toggle_slideshow-Running λ o r. (r.0, r.2 ∙ ap not e ∙ e')

  -- After `pause` the slideshow is off, and after `play` it is on; neither throws.
  pub pause_off : Returns (Leaves false) (pause g)
  unfolding pause
  pause_off = on g.interval refl
    where
      on :
          (b : Bool)
          → g.interval ≡ b
          → Returns (Leaves false) (if b then toggle_slideshow g else ok (stay g))
      on true y = toggled true false y refl
      on false z = (v, z)

  pub play_on : Returns (Leaves true) (play g)
  unfolding play
  play_on = on g.interval refl
    where
      on :
          (b : Bool)
          → g.interval ≡ b
          → Returns (Leaves true) (if not b then toggle_slideshow g else ok (stay g))
      on true y = (v, y)
      on false z = toggled false true z refl

  pub staying-IsSynced :
      (index : ℤ) → Returns (λ o. IsSynced (core o.gallery)) (do g1 ← goto g index; ok (stay g1))
  staying-IsSynced index =
      Returns-bind (Shows g (clamp (length g.images) index)) (λ o. IsSynced (core o.gallery))
        (goto g index) _ (goto-IsSynced g index v) λ g1 s. s.0

-- A click on a link of the gallery does not throw.
pub click_handler-IsSynced :
    (g : Gallery) (hash : ℤ)
    → IsSynced (core g)
    → Returns (λ o. IsSynced (core o.gallery)) (click_handler g hash)
unfolding click_handler
click_handler-IsSynced g hash v =
    Returns-bind (Leaves false) (λ o. IsSynced (core o.gallery)) (pause g) _ (pause_off g v)
      λ o r. ground (arith, staying-IsSynced o.gallery r.0 (hash -ℤ pos g.offset))
