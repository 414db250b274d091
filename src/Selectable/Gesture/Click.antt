-- ===== src/Selectable/Gesture/Click.antt =====
-- A press and a release with no drag between them.
use nswall.Common.{
  ℕ, ◌≡◌, refl, sym, subst, Bool, true, false, not, ◌&&◌, ◌||◌, some, List, [], ◌∷◌, get_elem?,
  arith, ◌==◌, if◌then◌else◌,
}
use nswall.Common.Result.{Returns, Returns-bind}
use nswall.Selectable.State.{Box, Callback, Selectee, Mouse, Selectable}
use nswall.Selectable.Element.{stop_unselecting, stop_selecting}
use nswall.Selectable.Element.Tracks.{grabbed}
use nswall.Selectable.Element.Stops.{
  HasClasses, HasItem, stop_unselecting-HasClasses, stop_selecting-HasClasses,
}
use nswall.Selectable.Gesture.{each, mouse_start, mouse_stop, drags, gesture}
use nswall.Selectable.Gesture.Pointwise.{Before, AllAt, AllAt-each}
use nswall.Selectable.Gesture.Starts.{Resting, Grabbed, press-Grabbed}
use nswall.Selectable.Gesture.Whole.{IsBegun, mouse_start-IsBegun, pressed_with}

-- Whether a click leaves an element selected that was so or not (`was`), with or without the meta key
-- (`meta`), on it or not (`pressed`).
abbrev pub toggled : Bool → Bool → Bool → Bool
toggled meta pressed was = if pressed then not (meta && was) else meta && was

either_HasItem : (b : Bool) (x y : Selectee) → HasItem x → HasItem y → HasItem (if b then x else y)
either_HasItem true x y h k = h
either_HasItem false x y h k = k

toggled_lem :
    (meta pressed was : Bool)
    → (pressed && not (meta && was) || not pressed && (meta && was)) ≡ toggled meta pressed was
toggled_lem meta pressed was = ground arith

grabbed-HasClasses :
    (box : Box) (meta was pressed : Bool) (calls : List Callback)
    → HasClasses
        (not pressed && (meta && was))
        (pressed && not (meta && was))
        (grabbed box meta was pressed calls).ui_unselecting
        (grabbed box meta was pressed calls)
grabbed-HasClasses box meta was pressed calls = record {
  selected_class = ground arith;
  selecting_class = ground arith;
  unselecting_class = refl;
  has_item = either_HasItem (pressed && (not meta || not was)) _ _ tt tt;
}

module _ (e : Mouse) (i : ℕ) (chain : List ℕ) (w : Selectable) (cs : List Before) where
  abbrev pressed : ℕ → Bool
  pressed k = k == i

  abbrev Released : ℕ → Before → Selectee → Type 0
  Released k c =
      HasClasses (not (pressed k) && (e.meta_key && c.was)) (pressed k && not (e.meta_key && c.was))
        false

  -- Each element is selected or not as `toggled` says, and has neither of the passing classes.
  abbrev pub Clicked : Selectable → Type 0
  Clicked w' =
      AllAt (λ k c. HasClasses (toggled e.meta_key (pressed k) c.was) false false) 0 cs w'.selectees

  release-Clicked :
      (w1 : Selectable)
      → AllAt (Grabbed e.meta_key pressed) 0 cs w1.selectees
      → Returns Clicked (mouse_stop w1)
  unfolding mouse_stop
  release-Clicked w1 v =
      Returns-bind (AllAt Released 0 cs) Clicked (each stop_unselecting w1.selectees) _
        (AllAt-each (Grabbed e.meta_key pressed) Released stop_unselecting
          (λ k c s g.
            subst (λ x. Returns (Released k c) (stop_unselecting x)) (sym g)
              (stop_unselecting-HasClasses _ _ _ _
                (grabbed-HasClasses c.box e.meta_key c.was (pressed k) s.called)))
          0 cs w1.selectees v)
        λ ss h.
          Returns-bind
            (AllAt (λ k c. HasClasses (toggled e.meta_key (pressed k) c.was) false false) 0 cs)
            Clicked (each stop_selecting ss) _
            (AllAt-each Released
              (λ k c. HasClasses (toggled e.meta_key (pressed k) c.was) false false) stop_selecting
              (λ k c s r.
                subst (λ b. Returns (HasClasses b false false) (stop_selecting s))
                  (toggled_lem e.meta_key (pressed k) c.was) (stop_selecting-HasClasses _ _ s r))
              0 cs ss h)
            λ ss' h'. h'

  -- In an enabled widget that refreshes itself, whose elements are at rest, a press that meets the
  -- element at `i` and a release with no drag do not throw. With the meta key that element changes
  -- between selected and not, and the others stay as they are; without it, it alone is selected.
  pub gesture-Clicked :
      (c : Before)
      → w.options.disabled ≡ false
      → w.options.auto_refresh ≡ true
      → AllAt Resting 0 cs w.selectees
      → get_elem? cs i ≡ some c
      → Returns Clicked (gesture e (i ∷ chain) [] w)
  unfolding gesture drags
  gesture-Clicked c d a v at_i =
      Returns-bind (IsBegun e i chain w cs) Clicked (mouse_start e (i ∷ chain) w) _
        (mouse_start-IsBegun e i chain w cs d a v)
        λ w1 b.
          subst (λ x. Returns Clicked (mouse_stop x)) (sym b.same)
            (release-Clicked (pressed_with e (i ∷ chain) w b.started)
              (press-Grabbed e.meta_key i chain cs b.started c at_i b.grabbed))
