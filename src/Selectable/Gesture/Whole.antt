-- ===== src/Selectable/Gesture/Whole.antt =====
-- A whole gesture, from the press to the release.
use nswall.Common.{
  ℕ, ◌≡◌, refl, sym, subst, true, false, some, List, ◌∷◌, map, get_elem?, arith, ◌==◌,
}
use nswall.Common.Result.{ok, Returns, Returns-bind, ◌>>=◌}
use nswall.Selectable.State.{Selectee, Mouse, Selectable}
use nswall.Selectable.Element.{refresh_one, start_one}
use nswall.Selectable.Gesture.{each, press, mouse_start, lasso, mouse_stop, drags, gesture}
use nswall.Selectable.Gesture.Pointwise.{Before, AllAt}
use nswall.Selectable.Gesture.Starts.{Resting, Grabbed, start-Grabbed, press-Grabbed}
use nswall.Selectable.Gesture.Selects.{AllMeta, Selected, first_drag-After, stop-Selected}

-- The widget with the mouse at the place of the press, and the lasso's helper there.
abbrev pub begun : Mouse → Selectable → Selectable
begun e w = record w {
  opos_x = e.page_x;
  opos_y = e.page_y;
  helper =
      some
        (record { left = e.client_x; top = e.client_y; right = e.client_x; bottom = e.client_y });
}

abbrev pub pressed_with : Mouse → List ℕ → Selectable → List Selectee → Selectable
pressed_with e chain w ss = record (begun e w) { selectees = press e.meta_key chain ss }

mouse_start_enabled :
    (e : Mouse) (chain : List ℕ) (w : Selectable)
    → w.options.disabled ≡ false
    → w.options.auto_refresh ≡ true
    → mouse_start e chain w ≡ (do
      started ← each (start_one e.meta_key) (map refresh_one w.selectees)
      ok (pressed_with e chain w started))
unfolding mouse_start
mouse_start_enabled e chain w d a = ground arith

module _ (e : Mouse) (i : ℕ) (chain : List ℕ) (w : Selectable) (cs : List Before) where
  pub record IsBegun (w1 : Selectable) : Type 0 where
    pub started : List Selectee
    pub same : w1 ≡ pressed_with e (i ∷ chain) w started
    pub grabbed : AllAt (Grabbed e.meta_key (λ _. false)) 0 cs started

  pub mouse_start-IsBegun :
      w.options.disabled ≡ false
      → w.options.auto_refresh ≡ true
      → AllAt Resting 0 cs w.selectees
      → Returns IsBegun (mouse_start e (i ∷ chain) w)
  mouse_start-IsBegun d a v =
      subst (Returns IsBegun) (sym (mouse_start_enabled e (i ∷ chain) w d a)) (
        Returns-bind (AllAt (Grabbed e.meta_key (λ _. false)) 0 cs) IsBegun
          (each (start_one e.meta_key) (map refresh_one w.selectees)) _
          (start-Grabbed e.meta_key cs w.selectees v)
          λ ss g. record { started = ss; same = refl; grabbed = g })

  -- Each element is as `Selected` says, after drags by the events `ms`.
  abbrev pub Lassoed : List Mouse → Selectable → Type 0
  Lassoed ms w' =
      AllAt (Selected e.meta_key (λ k. k == i) w.options.tolerance (map (lasso (begun e w)) ms)) 0
        cs w'.selectees

  -- In an enabled widget that refreshes itself, whose elements are at rest, a press that meets the
  -- element at `i`, one or more drags, all with the meta key or all without, and the release do not
  -- throw. Then the elements are selected that the lasso met at the last drag; with the meta key also
  -- those that were selected before, save the pressed one if the lasso never met it. No element keeps
  -- one of the passing classes.
  pub gesture-Selected :
      (m : Mouse) (ms : List Mouse) (c : Before)
      → w.options.disabled ≡ false
      → w.options.auto_refresh ≡ true
      → AllMeta e.meta_key (m ∷ ms)
      → AllAt Resting 0 cs w.selectees
      → get_elem? cs i ≡ some c
      → Returns (Lassoed (m ∷ ms)) (gesture e (i ∷ chain) (m ∷ ms) w)
  unfolding gesture lasso
  gesture-Selected m ms c d a metas v at_i =
      Returns-bind IsBegun (Lassoed (m ∷ ms)) (mouse_start e (i ∷ chain) w) _
        (mouse_start-IsBegun d a v)
        λ w1 b.
          subst (λ x. Returns (Lassoed (m ∷ ms)) (mouse_stop (drags (m ∷ ms) x))) (sym b.same)
            (stop-Selected e.meta_key (λ k. k == i) w.options.tolerance
              (map (lasso (begun e w)) (m ∷ ms)) cs
              (drags (m ∷ ms) (pressed_with e (i ∷ chain) w b.started))
              (first_drag-After e.meta_key (λ k. k == i) m ms
                (pressed_with e (i ∷ chain) w b.started) cs d metas
                (press-Grabbed e.meta_key i chain cs b.started c at_i b.grabbed)))
