-- ===== src/Selectable/Gesture/Selects.antt =====
-- The lasso selects what it meets.
use nswall.Common.{
  ℕ, ◌≡◌, refl, sym, subst, Bool, true, false, not, ◌&&◌, ◌||◌, none, some, List, [], ◌∷◌, map,
  arith,
}
use nswall.Common.Result.{Returns, Returns-bind, Returns-mono}
use nswall.Selectable.State.{Tolerance, Box, Selectee, Mouse, Selectable}
use nswall.Selectable.Element.{hit, drag_one, stop_unselecting, stop_selecting}
use nswall.Selectable.Element.Tracks.{tracked, grabbed, drag_one-tracked, drag_one-grabbed}
use nswall.Selectable.Element.Stops.{
  HasClasses, tracked-HasClasses, stop_unselecting-HasClasses, stop_selecting-HasClasses,
}
use nswall.Selectable.Gesture.{each, lasso, mouse_drag, mouse_stop, drags}
use nswall.Selectable.Gesture.Starts.{follows, Grabbed}
use nswall.Selectable.Gesture.Pointwise.{Before, AllAt, AllAt-map, AllAt-each}

-- The lasso met an element shown in `box` at one of the drags `es`, or before (`e`).
abbrev pub ever_hit : Tolerance → Box → Bool → List Box → Bool
ever_hit t box e [] = e
ever_hit t box e (b ∷ bs) = ever_hit t box (e || hit t box b) bs

abbrev pub last_hit : Tolerance → Box → Bool → List Box → Bool
last_hit t box l [] = l
last_hit t box l (b ∷ bs) = last_hit t box (hit t box b) bs

abbrev pub AllMeta : Bool → List Mouse → Type 0
AllMeta meta [] = Unit {0}
AllMeta meta (e ∷ es) = (e.meta_key ≡ meta) × AllMeta meta es

abbrev Tracked :
    Tolerance → Bool → (ℕ → Bool) → (Box → Bool) → (Box → Bool) → ℕ → Before → Selectee → Type 0
Tracked t meta pressed ever last k c s =
    ((last c.box && not (ever c.box)) ≡ false)
    × (s ≡ tracked c.box meta c.was (pressed k) (ever c.box) (last c.box) s.called)

-- What a drag leaves where the widget is enabled.
abbrev dragged_to : Mouse → Selectable → Selectable
dragged_to e w = record w {
  dragged = true;
  helper = elim w.helper [ none ↦ none | some _ ↦ some (lasso w e) ];
  selectees = map (drag_one w.options.tolerance e.meta_key (lasso w e)) w.selectees;
}

mouse_drag_enabled :
    (e : Mouse) (w : Selectable) → w.options.disabled ≡ false → mouse_drag e w ≡ dragged_to e w
unfolding mouse_drag
mouse_drag_enabled e w z = rw (z, mouse_drag) refl

or_absorb : (l r : Bool) → (l || (not l && r)) ≡ (l || r)
or_absorb true r = refl
or_absorb false r = refl

module _ (meta : Bool) (pressed : ℕ → Bool) where
  first_drag :
      (t : Tolerance) (b : Box) (cs : List Before) (ss : List Selectee)
      → AllAt (Grabbed meta pressed) 0 cs ss
      → AllAt
          (Tracked t meta pressed (λ x. hit t x b) (λ x. hit t x b))
          0
          cs
          (map (drag_one t meta b) ss)
  first_drag t b cs ss v =
      AllAt-map (Grabbed meta pressed) (Tracked t meta pressed (λ x. hit t x b) (λ x. hit t x b))
        (drag_one t meta b)
        (λ k c s e. (
          ground arith,
          follows (drag_one t meta b) (grabbed c.box meta c.was (pressed k))
              (tracked c.box meta c.was (pressed k) (hit t c.box b) (hit t c.box b)) s e
              λ calls. drag_one-grabbed t b c.box meta c.was (pressed k) calls (hit t c.box b) refl,
        ))
        0 cs ss v

  next_drag :
      (t : Tolerance) (b : Box) (ever last : Box → Bool) (cs : List Before) (ss : List Selectee)
      → AllAt (Tracked t meta pressed ever last) 0 cs ss
      → AllAt
          (Tracked t meta pressed (λ x. ever x || hit t x b) (λ x. hit t x b))
          0
          cs
          (map (drag_one t meta b) ss)
  next_drag t b ever last cs ss v =
      AllAt-map (Tracked t meta pressed ever last)
        (Tracked t meta pressed (λ x. ever x || hit t x b) (λ x. hit t x b)) (drag_one t meta b)
        (λ k c s (l, e). (
          ground arith,
          follows (drag_one t meta b)
              (tracked c.box meta c.was (pressed k) (ever c.box) (last c.box))
              (tracked c.box meta c.was (pressed k) (ever c.box || hit t c.box b) (hit t c.box b)) s
              e
              λ calls.
                drag_one-tracked t b c.box meta c.was (pressed k) (ever c.box) (last c.box) calls
                  (hit t c.box b) l refl,
        ))
        0 cs ss v

  -- How the elements stand after drags to the lassos `bs`.
  abbrev After : Tolerance → (Box → Bool) → (Box → Bool) → List Box → ℕ → Before → Selectee → Type 0
  After t ever last bs =
      Tracked t meta pressed (λ x. ever_hit t x (ever x) bs) (λ x. last_hit t x (last x) bs)

  drags-After :
      (es : List Mouse) (w : Selectable) (ever last : Box → Bool) (cs : List Before)
      → w.options.disabled ≡ false
      → AllMeta meta es
      → AllAt (Tracked w.options.tolerance meta pressed ever last) 0 cs w.selectees
      → AllAt (After w.options.tolerance ever last (map (lasso w) es)) 0 cs (drags es w).selectees
  unfolding drags
  drags-After [] w ever last cs d a v = v
  drags-After (e ∷ es) w ever last cs d (a, more) v =
      let t = w.options.tolerance in
      let b = lasso w e in
      subst (λ x. AllAt (After t ever last (map (lasso w) (e ∷ es))) 0 cs (drags es x).selectees)
        (sym (mouse_drag_enabled e w d))
        (drags-After es (dragged_to e w) (λ x. ever x || hit t x b) (λ x. hit t x b) cs d more
          (subst
            (λ z.
              AllAt (Tracked t meta pressed (λ x. ever x || hit t x b) (λ x. hit t x b)) 0 cs
                (map (drag_one t z b) w.selectees))
            (sym a) (next_drag t b ever last cs w.selectees v)))

  pub first_drag-After :
      (e : Mouse) (es : List Mouse) (w : Selectable) (cs : List Before)
      → w.options.disabled ≡ false
      → AllMeta meta (e ∷ es)
      → AllAt (Grabbed meta pressed) 0 cs w.selectees
      → AllAt
          (After w.options.tolerance (λ _. false) (λ _. false) (map (lasso w) (e ∷ es)))
          0
          cs
          (drags (e ∷ es) w).selectees
  unfolding drags
  first_drag-After e es w cs d (a, more) v =
      let t = w.options.tolerance in
      let b = lasso w e in
      subst
        (λ x.
          AllAt (After t (λ _. false) (λ _. false) (map (lasso w) (e ∷ es))) 0 cs
            (drags es x).selectees)
        (sym (mouse_drag_enabled e w d))
        (drags-After es (dragged_to e w) (λ x. hit t x b) (λ x. hit t x b) cs d more
          (subst
            (λ z.
              AllAt (Tracked t meta pressed (λ x. hit t x b) (λ x. hit t x b)) 0 cs
                (map (drag_one t z b) w.selectees))
            (sym a) (first_drag t b cs w.selectees v)))

  -- What the release leaves of an element after drags to the lassos `bs`.
  abbrev pub Selected : Tolerance → List Box → ℕ → Before → Selectee → Type 0
  Selected t bs k c =
      HasClasses
        (last_hit t c.box false bs
          || (meta && (c.was && (not (pressed k) || ever_hit t c.box false bs))))
        false false

  abbrev Left : Tolerance → List Box → ℕ → Before → Selectee → Type 0
  Left t bs k c =
      HasClasses
        (not (last_hit t c.box false bs)
          && (meta && (c.was && (not (pressed k) || ever_hit t c.box false bs))))
        (last_hit t c.box false bs) false

  pub stop-Selected :
      (t : Tolerance) (bs : List Box) (cs : List Before) (w : Selectable)
      → AllAt (After t (λ _. false) (λ _. false) bs) 0 cs w.selectees
      → Returns (λ w'. AllAt (Selected t bs) 0 cs w'.selectees) (mouse_stop w)
  unfolding mouse_stop
  stop-Selected t bs cs w v =
      Returns-bind (AllAt (Left t bs) 0 cs) (λ w'. AllAt (Selected t bs) 0 cs w'.selectees)
        (each stop_unselecting w.selectees) _
        (AllAt-each (After t (λ _. false) (λ _. false) bs) (Left t bs) stop_unselecting
          (λ k c s (_, e).
            subst (λ x. Returns (Left t bs k c) (stop_unselecting x)) (sym e)
              (stop_unselecting-HasClasses _ _ _ _ (
                tracked-HasClasses c.box meta c.was (pressed k) (ever_hit t c.box false bs)
                  (last_hit t c.box false bs) s.called)))
          0 cs w.selectees v)
        λ ss1 v1.
          Returns-bind (AllAt (Selected t bs) 0 cs) (λ w'. AllAt (Selected t bs) 0 cs w'.selectees)
            (each stop_selecting ss1) _
            (AllAt-each (Left t bs) (Selected t bs) stop_selecting
              (λ k c s h.
                Returns-mono _ (Selected t bs k c) (stop_selecting s)
                  (stop_selecting-HasClasses _ _ s h)
                  λ s' h'.
                    subst (λ b. HasClasses b false false s')
                      (or_absorb (last_hit t c.box false bs)
                        (meta && (c.was && (not (pressed k) || ever_hit t c.box false bs))))
                      h')
              0 cs ss1 v1)
            λ ss2 v2. v2
