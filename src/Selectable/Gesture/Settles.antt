-- ===== src/Selectable/Gesture/Settles.antt =====
-- After any gesture no element is left in a passing state.
use nswall.Common.{
  ℕ, zero, suc, ◌≡◌, refl, sym, subst, Bool, true, false, none, some, Option, List, [], ◌∷◌, arith,
  if◌then◌else◌, map, get_elem?, set, Bool-cases, inl, inr,
}
use nswall.Common.Every.{Every, Every-map_to, Every-weaken, Every-get_elem?}
use nswall.Common.Result.{Result, Returns, Returns-bind}
use nswall.Selectable.State.{Box, Selectee, Mouse, Selectable}
use nswall.Selectable.Element.{
  refresh_one, start_one, press_one, drag_one, stop_unselecting, stop_selecting,
}
use nswall.Selectable.Gesture.{
  gesture, mouse_start, mouse_drag, mouse_stop, drags, lasso, each, press,
}
use nswall.Selectable.Element.Aligned.{
  IsAligned, IsReady, IsHalf, IsSettled, refresh-IsSettled, start-IsReady, press_one-IsAligned,
  drag_one-IsAligned, stop_unselecting-IsHalf, stop_selecting-IsSettled, settled-IsAligned,
}

Every-each :
    (P Q : Selectee → Type 0) (f : Selectee → Result Selectee)
    → ((s : Selectee) → P s → Returns Q (f s))
    → (ss : List Selectee) → Every P ss
    → Returns (Every Q) (each f ss)
unfolding each
Every-each P Q f h [] v = tt
Every-each P Q f h (s ∷ ss) v = Returns-bind Q (Every Q) (f s) _ (h s v.0) λ s1 b.
    Returns-bind (Every Q) (Every Q) (each f ss) _ (Every-each P Q f h ss v.1) λ ss1 w. (b, w)

Every-set :
    (P : Selectee → Type 0) (ss : List Selectee) (i : ℕ) (s : Selectee)
    → P s
    → Every P ss
    → Every P (set ss i s)
Every-set P [] i s p v = tt
Every-set P (x ∷ ss) zero s p v = (p, v.1)
Every-set P (x ∷ ss) (suc i) s p v = (v.0, Every-set P ss i s p v.1)

press-IsAligned :
    (meta : Bool) (chain : List ℕ) (ss : List Selectee)
    → Every IsReady ss
    → Every IsAligned (press meta chain ss)
unfolding press
press-IsAligned meta [] ss v = Every-weaken IsReady IsAligned ss (λ s (x, e, a, b). (x, e, a)) v
press-IsAligned meta (i ∷ chain) ss v = on (get_elem? ss i) refl (press-IsAligned meta chain ss v)
  where
    rest : List Selectee
    rest = press meta chain ss

    pressed : Option Selectee → List Selectee
    pressed o = elim o [
      | none ↦ rest
      | some s ↦ elim s.item [ none ↦ rest | some item ↦ set ss i (press_one meta s item) ]
    ]

    on :
        (o : Option Selectee)
        → get_elem? ss i ≡ o
        → Every IsAligned rest
        → Every IsAligned (press meta (i ∷ chain) ss)
    on none h ih = subst (λ o. Every IsAligned (pressed o)) (sym h) ih
    on (some s) h ih =
        let (x, e, a, b) = Every-get_elem? IsReady ss i s v h in
        subst (λ o. Every IsAligned (pressed o)) (sym h)
          (subst
            (λ o.
              Every IsAligned
                (elim o [ none ↦ rest | some item ↦ set ss i (press_one meta s item) ]))
            (sym e)
            (Every-set IsAligned ss i (press_one meta s x) (press_one-IsAligned meta s x a b)
              (Every-weaken IsReady IsAligned ss (λ y (z, f, c, d). (z, f, c)) v)))

abbrev AllAligned : Selectable → Type 0
AllAligned w = Every IsAligned w.selectees

abbrev pub AllSettled : Selectable → Type 0
AllSettled w = Every IsSettled w.selectees

mouse_start-AllAligned :
    (e : Mouse) (chain : List ℕ) (w : Selectable)
    → AllSettled w
    → Returns AllAligned (mouse_start e chain w)
unfolding mouse_start
mouse_start-AllAligned e chain w v = elim (Bool-cases w.options.disabled) [
  | inl d ↦ rw (d, mouse_start) (Every-weaken IsSettled IsAligned w.selectees settled-IsAligned v)
  | inr d ↦
      let refreshed = if w.options.auto_refresh then map refresh_one w.selectees else w.selectees in
      let h : Every IsSettled refreshed =
        ground (
          arith,
          v,
          Every-map_to IsSettled IsSettled refresh_one w.selectees refresh-IsSettled v,
        ) in
      rw (d, mouse_start)
        (Returns-bind (Every IsReady) AllAligned (each (start_one e.meta_key) refreshed) _
          (Every-each IsSettled IsReady (start_one e.meta_key) (start-IsReady e.meta_key) refreshed
            h)
          λ ss g. press-IsAligned e.meta_key chain ss g)
]

mouse_drag-AllAligned : (e : Mouse) (w : Selectable) → AllAligned w → AllAligned (mouse_drag e w)
unfolding mouse_drag
mouse_drag-AllAligned e w v =
    let box : Option Box = elim w.helper [ none ↦ none | some _ ↦ some (lasso w e) ] in
    let ss = map (drag_one w.options.tolerance e.meta_key (lasso w e)) w.selectees in
    let aligned : Every IsAligned ss =
      Every-map_to IsAligned IsAligned (drag_one w.options.tolerance e.meta_key (lasso w e))
        w.selectees (drag_one-IsAligned w.options.tolerance e.meta_key (lasso w e)) v in
    elim w.options.disabled
      as (λ b. AllAligned (
        if b
        then record w { dragged = true }
        else record w { dragged = true; helper = box; selectees = ss })) [
          | true ↦ v
          | false ↦ aligned
        ]

drags-AllAligned : (es : List Mouse) (w : Selectable) → AllAligned w → AllAligned (drags es w)
unfolding drags
drags-AllAligned [] w v = v
drags-AllAligned (e ∷ es) w v = drags-AllAligned es (mouse_drag e w) (mouse_drag-AllAligned e w v)

mouse_stop-AllSettled : (w : Selectable) → AllAligned w → Returns AllSettled (mouse_stop w)
unfolding mouse_stop
mouse_stop-AllSettled w v =
    Returns-bind (Every IsHalf) AllSettled (each stop_unselecting w.selectees) _
      (Every-each IsAligned IsHalf stop_unselecting stop_unselecting-IsHalf w.selectees v)
      λ ss h.
        Returns-bind (Every IsSettled) AllSettled (each stop_selecting ss) _
          (Every-each IsHalf IsSettled stop_selecting stop_selecting-IsSettled ss h) λ ss' h'. h'

-- Where each element has data and none is in a gesture, so it is after any gesture, which does not throw:
-- whichever element the press meets, wherever the mouse goes, and whether or not the meta key is held
-- at each of its events, no element keeps a passing class, nor do its data.
pub gesture-AllSettled :
    (e : Mouse) (chain : List ℕ) (es : List Mouse) (w : Selectable)
    → AllSettled w
    → Returns AllSettled (gesture e chain es w)
unfolding gesture
gesture-AllSettled e chain es w v =
    Returns-bind AllAligned AllSettled (mouse_start e chain w) _
      (mouse_start-AllAligned e chain w v)
      λ w1 a. mouse_stop-AllSettled (drags es w1) (drags-AllAligned es w1 a)
