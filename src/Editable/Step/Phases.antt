-- ===== src/Editable/Step/Phases.antt =====
-- What the parts of the handlers do to the phase of an element.
use nswall.Common.{
  ◌≡◌, refl, ap, sym, ◌∙◌, subst, ◌⊎◌, inl, inr, true, false, ◌∷◌, arith, Bool-cases,
}
use nswall.Common.Texts.{Text}
use nswall.Editable.State.{html, callback_with, Editable}
use nswall.Editable.Settings.{Target, url, function, Library, Settings}
use nswall.Editable.Types.{InputType, before_submit_of}
use nswall.Editable.Begin.{html_of}
use nswall.Editable.Finish.{
  show_tooltip, reset_element, clear_own_timer, submit_function, submit_url, send, submit_form,
}
use nswall.Editable.Step.{Event}
use nswall.Editable.Step.Cancels.{Shows, shown, reset_element-Shows, show_placeholder_lem}
use nswall.Editable.Spec.{
  resting, edited, phase_of, can_cancel, can_submit, May, stays, goes_back, computed,
}

module _ (lib : Library) (s : Settings) where
  pub Shows-resting : (x : Text) (e : Editable) → Shows x e → phase_of lib e ≡ resting x
  unfolding html_of
  Shows-resting x e (h, k) = ground (arith, h, k)

  pub editing_lem : (e : Editable) → e.editing ≡ true → phase_of lib e ≡ edited e.revert
  editing_lem e h = ground (arith, h)

  -- Where two elements are edited and go back to the same text.
  pub same_edit :
      (e f : Editable)
      → e.editing ≡ true
      → f.editing ≡ true
      → f.revert ≡ e.revert
      → phase_of lib f ≡ phase_of lib e
  same_edit e f h k r = editing_lem f k ∙ ap edited r ∙ sym (editing_lem e h)

  reset_cases :
      (e : Editable)
      → (reset_element lib s e ≡ e)
        ⊎ ((phase_of lib e ≡ edited e.revert)
            × (phase_of lib (reset_element lib s e) ≡ resting (shown lib s e.revert)))
  unfolding reset_element
  reset_cases e = elim (Bool-cases e.editing) [
    | inr h ↦ inl (ground (arith, h))
    | inl h ↦ elim (Bool-cases (s.onreset e)) [
      | inr k ↦ inl (ground (arith, h, k))
      | inl k ↦ inr (
        editing_lem e h,
        Shows-resting (shown lib s e.revert) (reset_element lib s e)
            (reset_element-Shows lib s e h k),
      )
    ]
  ]

  -- A reset by an event that can cancel.
  pub reset-May :
      (ev : Event) (e : Editable)
      → can_cancel ev ≡ true
      → May lib s ev (phase_of lib e) (phase_of lib (reset_element lib s e))
  reset-May ev e c = elim (reset_cases e) [
    | inl same ↦
        subst (λ x. May lib s ev (phase_of lib e) (phase_of lib x)) (sym same)
          (stays ev (phase_of lib e))
    | inr (p, q) ↦
        subst (λ x. May lib s ev x (phase_of lib (reset_element lib s e))) (sym p)
          (subst (May lib s ev (edited e.revert)) (sym q) (goes_back ev e.revert c))
  ]

  tooltip_phase : (e : Editable) → phase_of lib (show_tooltip s e) ≡ phase_of lib e
  unfolding show_tooltip html_of
  tooltip_phase e = ground arith

  cleared_parts :
      (e : Editable)
      → ((clear_own_timer e).editing ≡ e.editing) × ((clear_own_timer e).revert ≡ e.revert)
  unfolding clear_own_timer
  cleared_parts e = ground arith

  abbrev Submitted : Text → Editable → Editable → Type 0
  Submitted value e f =
      (phase_of lib f ≡ phase_of lib e)
      ⊎ ((g : Text → Text) × (s.target ≡ function g)
          × (phase_of lib f ≡ resting (shown lib s (g value))))

  send_cases :
      (value : Text) (e : Editable) → e.editing ≡ true → Submitted value e (send lib s value e)
  unfolding send submit_url submit_function
  send_cases value e h = on s.target refl
    where
      on : (x : Target) → s.target ≡ x → Submitted value e (send lib s value e)
      on (url u) q = rw (q, send) (inl (same_edit e (submit_url s value e) h h refl))
      on (function g) q =
          rw (q, send)
            (inr (
              g,
              refl,
              Shows-resting (shown lib s (g value)) (submit_function lib s g value e) (
                  show_placeholder_lem lib s (g value)
                    (record e {
                      content = html (g value);
                      editing = false;
                      called = callback_with (g value) ∷ e.called;
                    })
                    (refl, refl)),
            ))

  carried :
      (value : Text) (e f e1 f1 : Editable)
      → phase_of lib e1 ≡ phase_of lib e
      → phase_of lib f ≡ phase_of lib f1
      → Submitted value e1 f1
      → Submitted value e f
  carried value e f e1 f1 h k (inl q) = inl (k ∙ q ∙ h)
  carried value e f e1 f1 h k (inr (g, t, q)) = inr (g, t, k ∙ q)

  submit_cases :
      (t : InputType) (value : Text) (e : Editable)
      → e.editing ≡ true
      → Submitted value e (submit_form lib s t value e)
  unfolding submit_form
  submit_cases t value e h =
      let e1 = clear_own_timer e in
      let (p, r) = cleared_parts e in
      let here = same_edit e e1 h (p ∙ h) r in
      elim (Bool-cases (s.onsubmit e1)) [
        | inr n ↦ inl (rw (n, submit_form) (tooltip_phase e1 ∙ here))
        | inl y ↦ elim (Bool-cases (before_submit_of t e1)) [
          | inr n ↦ inl (rw (y, submit_form) (rw n (tooltip_phase e1 ∙ here)))
          | inl z ↦
              rw (y, submit_form)
                (rw z (
                  carried value e (show_tooltip s (send lib s value e1)) e1 (send lib s value e1)
                    here (tooltip_phase (send lib s value e1)) (send_cases value e1 (p ∙ h))))
        ]
      ]

  pub submit-May :
      (ev : Event) (t : InputType) (value : Text) (e : Editable)
      → can_submit ev ≡ true
      → e.editing ≡ true
      → May lib s ev (phase_of lib e) (phase_of lib (submit_form lib s t value e))
  submit-May ev t value e c h = elim (submit_cases t value e h) [
    | inl same ↦ subst (May lib s ev (phase_of lib e)) (sym same) (stays ev (phase_of lib e))
    | inr (g, q, r) ↦
        subst (λ x. May lib s ev x (phase_of lib (submit_form lib s t value e)))
          (sym (editing_lem e h))
          (subst (May lib s ev (edited e.revert)) (sym r) (computed ev g value e.revert q c))
  ]
