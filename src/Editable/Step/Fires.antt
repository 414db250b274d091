-- ===== src/Editable/Step/Fires.antt =====
-- The handlers of the form and of the timers do what the promise to the user allows.
use nswall.Common.{
  ℕ, ◌≡◌, refl, ap, sym, ◌∙◌, subst, inl, inr, true, none, some, arith, Bool-cases, ◌==◌,
}
use nswall.Editable.State.{
  Form, Content, html, in_form, TimerKind, loading, resetting, submitting, Timer, Editable,
}
use nswall.Editable.Settings.{Library, Settings}
use nswall.Editable.Types.{InputType}
use nswall.Editable.Begin.{Outcome, returned}
use nswall.Editable.Finish.{reset_element, reset_of, submit_form}
use nswall.Editable.Sound.{IsSound, IsPlain}
use nswall.Editable.Step.{Event, timer_fires, show_loading_text, submit_late, fire, with_form}
use nswall.Editable.Step.Cancels.{with_form_lem}
use nswall.Editable.Spec.{phase_of, can_cancel, May, stays}
use nswall.Editable.Step.Phases.{same_edit, reset-May, submit-May}

module _ (lib : Library) (s : Settings) (t : InputType) (v : IsPlain t) where
  -- An event that leaves the phase as it is.
  pub same-May :
      (ev : Event) (e f : Editable)
      → phase_of lib f ≡ phase_of lib e
      → May lib s ev (phase_of lib e) (phase_of lib f)
  same-May ev e f h = subst (May lib s ev (phase_of lib e)) (sym h) (stays ev (phase_of lib e))

  pub form_editing :
      (e : Editable) (f : Form) → IsSound e → e.content ≡ in_form f → e.editing ≡ true
  form_editing e f w q =
      (subst
        (λ c. elim c [
          | html x ↦ Unit {0}
          | in_form g ↦ (e.editing ≡ true) × (g.session ≡ e.sessions)
        ])
        q w).0

  abbrev run_on : (Form → Editable) → Editable → Content → Outcome
  run_on g e c = elim c [ html y ↦ returned e | in_form k ↦ returned (g k) ]

  -- The handlers of a form run while the element is edited.
  pub with_form-May :
      (ev : Event) (g : Form → Editable) (e : Editable)
      → IsSound e
      → ((f : Form)
          → e.content ≡ in_form f
          → e.editing ≡ true
          → May lib s ev (phase_of lib e) (phase_of lib (g f)))
      → May lib s ev (phase_of lib e) (phase_of lib (with_form lib s t g e).editable)
  with_form-May ev g e w h = on e.content refl
    where
      on :
          (c : Content)
          → e.content ≡ c
          → May lib s ev (phase_of lib e) (phase_of lib (with_form lib s t g e).editable)
      on (html x) q =
          same-May ev e (with_form lib s t g e).editable
            (ap (λ c. phase_of lib (run_on g e c).editable) q)
      on (in_form f) q =
          subst (λ o. May lib s ev (phase_of lib e) (phase_of lib o.editable))
            (sym (with_form_lem lib s t g e f q)) (h f q (form_editing e f w q))

  pub reset_of-May :
      (ev : Event) (e : Editable)
      → can_cancel ev ≡ true
      → May lib s ev (phase_of lib e) (phase_of lib (reset_of lib s t e))
  unfolding reset_of
  reset_of-May ev e c =
      subst
        (λ o.
          May lib s ev (phase_of lib e)
            (phase_of lib (elim o [ none ↦ reset_element lib s e | some f ↦ f e ])))
        (sym v.no_reset) (reset-May lib s ev e c)

  loading_phase :
      (k : ℕ) (e : Editable)
      → IsSound e
      → phase_of lib (show_loading_text lib s t k e).editable ≡ phase_of lib e
  unfolding show_loading_text
  loading_phase k e w = on e.content refl
    where
      on :
          (c : Content)
          → e.content ≡ c
          → phase_of lib (show_loading_text lib s t k e).editable ≡ phase_of lib e
      on (html x) q =
          let same : show_loading_text lib s t k e ≡ returned e = ground (arith, q) in
          ap (λ o. phase_of lib o.editable) same
      on (in_form f) q =
          let h = form_editing e f w q in
          let parts : ((show_loading_text lib s t k e).editable.editing ≡ e.editing)
              × ((show_loading_text lib s t k e).editable.revert ≡ e.revert) =
            ground arith in
          same_edit lib s e (show_loading_text lib s t k e).editable h (parts.0 ∙ h) parts.1

  submit_late-May :
      (i k : ℕ) (e : Editable)
      → IsSound e
      → May lib s (timer_fires i) (phase_of lib e) (phase_of lib (submit_late lib s t k e).editable)
  unfolding submit_late
  submit_late-May i k e w = on e.content refl
    where
      on :
          (c : Content)
          → e.content ≡ c
          → May lib s
              (timer_fires i)
              (phase_of lib e)
              (phase_of lib (submit_late lib s t k e).editable)
      on (html x) q =
          let same : submit_late lib s t k e ≡ returned e = ground (arith, q) in
          same-May (timer_fires i) e (submit_late lib s t k e).editable
            (ap (λ o. phase_of lib o.editable) same)
      on (in_form f) q = elim (Bool-cases (f.session == k)) [
        | inl h ↦
            let same : submit_late lib s t k e ≡ returned (submit_form lib s t f.input.value e) =
              ground (arith, q, h) in
            subst (λ o. May lib s (timer_fires i) (phase_of lib e) (phase_of lib o.editable))
              (sym same)
              (submit-May lib s (timer_fires i) t f.input.value e refl (form_editing e f w q))
        | inr h ↦
            let same : submit_late lib s t k e ≡ returned e = ground (arith, q, h) in
            same-May (timer_fires i) e (submit_late lib s t k e).editable
              (ap (λ o. phase_of lib o.editable) same)
      ]

  pub fire-May :
      (i : ℕ) (timer : Timer) (e : Editable)
      → IsSound e
      → May lib s (timer_fires i) (phase_of lib e) (phase_of lib (fire lib s t timer e).editable)
  unfolding fire
  fire-May i timer e w = on timer.kind refl
    where
      on :
          (k : TimerKind)
          → timer.kind ≡ k
          → May lib s
              (timer_fires i)
              (phase_of lib e)
              (phase_of lib (fire lib s t timer e).editable)
      on loading r =
          rw (r, fire)
            (same-May (timer_fires i) e (show_loading_text lib s t timer.session e).editable
              (loading_phase timer.session e w))
      on resetting r = rw (r, fire) (reset_of-May (timer_fires i) e refl)
      on submitting r = rw (r, fire) (submit_late-May i timer.session e w)
