-- ===== src/Editable/Step/Sound.antt =====
-- An element that is not being edited shows a text, and the types with the default functions never
-- throw.
use nswall.Common.{ℕ, zero, suc, ◌≡◌, refl, true, none, arith, get_elem?, Option-cases, inl, inr}
use nswall.Editable.State.{
  Form, Content, html, in_form, TimerKind, loading, resetting, submitting, Timer, Editable,
}
use nswall.Editable.Sound.{
  IsSound, IsPlain, reset_of-IsSound, submit_form-IsSound, succeed-IsSound, fail-IsSound,
  edit-IsSound,
}
use nswall.Editable.Settings.{Library, Settings}
use nswall.Editable.Types.{InputType}
use nswall.Editable.Finish.{submit_form, clear_timer}
use nswall.Editable.Step.{
  Event, edit_asked, typed, key_pressed, blurred, submitted, cancelled, timer_fires, save_succeeds,
  save_fails, disabled, enabled, destroyed, set_timer, blur, type_text, show_loading_text,
  submit_late, fire, step, with_form,
}

module _ (lib : Library) (s : Settings) (t : InputType) (v : IsPlain t) where
  with_form-IsSound :
      (f : Form → Editable) (e : Editable)
      → IsSound e
      → ((form : Form) → IsSound (f form))
      → IsSound (with_form lib s t f e).editable
  with_form-IsSound f e h k = on e.content refl
    where
      on : (c : Content) → e.content ≡ c → IsSound (with_form lib s t f e).editable
      on (html x) r = rw r tt
      on (in_form form) r = rw r (k form)

  show_loading_text-IsSound :
      (k : ℕ) (e : Editable) → IsSound e → IsSound (show_loading_text lib s t k e).editable
  unfolding show_loading_text
  show_loading_text-IsSound k e h = ground (arith, h)

  submit_late-IsSound :
      (k : ℕ) (e : Editable) → IsSound e → IsSound (submit_late lib s t k e).editable
  unfolding submit_late
  submit_late-IsSound k e h = on e.content refl
    where
      on : (c : Content) → e.content ≡ c → IsSound (submit_late lib s t k e).editable
      on (html x) r = rw (r, submit_late) h
      on (in_form form) r =
          rw (r, submit_late)
            (ground (arith, h, submit_form-IsSound lib s t v form.input.value e h))

  fire-IsSound :
      (timer : Timer) (e : Editable) → IsSound e → IsSound (fire lib s t timer e).editable
  unfolding fire
  fire-IsSound timer e h = on timer.kind refl
    where
      on : (k : TimerKind) → timer.kind ≡ k → IsSound (fire lib s t timer e).editable
      on loading r = rw (r, fire) (show_loading_text-IsSound timer.session e h)
      on resetting r = rw (r, fire) (reset_of-IsSound lib s t v e h)
      on submitting r = rw (r, fire) (submit_late-IsSound timer.session e h)

  -- Whatever happens to an element with a type of the defaults' plugin, buttons and reset, and default
  -- handling of errors and answers, it holds a form only while it is edited, and then that of its last edit.
  pub step-IsSound :
      (ev : Event) (e : Editable)
      → s.data_type_html ≡ true
      → s.onerror ≡ none
      → IsSound e
      → IsSound (step lib s t ev e).editable
  unfolding step blur set_timer type_text
  step-IsSound (edit_asked m a) e y n h = edit-IsSound lib s t v m a e h
  step-IsSound (typed text) e y n h = ground (arith, h)
  step-IsSound (key_pressed code) e y n h = ground (arith, h, reset_of-IsSound lib s t v e h)
  step-IsSound blurred e y n h = ground (arith, h)
  step-IsSound submitted e y n h =
      with_form-IsSound (λ f. submit_form lib s t f.input.value e) e h
        λ f. submit_form-IsSound lib s t v f.input.value e h
  step-IsSound cancelled e y n h = ground (arith, h, reset_of-IsSound lib s t v e h)
  step-IsSound (timer_fires i) e y n h = elim (Option-cases (get_elem? e.timers i)) [
    | inl r ↦ rw (r, step) h
    | inr (timer, r) ↦
        rw (r, step) (fire-IsSound timer (record e { timers = clear_timer timer.id e.timers }) h)
  ]
  step-IsSound (save_succeeds r) e y n h = on e.requests refl
    where
      on : (k : ℕ) → e.requests ≡ k → IsSound (step lib s t (save_succeeds r) e).editable
      on zero q = rw (q, step) h
      on (suc k) q = rw (q, step) (succeed-IsSound lib s t v y r (record e { requests = k }))
  step-IsSound save_fails e y n h = on e.requests refl
    where
      on : (k : ℕ) → e.requests ≡ k → IsSound (step lib s t save_fails e).editable
      on zero q = rw (q, step) h
      on (suc k) q = rw (q, step) (fail-IsSound lib s t v n (record e { requests = k }) h)
  step-IsSound disabled e y n h = h
  step-IsSound enabled e y n h = h
  step-IsSound destroyed e y n h = h
