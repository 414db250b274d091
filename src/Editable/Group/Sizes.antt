-- ===== src/Editable/Group/Sizes.antt =====
-- Which events leave the sizes of the settings alone.
use nswall.Common.{
  if◌then◌else◌, ℕ, zero, suc, ◌≡◌, refl, Bool, true, false, not, ◌==◌, none, some, Option, arith,
  get_elem?, Option-cases, inl, inr,
}
use nswall.Common.Texts.{Text}
use nswall.Editable.State.{
  Form, Content, html, in_form, TimerKind, loading, resetting, submitting, Timer, Editable,
}
use nswall.Editable.Settings.{Library, Settings}
use nswall.Editable.Types.{InputType}
use nswall.Editable.Begin.{
  Measured, edit, measure, new_size, is_auto, take_text, open_form, ask_content, request_content,
}
use nswall.Editable.Finish.{
  show_placeholder, show_tooltip, reset_element, reset_of, clear_timer, clear_own_timer,
  submit_function, submit_url, send, submit_form, succeed, fail,
}
use nswall.Editable.Sound.{IsPlain}
use nswall.Editable.Step.{
  Event, edit_asked, typed, key_pressed, blurred, submitted, cancelled, timer_fires, save_succeeds,
  save_fails, disabled, enabled, destroyed, set_timer, blur, type_text, show_loading_text,
  submit_late, fire, step, with_form, disable, enable, destroy,
}

-- `f` has the sizes of `e`.
abbrev pub Keeps : Editable → Editable → Type 0
Keeps e f = (f.width ≡ e.width) × (f.height ≡ e.height)

-- No edit of an element without a width begins.
abbrev pub is_wide : Event → Bool
is_wide (edit_asked m a) = not (m.width == 0)
is_wide _ = true

module _ (lib : Library) (s : Settings) where
  placeholder-Keeps : (e : Editable) → Keeps e (show_placeholder lib s e)
  unfolding show_placeholder
  placeholder-Keeps e = ground arith

  tooltip-Keeps : (e : Editable) → Keeps e (show_tooltip s e)
  unfolding show_tooltip
  tooltip-Keeps e = ground arith

  reset_element-Keeps : (e : Editable) → Keeps e (reset_element lib s e)
  unfolding reset_element show_placeholder show_tooltip
  reset_element-Keeps e = ground arith

  send-Keeps : (x : Text) (e : Editable) → Keeps e (send lib s x e)
  unfolding send submit_url submit_function show_placeholder
  send-Keeps x e = ground arith

  succeed-Keeps : (x : Text) (e : Editable) → Keeps e (succeed lib s x e)
  unfolding succeed show_placeholder
  succeed-Keeps x e = ground arith

  cleared-Keeps : (e : Editable) → Keeps e (clear_own_timer e)
  unfolding clear_own_timer
  cleared-Keeps e = ground arith

  blur-Keeps : (x : Text) (e : Editable) → Keeps e (blur s x e)
  unfolding blur set_timer
  blur-Keeps x e = ground arith

  module _ (t : InputType) (v : IsPlain t) where
    reset_of-Keeps : (e : Editable) → Keeps e (reset_of lib s t e)
    unfolding reset_of
    reset_of-Keeps e = ground (arith, v.no_reset, reset_element-Keeps e)

    submit_form-Keeps : (x : Text) (e : Editable) → Keeps e (submit_form lib s t x e)
    unfolding submit_form
    submit_form-Keeps x e =
        let e1 = clear_own_timer e in
        ground (
          arith,
          cleared-Keeps e,
          tooltip-Keeps e1,
          send-Keeps x e1,
          tooltip-Keeps (send lib s x e1),
        )

    loading-Keeps : (k : ℕ) (e : Editable) → Keeps e (show_loading_text lib s t k e).editable
    unfolding show_loading_text
    loading-Keeps k e = ground arith

    pub open_form-Keeps :
        (a : Option Text) (e : Editable) → Keeps e (open_form lib s t a e).editable
    unfolding open_form ask_content request_content
    open_form-Keeps a e = ground arith

    measure-Keeps :
        (m : Measured) (e : Editable)
        → (m.width == 0) ≡ false
        → is_auto s.width ≡ false
        → is_auto s.height ≡ false
        → Keeps e (measure s m e)
    unfolding measure new_size
    measure-Keeps m e h j k = (ground (arith, h, j), ground (arith, h, k))

    edit-Keeps :
        (m : Measured) (a : Option Text) (e : Editable)
        → is_wide (edit_asked m a) ≡ true
        → is_auto s.width ≡ false
        → is_auto s.height ≡ false
        → Keeps e (edit lib s t m a e).editable
    unfolding edit take_text
    edit-Keeps m a e h j k =
        let w : (m.width == 0) ≡ false = ground (arith, h) in
        let x = take_text lib s (measure s m e) in
        let opened = open_form-Keeps a x in
        let measured = measure-Keeps m e w j k in ground (arith, opened, measured)

    fire-Keeps : (timer : Timer) (e : Editable) → Keeps e (fire lib s t timer e).editable
    unfolding fire submit_late
    fire-Keeps timer e = on timer.kind refl
      where
        late : (k : ℕ) (c : Content) → e.content ≡ c → Keeps e (submit_late lib s t k e).editable
        late k (html x) r = rw (r, submit_late) (refl, refl)
        late k (in_form form) r =
            rw (r, submit_late) (ground (arith, submit_form-Keeps form.input.value e))

        on : (k : TimerKind) → timer.kind ≡ k → Keeps e (fire lib s t timer e).editable
        on loading r = rw (r, fire) (loading-Keeps timer.session e)
        on resetting r = rw (r, fire) (reset_of-Keeps e)
        on submitting r = rw (r, fire) (late timer.session e.content refl)

    form-Keeps :
        (f : Form → Editable) (e : Editable)
        → ((form : Form) → Keeps e (f form))
        → Keeps e (with_form lib s t f e).editable
    form-Keeps f e k = on e.content refl
      where
        on : (c : Content) → e.content ≡ c → Keeps e (with_form lib s t f e).editable
        on (html x) r = rw r (refl, refl)
        on (in_form form) r = rw r (k form)

    -- With explicit sizes, the default reset and no hook for errors, only an edit of an element without
    -- a width changes the sizes.
    pub step-Keeps :
        (ev : Event) (e : Editable)
        → is_wide ev ≡ true
        → is_auto s.width ≡ false
        → is_auto s.height ≡ false
        → s.onerror ≡ none
        → Keeps e (step lib s t ev e).editable
    unfolding step type_text disable enable destroy fail
    step-Keeps (edit_asked m a) e h j k n = edit-Keeps m a e h j k
    step-Keeps (typed text) e h j k n =
        form-Keeps (λ f. record e { content = in_form (type_text text f) }) e λ f. (refl, refl)
    step-Keeps (key_pressed code) e h j k n =
        form-Keeps (λ f. if code == 27 then reset_of lib s t e else e) e
          λ f. ground (arith, reset_of-Keeps e)
    step-Keeps blurred e h j k n =
        form-Keeps (λ f. blur s f.input.value e) e λ f. blur-Keeps f.input.value e
    step-Keeps submitted e h j k n =
        form-Keeps (λ f. submit_form lib s t f.input.value e) e
          λ f. submit_form-Keeps f.input.value e
    step-Keeps cancelled e h j k n =
        form-Keeps (λ f. elim f.cancel_button [ none ↦ e | some b ↦ reset_of lib s t e ]) e
          λ f. ground (arith, reset_of-Keeps e)
    step-Keeps (timer_fires i) e h j k n = elim (Option-cases (get_elem? e.timers i)) [
      | inl r ↦ rw (r, step) (refl, refl)
      | inr (timer, r) ↦
          rw (r, step) (fire-Keeps timer (record e { timers = clear_timer timer.id e.timers }))
    ]
    step-Keeps (save_succeeds r) e h j k n = on e.requests refl
      where
        on : (l : ℕ) → e.requests ≡ l → Keeps e (step lib s t (save_succeeds r) e).editable
        on zero q = rw (q, step) (refl, refl)
        on (suc l) q = rw (q, step) (succeed-Keeps r (record e { requests = l }))
    step-Keeps save_fails e h j k n = on e.requests refl
      where
        failed : (x : Editable) → Keeps x (fail lib s t x)
        failed x = ground (arith, n, reset_of-Keeps x)

        on : (l : ℕ) → e.requests ≡ l → Keeps e (step lib s t save_fails e).editable
        on zero q = rw (q, step) (refl, refl)
        on (suc l) q = rw (q, step) (failed (record e { requests = l }))
    step-Keeps disabled e h j k n = (refl, refl)
    step-Keeps enabled e h j k n = (refl, refl)
    step-Keeps destroyed e h j k n = (refl, refl)
