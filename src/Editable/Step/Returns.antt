-- ===== src/Editable/Step/Returns.antt =====
-- With the types that are filled by default no handler throws.
use nswall.Common.{
  ℕ, ◌≡◌, refl, false, Option, none, some, arith, get_elem?, Option-cases, inl, inr,
}
use nswall.Common.Texts.{Text}
use nswall.Common.Result.{ok}
use nswall.Editable.State.{Field, Form, Content, html, in_form, Timer, Editable}
use nswall.Editable.Settings.{Payload, plain, properties, Library, Settings}
use nswall.Editable.Types.{InputType, fill_of, default_fill, element_of}
use nswall.Editable.Begin.{
  Measured, edit, measure, take_text, open_form, bare_form, ask_content, content_of,
}
use nswall.Editable.Finish.{clear_timer}
use nswall.Editable.Step.{
  Event, edit_asked, typed, key_pressed, blurred, submitted, cancelled, timer_fires, save_succeeds,
  save_fails, disabled, enabled, destroyed, show_loading_text, submit_late, fire, step, with_form,
}

module _ (lib : Library) (s : Settings) (t : InputType) (d : t.fill ≡ none) where
  pub filled :
      (e : Editable) (p : Option Payload) (f : Field) → (g : Field) × (fill_of t lib s e p f ≡ ok g)
  unfolding fill_of default_fill
  filled e none f = (f, rw (d, fill_of) refl)
  filled e (some (plain x)) f = (record f { value = x }, rw (d, fill_of) refl)
  filled e (some (properties ps)) f = (record f { value = lib.object_text }, rw (d, fill_of) refl)

  open_form_returns : (a : Option Text) (e : Editable) → (open_form lib s t a e).threw ≡ false
  unfolding open_form bare_form
  open_form_returns a e =
      let e1 = ask_content s a e in
      let (g, r) = filled e1 (content_of s a e1) (bare_form s e (element_of t s e)).input in
      rw (r, open_form) refl

  edit_returns :
      (m : Measured) (a : Option Text) (e : Editable) → (edit lib s t m a e).threw ≡ false
  unfolding edit
  edit_returns m a e = ground (arith, open_form_returns a (take_text lib s (measure s m e)))

  with_form_returns : (f : Form → Editable) (e : Editable) → (with_form lib s t f e).threw ≡ false
  with_form_returns f e = ground arith

  show_loading_text_returns : (k : ℕ) (e : Editable) → (show_loading_text lib s t k e).threw ≡ false
  unfolding show_loading_text
  show_loading_text_returns k e = on e.content refl
    where
      on : (c : Content) → e.content ≡ c → (show_loading_text lib s t k e).threw ≡ false
      on (html x) r = rw (r, show_loading_text) refl
      on (in_form form) r =
          let (g, q) = filled e (some (plain s.load_text)) form.input in
          rw (r, show_loading_text) (ground (arith, q))

  fire_returns : (timer : Timer) (e : Editable) → (fire lib s t timer e).threw ≡ false
  unfolding fire submit_late
  fire_returns timer e = ground (arith, show_loading_text_returns timer.session e)

  -- With a type that fills its input by default, as 'text' and 'textarea' do, no event throws.
  pub step_returns : (ev : Event) (e : Editable) → (step lib s t ev e).threw ≡ false
  unfolding step
  step_returns (edit_asked m a) e = edit_returns m a e
  step_returns (typed x) e = with_form_returns _ e
  step_returns (key_pressed code) e = with_form_returns _ e
  step_returns blurred e = with_form_returns _ e
  step_returns submitted e = with_form_returns _ e
  step_returns cancelled e = with_form_returns _ e
  step_returns (timer_fires i) e = elim (Option-cases (get_elem? e.timers i)) [
    | inl r ↦ rw (r, step) refl
    | inr (timer, r) ↦
        rw (r, step) (fire_returns timer (record e { timers = clear_timer timer.id e.timers }))
  ]
  step_returns (save_succeeds r) e = ground arith
  step_returns save_fails e = ground arith
  step_returns disabled e = refl
  step_returns enabled e = refl
  step_returns destroyed e = refl
