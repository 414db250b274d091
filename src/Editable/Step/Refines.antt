-- ===== src/Editable/Step/Refines.antt =====
-- Each event does what the promise to the user allows.
use nswall.Common.{
  ℕ, ◌≡◌, refl, ap, sym, ◌∙◌, subst, ◌⊎◌, inl, inr, true, false, Option, none, some, arith,
  Bool-cases, if◌then◌else◌, ◌==◌,
}
use nswall.Common.Texts.{Text}
use nswall.Editable.State.{Content, html, in_form, Button, Editable}
use nswall.Editable.Settings.{Library, Settings}
use nswall.Editable.Types.{InputType}
use nswall.Editable.Begin.{returned, Measured, html_of, edit}
use nswall.Editable.Finish.{reset_of, submit_form}
use nswall.Editable.Sound.{IsSound, IsPlain}
use nswall.Editable.Step.{
  Event, edit_asked, typed, key_pressed, blurred, submitted, cancelled, timer_fires, save_succeeds,
  save_fails, disabled, enabled, destroyed, blur, disable, enable, destroy, set_timer, type_text,
  step,
}
use nswall.Editable.Step.Cancels.{IsReady, edit-InEdit}
use nswall.Editable.Spec.{resting, edited, phase_of, May, stays, begins}
use nswall.Editable.Step.Phases.{Shows-resting, editing_lem, same_edit, submit-May}
use nswall.Editable.Step.Fires.{same-May, form_editing, with_form-May, reset_of-May}
use nswall.Editable.Step.Answers.{answer-May, error-May, timer-May}

module _ (lib : Library) (s : Settings) (t : InputType) (v : IsPlain t) where
  edit_declined :
      (m : Measured) (a : Option Text) (e : Editable)
      → (e.is_bound ≡ false) ⊎ (e.is_disabled ≡ true) ⊎ (e.editing ≡ true) ⊎ (s.onedit e ≡ false)
      → edit lib s t m a e ≡ returned e
  unfolding edit
  edit_declined m a e h = ground (arith, h)

  edit-May :
      (m : Measured) (a : Option Text) (e : Editable)
      → t.fill ≡ none
      → IsSound e
      → May lib s (edit_asked m a) (phase_of lib e) (phase_of lib (edit lib s t m a e).editable)
  edit-May m a e d w = elim (Bool-cases e.is_bound) [
    | inr h ↦ declined (inl h)
    | inl b ↦ elim (Bool-cases e.is_disabled) [
      | inl h ↦ declined (inr (inl h))
      | inr n ↦ elim (Bool-cases e.editing) [
        | inl h ↦ declined (inr (inr (inl h)))
        | inr r ↦ elim (Bool-cases (s.onedit e)) [
          | inr h ↦ declined (inr (inr (inr h)))
          | inl y ↦ begun (record { is_bound = b; enabled = n; at_rest = r; allowed = y })
        ]
      ]
    ]
  ]
    where
      Goal : Type 0
      Goal =
          May lib s (edit_asked m a) (phase_of lib e) (phase_of lib (edit lib s t m a e).editable)

      declined :
          (e.is_bound ≡ false) ⊎ (e.is_disabled ≡ true) ⊎ (e.editing ≡ true) ⊎ (s.onedit e ≡ false)
          → Goal
      declined h =
          same-May lib s t v (edit_asked m a) e (edit lib s t m a e).editable
            (ap (λ o. phase_of lib o.editable) (edit_declined m a e h))

      begun : IsReady lib s t e → Goal
      begun r = on e.content refl
        where
          on : (c : Content) → e.content ≡ c → Goal
          on (in_form f) q =
              let h = form_editing lib s t v e f w q in absurd (ground (arith, h, r.at_rest))
          on (html x) q =
              let f = (edit lib s t m a e).editable in
              let o = edit-InEdit lib s t m a e x d q r in
              subst (λ p. May lib s (edit_asked m a) p (phase_of lib f))
                (sym (Shows-resting lib s x e (q, r.at_rest)))
                (subst (May lib s (edit_asked m a) (resting x))
                  (sym (editing_lem lib s f o.editing ∙ ap edited o.reverts)) (begins m a x))

  key-May :
      (code : ℕ) (e : Editable)
      → May lib s
          (key_pressed code)
          (phase_of lib e)
          (phase_of lib (if code == 27 then reset_of lib s t e else e))
  key-May code e =
      elim (code == 27)
        as (λ b.
          May lib s (key_pressed code) (phase_of lib e)
            (phase_of lib (if b then reset_of lib s t e else e))) [
              | false ↦ stays (key_pressed code) (phase_of lib e)
              | true ↦ reset_of-May lib s t v (key_pressed code) e refl
            ]

  cancel-May :
      (o : Option Button) (e : Editable)
      → May lib s cancelled
          (phase_of lib e)
          (phase_of lib (elim o [ none ↦ e | some b ↦ reset_of lib s t e ]))
  cancel-May none e = stays cancelled (phase_of lib e)
  cancel-May (some b) e = reset_of-May lib s t v cancelled e refl

  blur_phase :
      (x : Text) (e : Editable) → e.editing ≡ true → phase_of lib (blur s x e) ≡ phase_of lib e
  unfolding blur set_timer
  blur_phase x e h =
      let parts : ((blur s x e).editing ≡ e.editing) × ((blur s x e).revert ≡ e.revert) =
        ground arith in
      same_edit lib s e (blur s x e) h (parts.0 ∙ h) parts.1

  -- The promise to the user: with a type of the defaults and default handling of errors and answers, each
  -- event does to a sound element what `May` allows. Where it rests, only an edit that begins and the
  -- server's answer to a save change what it shows; where it is edited, it goes back to the text of before,
  -- or shows an answer or the result of the target.
  pub step-May :
      (ev : Event) (e : Editable)
      → t.fill ≡ none
      → s.data_type_html ≡ true
      → s.onerror ≡ none
      → IsSound e
      → May lib s ev (phase_of lib e) (phase_of lib (step lib s t ev e).editable)
  unfolding step disable enable destroy html_of
  step-May (edit_asked m a) e d y n w = edit-May m a e d w
  step-May (typed x) e d y n w =
      with_form-May lib s t v (typed x) (λ f. record e { content = in_form (type_text x f) }) e w
        λ f q h.
          same-May lib s t v (typed x) e (record e { content = in_form (type_text x f) })
            (same_edit lib s e (record e { content = in_form (type_text x f) }) h h refl)
  step-May (key_pressed code) e d y n w =
      with_form-May lib s t v (key_pressed code) (λ f. if code == 27 then reset_of lib s t e else e)
        e w λ f q h. key-May code e
  step-May blurred e d y n w =
      with_form-May lib s t v blurred (λ f. blur s f.input.value e) e w
        λ f q h.
          same-May lib s t v blurred e (blur s f.input.value e) (blur_phase f.input.value e h)
  step-May submitted e d y n w =
      with_form-May lib s t v submitted (λ f. submit_form lib s t f.input.value e) e w
        λ f q h. submit-May lib s submitted t f.input.value e refl h
  step-May cancelled e d y n w =
      with_form-May lib s t v cancelled
        (λ f. elim f.cancel_button [ none ↦ e | some b ↦ reset_of lib s t e ]) e w
        λ f q h. cancel-May f.cancel_button e
  step-May (timer_fires i) e d y n w = timer-May lib s t v i e w
  step-May (save_succeeds r) e d y n w = answer-May lib s t v r e y
  step-May save_fails e d y n w = error-May lib s t v e n
  step-May disabled e d y n w = same-May lib s t v disabled e (disable e) refl
  step-May enabled e d y n w = same-May lib s t v enabled e (enable e) refl
  step-May destroyed e d y n w = same-May lib s t v destroyed e (destroy e) refl
