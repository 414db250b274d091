-- ===== src/Editable/Step/Saves.antt =====
-- A save from the submit of the form to the answer of the server.
use nswall.Common.{ℕ, zero, suc, ◌≡◌, refl, ap, sym, ◌∙◌, subst, true, none, List, ◌∷◌, arith}
use nswall.Common.Texts.{Text}
use nswall.Editable.State.{Form, in_form, Call, sends, callback_with, Editable}
use nswall.Editable.Settings.{url, Library, Settings}
use nswall.Editable.Types.{InputType, before_submit_of}
use nswall.Editable.Begin.{returned, html_of}
use nswall.Editable.Finish.{
  show_placeholder, show_tooltip, reset_of, clear_own_timer, fields_of, submit_url, send,
  submit_form, succeed, fail,
}
use nswall.Editable.Step.{submitted, save_succeeds, save_fails, step}
use nswall.Editable.Step.Cancels.{Shows, shown, reset_element-Shows, with_form_lem}

module _ (lib : Library) (s : Settings) (t : InputType) where
  -- The form is in the element, and the hooks let a submit and a reset pass.
  pub record MaySubmit (e : Editable) : Type 0 where
    pub form : Form
    pub holds : e.content ≡ in_form form
    pub editing : e.editing ≡ true
    pub passes : (x : Editable) → s.onsubmit x ≡ true
    pub type_passes : t.before_submit ≡ none

  -- What the submit of an element with such a form sends.
  abbrev pub sent : Form → Editable → Editable
  sent f e = show_tooltip s (submit_url s f.input.value (clear_own_timer e))

  module _ (u : Text) (g : s.target ≡ url u) where
    submitted_lem :
        (e : Editable) (v : MaySubmit e) → step lib s t submitted e ≡ returned (sent v.form e)
    unfolding step submit_form send before_submit_of
    submitted_lem e v =
        with_form_lem lib s t (λ f. submit_form lib s t f.input.value e) e v.form v.holds
        ∙ ap returned (ground (arith, v.passes (clear_own_timer e), v.type_passes, g))

    sent_parts :
        (f : Form) (e : Editable)
        → ((sent f e).requests ≡ suc e.requests)
          × ((sent f e).revert ≡ e.revert)
          × ((sent f e).editing ≡ e.editing)
          × ((sent f e).called ≡ sends (fields_of s f.input.value e) ∷ e.called)
    unfolding submit_url show_tooltip clear_own_timer fields_of
    sent_parts f e = ground arith

  pub succeeds_lem :
      (r : Text) (n : ℕ) (e : Editable)
      → e.requests ≡ suc n
      → step lib s t (save_succeeds r) e ≡ returned (succeed lib s r (record e { requests = n }))
  unfolding step
  succeeds_lem r n e h =
      ap
        (λ k. elim k [
          | zero ↦ returned e
          | suc j ↦ returned (succeed lib s r (record e { requests = j }))
        ])
        h

  pub fails_lem :
      (n : ℕ) (e : Editable)
      → e.requests ≡ suc n
      → step lib s t save_fails e ≡ returned (fail lib s t (record e { requests = n }))
  unfolding step
  fails_lem n e h =
      ap
        (λ k. elim k [
          | zero ↦ returned e
          | suc j ↦ returned (fail lib s t (record e { requests = j }))
        ])
        h

  -- What the server's text leaves: it is shown, the callback has it, and the edit is over.
  pub succeed_lem :
      (r : Text) (e : Editable)
      → s.data_type_html ≡ true
      → Shows (shown lib s r) (succeed lib s r e)
        × ((succeed lib s r e).requests ≡ e.requests)
        × ((succeed lib s r e).called ≡ callback_with r ∷ e.called)
  unfolding succeed show_placeholder html_of
  succeed_lem r e y = ground (arith, y)

  answer_lem :
      (r : Text) (n : ℕ) (cs : List Call) (e : Editable)
      → s.data_type_html ≡ true
      → e.requests ≡ suc n
      → e.called ≡ cs
      → let e2 = (step lib s t (save_succeeds r) e).editable in
        Shows (shown lib s r) e2 × (e2.requests ≡ n) × (e2.called ≡ callback_with r ∷ cs)
  answer_lem r n cs e y h k =
      subst
        (λ o.
          Shows (shown lib s r) o.editable
          × (o.editable.requests ≡ n)
          × (o.editable.called ≡ callback_with r ∷ cs))
        (sym (succeeds_lem r n e h))
        (let (p, q, c) = succeed_lem r (record e { requests = n }) y in
          (p, q, c ∙ ap (callback_with r ∷◌) k))

  -- In an element that is edited and holds its form, with an address for a target, the data type
  -- html, and hooks that let the submit pass: the submit of the form and the text that the server
  -- answers it with leave an element that is not edited and shows that text, or the placeholder
  -- where the text is blank; the value of the form was sent once, the callback was called once, and
  -- as many requests are open as before the submit.
  pub save_takes_answer :
      (u r : Text) (e : Editable) (v : MaySubmit e)
      → s.target ≡ url u
      → s.data_type_html ≡ true
      → let e1 = (step lib s t submitted e).editable in
        let e2 = (step lib s t (save_succeeds r) e1).editable in
        Shows (shown lib s r) e2
        × (e2.requests ≡ e.requests)
        × (e2.called ≡ callback_with r ∷ sends (fields_of s v.form.input.value e) ∷ e.called)
  save_takes_answer u r e v g y =
      let cs = sends (fields_of s v.form.input.value e) ∷ e.called in
      let (a, b, c, d) = sent_parts u g v.form e in
      subst
        (λ o.
          let e2 = (step lib s t (save_succeeds r) o.editable).editable in
          Shows (shown lib s r) e2
          × (e2.requests ≡ e.requests)
          × (e2.called ≡ callback_with r ∷ cs))
        (sym (submitted_lem u g e v)) (answer_lem r e.requests cs (sent v.form e) y a d)

  -- A failed save shows the text of before the edit again.
  fail_lem :
      (e : Editable)
      → s.onerror ≡ none
      → t.reset ≡ none
      → e.editing ≡ true
      → s.onreset e ≡ true
      → Shows (shown lib s e.revert) (fail lib s t e)
  unfolding fail reset_of
  fail_lem e n d h y = rw (n, fail) (rw (d, reset_of) (reset_element-Shows lib s e h y))

  -- In an element that is edited and holds its form, with an address for a target, the data type
  -- html, no hook for errors, the default reset, and hooks that let the submit and resets pass:
  -- after the submit of the form and either answer of the server the edit is over, and the element
  -- shows a text: that of the answer, or after an error that of before the edit; a blank one is
  -- replaced by the placeholder.
  pub answer_ends :
      (u r : Text) (e : Editable) (v : MaySubmit e)
      → s.target ≡ url u
      → s.data_type_html ≡ true
      → s.onerror ≡ none
      → t.reset ≡ none
      → ((x : Editable) → s.onreset x ≡ true)
      → let e1 = (step lib s t submitted e).editable in
        Shows (shown lib s r) (step lib s t (save_succeeds r) e1).editable
        × Shows (shown lib s e.revert) (step lib s t save_fails e1).editable
  answer_ends u r e v g y n d p =
      let e1 = sent v.form e in
      let (a, b, c, k) = sent_parts u g v.form e in
      let e2 = record e1 { requests = e.requests } in
      subst
        (λ o.
          Shows (shown lib s r) (step lib s t (save_succeeds r) o.editable).editable
          × Shows (shown lib s e.revert) (step lib s t save_fails o.editable).editable)
        (sym (submitted_lem u g e v))
        (
          (answer_lem r e.requests e1.called e1 y a refl).0,
          subst (λ o. Shows (shown lib s e.revert) o.editable) (sym (fails_lem e.requests e1 a))
              (subst (λ x. Shows (shown lib s x) (fail lib s t e2)) b
                (fail_lem e2 n d (c ∙ v.editing) (p e2))),
        )
