-- ===== src/Editable/Sound.antt =====
-- A form stands in the element only while it is edited: what the parts of the handlers keep.
use nswall.Common.Result.{Result, ok, type_error}
use nswall.Common.{◌≡◌, refl, sym, ◌∙◌, true, false, not, Option, none, arith, if◌then◌else◌}
use nswall.Common.Texts.{Text}
use nswall.Editable.State.{Field, Form, html, in_form, Editable}
use nswall.Editable.Settings.{Library, Settings}
use nswall.Editable.Types.{
  InputType, fill_of, element_of, buttons_of, plugin_of, default_buttons, before_submit_of,
}
use nswall.Editable.Begin.{
  Measured, edit, measure, take_text, open_form, bare_form, request_content, finished_form,
  ask_content, content_of,
}
use nswall.Editable.Finish.{
  show_placeholder, show_tooltip, reset_element, reset_of, send, clear_own_timer, submit_function,
  submit_url, submit_form, succeed, fail,
}

-- A form stands in the element only while it is edited, and is that of its last edit.
abbrev pub IsSound : Editable → Type 0
IsSound e = elim e.content [
  | html t ↦ Unit {0}
  | in_form f ↦ (e.editing ≡ true) × (f.session ≡ e.sessions)
]

-- A type that leaves the buttons, the reset and the form as a whole to the defaults.
pub record IsPlain (t : InputType) : Type 0 where
  pub no_plugin : t.plugin ≡ none
  pub no_buttons : t.buttons ≡ none
  pub no_reset : t.reset ≡ none

module _ (lib : Library) (s : Settings) (t : InputType) (v : IsPlain t) where
  pub show_placeholder-IsSound : (e : Editable) → IsSound e → IsSound (show_placeholder lib s e)
  unfolding show_placeholder
  show_placeholder-IsSound e h = ground (arith, h)

  pub show_tooltip-IsSound : (e : Editable) → IsSound e → IsSound (show_tooltip s e)
  unfolding show_tooltip
  show_tooltip-IsSound e h = ground (arith, h)

  pub reset_element-IsSound : (e : Editable) → IsSound e → IsSound (reset_element lib s e)
  unfolding reset_element
  reset_element-IsSound e h =
      let e1 = show_placeholder lib s (record e { content = html e.revert; editing = false }) in
      let h1 : IsSound e1 =
        show_placeholder-IsSound (record e { content = html e.revert; editing = false }) tt in
      ground (arith, h, h1, show_tooltip-IsSound e1 h1)

  pub reset_of-IsSound : (e : Editable) → IsSound e → IsSound (reset_of lib s t e)
  unfolding reset_of
  reset_of-IsSound e h = rw (v.no_reset, reset_of) (reset_element-IsSound e h)

  pub clear_own_timer-IsSound : (e : Editable) → IsSound e → IsSound (clear_own_timer e)
  unfolding clear_own_timer
  clear_own_timer-IsSound e h = ground (arith, h)

  pub send-IsSound : (value : Text) (e : Editable) → IsSound e → IsSound (send lib s value e)
  unfolding send submit_function submit_url show_placeholder
  send-IsSound value e h = ground (arith, h)

  pub submit_form-IsSound :
      (value : Text) (e : Editable) → IsSound e → IsSound (submit_form lib s t value e)
  unfolding submit_form
  submit_form-IsSound value e h =
      let e1 = clear_own_timer e in
      let h1 : IsSound e1 = clear_own_timer-IsSound e h in
      let e2 =
        if not (s.onsubmit e1)
        then e1
        else if not (before_submit_of t e1)
        then e1
        else send lib s value e1 in
      let h2 : IsSound e2 = ground (arith, h1, send-IsSound value e1 h1) in
      show_tooltip-IsSound e2 h2

  pub succeed-IsSound :
      s.data_type_html ≡ true → (r : Text) (e : Editable) → IsSound (succeed lib s r e)
  unfolding succeed show_placeholder
  succeed-IsSound y r e = ground arith

  pub fail-IsSound : s.onerror ≡ none → (e : Editable) → IsSound e → IsSound (fail lib s t e)
  unfolding fail
  fail-IsSound n e h = rw (n, fail) (reset_of-IsSound e h)

  finished_form-session :
      (form : Form) (input : Field) → (finished_form s t form input).session ≡ form.session
  unfolding finished_form buttons_of plugin_of default_buttons
  finished_form-session form input = ground (arith, v.no_plugin, v.no_buttons)

  pub ask_content_lem :
      (a : Option Text) (e : Editable)
      → ((ask_content s a e).editing ≡ e.editing)
        × ((ask_content s a e).sessions ≡ e.sessions)
        × ((ask_content s a e).content ≡ e.content)
  unfolding ask_content request_content
  ask_content_lem a e = ground arith

  pub ask_content-IsSound :
      (a : Option Text) (e : Editable) → IsSound e → IsSound (ask_content s a e)
  unfolding ask_content request_content
  ask_content-IsSound a e h = ground (arith, h)

  pub open_form-IsSound :
      (a : Option Text) (e : Editable)
      → e.editing ≡ true
      → IsSound e
      → IsSound (open_form lib s t a e).editable
  unfolding open_form bare_form
  open_form-IsSound a e y h = on (fill_of t lib s e1 (content_of s a e1) form.input) refl
    where
      e1 : Editable
      e1 = ask_content s a e

      form : Form
      form = bare_form s e (element_of t s e)

      same : (e1.editing ≡ e.editing) × (e1.sessions ≡ e.sessions) × (e1.content ≡ e.content)
      same = ask_content_lem a e

      on :
          (r : Result Field)
          → fill_of t lib s e1 (content_of s a e1) form.input ≡ r
          → IsSound (open_form lib s t a e).editable
      on type_error r = rw (r, open_form) (ask_content-IsSound a e h)
      on (ok input) r =
          rw (r, open_form) (same.0 ∙ y, finished_form-session form input ∙ sym same.1)

  pub edit-IsSound :
      (m : Measured) (a : Option Text) (e : Editable)
      → IsSound e
      → IsSound (edit lib s t m a e).editable
  unfolding edit
  edit-IsSound m a e h =
      ground (arith, h, open_form-IsSound a (take_text lib s (measure s m e)) refl tt)
