-- ===== src/Editable/Begin.antt =====
-- The handler of the event that starts an edit. What it does before the form is there, the form, and
-- what the form is filled with.
use Prim.Native.String.{String}
use nswall.Common.{
  ℕ, suc, Bool, true, false, not, ◌==◌, ◌||◌, Option, none, some, List, [], ◌∷◌, ◌++◌,
  if◌then◌else◌,
}
use nswall.Common.Texts.{Text, text_eq, is_text, is_given}
use nswall.Common.Result.{ok, type_error}
use nswall.Editable.State.{
  Size, no_size, pixels, auto_size, Field, Form, html, in_form, loading, loads, Editable,
}
use nswall.Editable.Settings.{Payload, plain, Library, Css, no_css, inherit, given, Settings}
use nswall.Editable.Types.{InputType, element_of, fill_of, buttons_of, plugin_of}

-- A run of a handler: the element as it is left, and whether the handler threw.
pub record Outcome : Type 0 where
  pub editable : Editable
  pub threw : Bool

abbrev pub returned : Editable → Outcome
returned e = record { editable = e; threw = false }

abbrev pub thrown : Editable → Outcome
thrown e = record { editable = e; threw = true }

-- `replace(/(;|")/g, '')`
unfoldable pub without_marks : Text → Text
without_marks [] = []
without_marks (c ∷ t) =
    let rest = without_marks t in if c == b';' || c == b'"' then rest else c ∷ rest

-- `$(self).html()`
unfoldable pub html_of : Library → Editable → Text
html_of lib e = elim e.content [ html t ↦ t | in_form f ↦ lib.serialize f ]

unfoldable pub is_placeholder : Library → Settings → Text → Bool
unfolding without_marks
is_placeholder lib s t =
    text_eq (without_marks (lib.lower t)) (without_marks (lib.lower s.placeholder))

-- The size of a setting after the handler, where the element measures `now` and `saved` at first;
-- `zero_width` says that it has no width.
unfoldable pub new_size : Bool → Bool → ℕ → ℕ → Size → Size
new_size zero_width auto now saved no_size = if zero_width then pixels saved else no_size
new_size zero_width auto now saved old =
    if zero_width then pixels saved else if auto then pixels now else old

-- `settings.autowidth` and `settings.autoheight`
abbrev pub is_auto : Size → Bool
is_auto auto_size = true
is_auto _ = false

-- What the element measures when the event comes.
pub record Measured : Type 0 where
  pub width : ℕ
  pub height : ℕ

unfoldable pub measure : Settings → Measured → Editable → Editable
unfolding new_size
measure s m e = record e {
  title = if is_given s.tooltip then none else e.title;
  width = new_size (m.width == 0) (is_auto s.width) m.width e.saved_width e.width;
  height = new_size (m.width == 0) (is_auto s.height) m.height e.saved_height e.height;
}

-- The text goes to `revert`, less a placeholder, and the element is empty. The number of the edit is
-- that of the edits before it; its variable `t` is `undefined`.
unfoldable pub take_text : Library → Settings → Editable → Editable
unfolding html_of is_placeholder
take_text lib s e = record e {
  editing = true;
  revert = if is_placeholder lib s (html_of lib e) then [] else html_of lib e;
  content = html [];
  sessions = suc e.sessions;
  timer = none;
}

unfoldable pub css : Css → Option Text → Option Text
css no_css own = none
css inherit own = own
css (given t) own = some t

unfoldable pub displayed : Css → Text → Option Text
displayed inherit d = some d
displayed _ d = none

unfoldable pub bare_form : Settings → Editable → Field → Form
unfolding css displayed
bare_form s e input = record {
  session = e.sessions;
  css_class = css s.css_class e.class_attr;
  style = css s.style e.style_attr;
  display = displayed s.style e.display;
  input = input;
  submit_button = none;
  cancel_button = none;
}

-- `$.extend` of two objects: the properties of the second one replace those of the first.
unfoldable pub put_property : String → Text → List (String × Text) → List (String × Text)
put_property name v [] = (name, v) ∷ []
put_property name v ((other, w) ∷ ps) =
    let rest = put_property name v ps in
    if is_text name other then (other, v) ∷ ps else (other, w) ∷ rest

unfoldable pub extend : List (String × Text) → List (String × Text) → List (String × Text)
unfolding put_property
extend ps [] = ps
extend ps ((name, v) ∷ qs) = extend (put_property name v ps) qs

-- The request for the content: its timer is cleared if the server answers (`some`), and left if it
-- does not.
unfoldable pub request_content : Settings → Option Text → Editable → Editable
unfolding extend
request_content s answer e = record e {
  timer = some e.next_timer;
  next_timer = suc e.next_timer;
  timers = elim answer [
    | none ↦ e.timers ++ record { id = e.next_timer; session = e.sessions; kind = loading } ∷ []
    | some r ↦ e.timers
  ];
  called = loads (extend ((s.id, e.element_id) ∷ []) (s.load_data e.revert)) ∷ e.called;
}

-- What the input is filled with.
unfoldable pub content_of : Settings → Option Text → Editable → Option Payload
content_of s answer e =
    if s.load_url
    then elim answer [ none ↦ none | some r ↦ some (plain r) ]
    else elim s.content_data [ none ↦ some (plain e.revert) | some f ↦ some (f e.revert) ]

unfoldable pub finished_form : Settings → InputType → Form → Field → Form
finished_form s t form input =
    plugin_of t (buttons_of t s (record form { input = record input { name = some s.name } }))

-- The request is made only if the settings have an address for it.
unfoldable pub ask_content : Settings → Option Text → Editable → Editable
unfolding request_content
ask_content s answer e = if s.load_url then request_content s answer e else e

-- The handler from the form on.
unfoldable pub open_form : Library → Settings → InputType → Option Text → Editable → Outcome
unfolding bare_form ask_content content_of finished_form
open_form lib s t answer e =
    let form = bare_form s e (element_of t s e) in
    let e1 = ask_content s answer e in
    elim (fill_of t lib s e1 (content_of s answer e1) form.input) [
      | type_error ↦ thrown e1
      | ok input ↦ returned (record e1 { content = in_form (finished_form s t form input) })
    ]

-- The whole handler.
unfoldable pub edit : Library → Settings → InputType → Measured → Option Text → Editable → Outcome
unfolding measure take_text open_form
edit lib s t m answer e =
    if not e.is_bound
    then returned e
    else if e.is_disabled
    then returned e
    else if e.editing
    then returned e
    else if not (s.onedit e)
    then returned e
    else open_form lib s t answer (take_text lib s (measure s m e))
