-- ===== src/Editable/Finish.antt =====
-- How an edit ends: the reset, the submit, and the answers of the server.
use Prim.Native.String.{String}
use nswall.Common.{ℕ, suc, false, not, ◌==◌, none, some, List, [], ◌∷◌, if◌then◌else◌}
use nswall.Common.Texts.{Text, text_eq, is_given}
use nswall.Editable.State.{html, Timer, sends, callback_with, Editable}
use nswall.Editable.Settings.{Library, url, function, Settings}
use nswall.Editable.Types.{InputType, before_submit_of}
use nswall.Editable.Begin.{html_of, extend, put_property}

-- `if (!$.trim($(self).html()))`: a blank element shows the placeholder.
unfoldable pub show_placeholder : Library → Settings → Editable → Editable
unfolding html_of
show_placeholder lib s e =
    if text_eq (lib.trim (html_of lib e)) [] then record e { content = html s.placeholder } else e

-- `attr('title', tooltip)`, which reads the title where the tooltip is `undefined`.
unfoldable pub show_tooltip : Settings → Editable → Editable
show_tooltip s e = elim s.tooltip [ none ↦ e | some t ↦ record e { title = some t } ]

-- The element's method `reset`.
unfoldable pub reset_element : Library → Settings → Editable → Editable
unfolding show_placeholder show_tooltip
reset_element lib s e =
    if not e.editing
    then e
    else if not (s.onreset e)
    then e
    else (let e1 = show_placeholder lib s (record e { content = html e.revert; editing = false }) in
        if is_given s.tooltip then show_tooltip s e1 else e1)

-- `reset` of the input's type, which is the element's own if the type has none.
unfoldable pub reset_of : Library → Settings → InputType → Editable → Editable
unfolding reset_element
reset_of lib s t e = elim t.reset [ none ↦ reset_element lib s e | some f ↦ f e ]

unfoldable pub clear_timer : ℕ → List Timer → List Timer
clear_timer id [] = []
clear_timer id (t ∷ ts) = let rest = clear_timer id ts in if t.id == id then rest else t ∷ rest

-- `if (t) { clearTimeout(t); }`
unfoldable pub clear_own_timer : Editable → Editable
unfolding clear_timer
clear_own_timer e = elim e.timer [
  | none ↦ e
  | some id ↦ record e { timers = clear_timer id e.timers }
]

-- The submit where the target is a function.
unfoldable pub submit_function : Library → Settings → (Text → Text) → Text → Editable → Editable
unfolding show_placeholder
submit_function lib s f value e = show_placeholder lib s (record e {
  content = html (f value);
  editing = false;
  called = callback_with (f value) ∷ e.called;
})

-- What is sent, with `_method` for a PUT.
unfoldable pub fields_of : Settings → Text → Editable → List (String × Text)
unfolding extend put_property
fields_of s value e =
    let fields =
      extend (put_property s.id e.element_id ((s.name, value) ∷ [])) (s.submit_data e.revert) in
    if s.put_method then put_property "_method" (b'p' ∷ b'u' ∷ b't' ∷ []) fields else fields

-- The submit where the target is an address. `html(undefined)` reads the content, and changes nothing.
unfoldable pub submit_url : Settings → Text → Editable → Editable
unfolding fields_of
submit_url s value e = record e {
  content = elim s.indicator [ none ↦ e.content | some t ↦ html t ];
  requests = suc e.requests;
  called = sends (fields_of s value e) ∷ e.called;
}

-- The submit itself.
unfoldable pub send : Library → Settings → Text → Editable → Editable
unfolding submit_function submit_url
send lib s value e = elim s.target [
  | url u ↦ submit_url s value e
  | function f ↦ submit_function lib s f value e
]

-- The handler of the form's submit, for the value of its input.
unfoldable pub submit_form : Library → Settings → InputType → Text → Editable → Editable
unfolding clear_own_timer send show_tooltip
submit_form lib s t value e =
    let e1 = clear_own_timer e in
    show_tooltip s (
      if not (s.onsubmit e1)
      then e1
      else if not (before_submit_of t e1)
      then e1
      else send lib s value e1)

-- The server's answer to a save: its text, or an error.
unfoldable pub succeed : Library → Settings → Text → Editable → Editable
unfolding show_placeholder
succeed lib s result e = show_placeholder lib s (record e {
  content = if s.data_type_html then html result else e.content;
  editing = false;
  called = callback_with result ∷ e.called;
})

unfoldable pub fail : Library → Settings → InputType → Editable → Editable
unfolding reset_of
fail lib s t e = elim s.onerror [ none ↦ reset_of lib s t e | some f ↦ f e ]
