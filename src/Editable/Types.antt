-- ===== src/Editable/Types.antt =====
-- The types of inputs: the table `$.editable.types`, and the functions of its four entries.
use Prim.Native.String.{String}
use nswall.Common.{
  ℕ, zero, suc, Bool, true, false, ◌||◌, ◌&&◌, not, Option, none, some, List, [], ◌∷◌, ◌++◌,
  if◌then◌else◌,
}
use nswall.Common.Texts.{Text, text_eq, is_text}
use nswall.Common.Result.{Result, ok, type_error}
use nswall.Editable.State.{
  Size, auto_size, no_size, pixels, Kind, hidden, text_input, textarea, select_input, Choice, Field,
  Button, text_button, html_button, Form, Editable,
}
use nswall.Editable.Settings.{Payload, plain, properties, Library, Settings}

-- An entry of the table; what it lacks is taken from the entry `defaults`, or does nothing.
pub record InputType : Type 0 where
  pub plugin : Option (Form → Form)
  pub before_submit : Option (Editable → Bool)
  pub buttons : Option (Settings → Form → Form)
  pub fill : Option (Library → Settings → Editable → Option Payload → Field → Result Field)
  pub element : Option (Settings → Editable → Field)
  pub reset : Option (Editable → Editable)

abbrev pub plain_field : Kind → Field
plain_field k = record {
  kind = k;
  name = none;
  width = none;
  height = none;
  rows = none;
  cols = none;
  value = [];
  choices = [];
}

abbrev pub unless_none : Size → Option Size
unless_none no_size = none
unless_none (pixels n) = some (pixels n)
unless_none auto_size = some auto_size

-- A number that is there and not 0.
abbrev pub truthy : Option ℕ → Option ℕ
truthy none = none
truthy (some zero) = none
truthy (some (suc n)) = some (suc n)

unfoldable pub default_element : Settings → Editable → Field
default_element s e = plain_field hidden

unfoldable pub text_element : Settings → Editable → Field
text_element s e = record (plain_field text_input) {
  width = unless_none e.width;
  height = unless_none e.height;
}

unfoldable pub textarea_element : Settings → Editable → Field
textarea_element s e = record (plain_field textarea) {
  rows = truthy s.rows;
  height = elim (truthy s.rows) [ none ↦ unless_none e.height | some n ↦ none ];
  cols = truthy s.cols;
  width = elim (truthy s.cols) [ none ↦ unless_none e.width | some n ↦ none ];
}

unfoldable pub select_element : Settings → Editable → Field
select_element s e = plain_field select_input

-- The value of the first input of the form; `val(undefined)` reads it, and changes nothing.
unfoldable pub default_fill : Library → Settings → Editable → Option Payload → Field → Result Field
default_fill lib s e none f = ok f
default_fill lib s e (some (plain t)) f = ok (record f { value = t })
default_fill lib s e (some (properties ps)) f = ok (record f { value = lib.object_text })

abbrev pub selected_key : Text
selected_key = b's' ∷ b'e' ∷ b'l' ∷ b'e' ∷ b'c' ∷ b't' ∷ b'e' ∷ b'd' ∷ []

-- The options that the loop over the properties appends.
unfoldable pub choices_of : List (Text × Text) → List Choice
choices_of [] = []
choices_of ((k, v) ∷ ps) =
    let rest = choices_of ps in
    if text_eq selected_key k
    then rest
    else record { key = k; label = v; is_selected = false } ∷ rest

-- `json['selected']`; of two properties with one name an object has the last one.
unfoldable pub selected_of : List (Text × Text) → Option Text
selected_of [] = none
selected_of ((k, v) ∷ ps) = elim (selected_of ps) [
  | none ↦ if text_eq selected_key k then some v else none
  | some w ↦ some w
]

abbrev pub is_value : Option Text → Text → Bool
is_value none t = false
is_value (some s) t = text_eq t s

-- The test of the second loop, for one option.
unfoldable pub is_chosen : Option Text → Text → Choice → Bool
is_chosen wanted revert c = is_value wanted c.key || text_eq c.label revert

unfoldable pub any_choice : (Choice → Bool) → List Choice → Bool
any_choice p [] = false
any_choice p (c ∷ cs) = p c || any_choice p cs

-- The second loop: an input has one selected option, the last one that is selected.
unfoldable pub select_choices : Option Text → Text → List Choice → List Choice
unfolding is_chosen any_choice
select_choices wanted revert [] = []
select_choices wanted revert (c ∷ cs) =
    record c {
      is_selected = is_chosen wanted revert c && not (any_choice (is_chosen wanted revert) cs);
    }
    ∷ select_choices wanted revert cs

-- Where no option was selected, the browser selects the first.
unfoldable pub select_default : List Choice → List Choice
unfolding any_choice
select_default [] = []
select_default (c ∷ cs) =
    if any_choice (λ d. d.is_selected) (c ∷ cs)
    then c ∷ cs
    else record c { is_selected = true } ∷ cs

-- What `val()` reads of the input: the value of the option that is selected.
unfoldable pub selected_value : List Choice → Text
selected_value [] = []
selected_value (c ∷ cs) = let rest = selected_value cs in if c.is_selected then c.key else rest

unfoldable pub select_properties : Library → Editable → List (Text × Text) → Field → Field
unfolding choices_of selected_of is_chosen any_choice select_choices select_default selected_value
select_properties lib e ps f =
    let revert = lib.trim e.revert in
    let wanted = selected_of ps in
    let all = f.choices ++ choices_of ps in
    let chosen =
      if any_choice (is_chosen wanted revert) all
      then select_choices wanted revert all
      else select_default all in
    record f { choices = chosen; value = selected_value chosen }

-- `data.constructor` of `undefined` throws, and so does a text that is no JSON.
unfoldable pub select_fill : Library → Settings → Editable → Option Payload → Field → Result Field
unfolding select_properties
select_fill lib s e none f = type_error
select_fill lib s e (some (plain t)) f = elim (lib.parse_json t) [
  | none ↦ type_error
  | some ps ↦ ok (select_properties lib e ps f)
]
select_fill lib s e (some (properties ps)) f = ok (select_properties lib e ps f)

-- `match(/>$/)`
unfoldable pub ends_with_gt : Text → Bool
ends_with_gt [] = false
ends_with_gt (c ∷ []) = text_eq (c ∷ []) (b'>' ∷ [])
ends_with_gt (c ∷ d ∷ t) = ends_with_gt (d ∷ t)

unfoldable pub button : Option Text → Option Button
unfolding ends_with_gt
button none = none
button (some []) = none
button (some (c ∷ t)) =
    some (if ends_with_gt (c ∷ t) then html_button (c ∷ t) else text_button (c ∷ t))

unfoldable pub default_buttons : Settings → Form → Form
unfolding button
default_buttons s f = record f {
  submit_button = button s.submit_label;
  cancel_button = button s.cancel_label;
}

abbrev pub bare_type : InputType
bare_type = record {
  plugin = none;
  before_submit = none;
  buttons = none;
  fill = none;
  element = none;
  reset = none;
}

abbrev pub Table : Type 0
Table = List (String × InputType)

-- The table that the program declares; the entry `defaults` is what the others lack.
abbrev pub builtin_types : Table
builtin_types =
    ("defaults", bare_type)
    ∷ ("text", record bare_type { element = some text_element })
    ∷ ("textarea", record bare_type { element = some textarea_element })
    ∷ ("select", record bare_type { element = some select_element; fill = some select_fill })
    ∷ []

unfoldable pub add_input_type : String → InputType → Table → Table
add_input_type name input types = (name, input) ∷ types

-- `$.editable.types[name]`
unfoldable pub find_type : String → Table → Option InputType
find_type name [] = none
find_type name ((other, t) ∷ types) = if is_text name other then some t else find_type name types

-- The functions of a type, with the defaults filled in.
unfoldable pub element_of : InputType → Settings → Editable → Field
element_of t = elim t.element [ none ↦ default_element | some f ↦ f ]

unfoldable pub fill_of :
    InputType → Library → Settings → Editable → Option Payload → Field → Result Field
fill_of t = elim t.fill [ none ↦ default_fill | some f ↦ f ]

unfoldable pub buttons_of : InputType → Settings → Form → Form
buttons_of t = elim t.buttons [ none ↦ default_buttons | some f ↦ f ]

unfoldable pub plugin_of : InputType → Form → Form
plugin_of t f = elim t.plugin [ none ↦ f | some p ↦ p f ]

unfoldable pub before_submit_of : InputType → Editable → Bool
before_submit_of t e = elim t.before_submit [ none ↦ true | some p ↦ p e ]
