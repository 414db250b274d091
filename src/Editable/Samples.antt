-- ===== src/Editable/Samples.antt =====
-- An element, its settings and its types, at which the theorems on the editing in place are tried.
use nswall.Common.{refl, true, false, none, some, [], ◌∷◌, ◌==◌, if◌then◌else◌}
use nswall.Common.Texts.{Text}
use nswall.Editable.State.{auto_size, Form, html, in_form, Editable, text_input}
use nswall.Editable.Settings.{Library, url, cancel, no_css, Settings}
use nswall.Editable.Types.{
  InputType, bare_type, plain_field, text_element, select_element, select_fill,
}
use nswall.Editable.Begin.{Measured}

-- Leading spaces only are trimmed here, and no text is JSON.
abbrev pub trim : Text → Text
trim [] = []
trim (c ∷ t) = let rest = trim t in if c == b' ' then rest else c ∷ t

abbrev pub library : Library
library = record {
  trim = trim;
  lower = λ t. t;
  serialize = λ f. [];
  object_text = [];
  parse_json = λ t. none;
  trim_nil = refl;
}

abbrev pub settings : Settings
settings = record {
  target = url (b'u' ∷ []);
  put_method = true;
  input_type = "text";
  name = "value";
  id = "id";
  width = auto_size;
  height = auto_size;
  rows = none;
  cols = none;
  load_url = false;
  load_text = b'.' ∷ [];
  load_data = λ t. [];
  content_data = none;
  indicator = none;
  tooltip = none;
  placeholder = b'?' ∷ [];
  submit_label = some (b'o' ∷ b'k' ∷ []);
  cancel_label = none;
  css_class = no_css;
  style = no_css;
  on_blur = cancel;
  data_type_html = true;
  onedit = λ e. true;
  onsubmit = λ e. true;
  onreset = λ e. true;
  onerror = none;
  submit_data = λ t. [];
}

abbrev pub text_type : InputType
text_type = record bare_type { element = some text_element }

abbrev pub select_type : InputType
select_type = record bare_type { element = some select_element; fill = some select_fill }

abbrev pub resting : Editable
resting = record {
  element_id = b'e' ∷ [];
  class_attr = none;
  style_attr = none;
  display = [];
  is_bound = true;
  is_disabled = false;
  title = none;
  content = html (b'a' ∷ b'b' ∷ []);
  editing = false;
  revert = [];
  width = auto_size;
  height = auto_size;
  saved_width = 40;
  saved_height = 10;
  sessions = 0;
  timer = none;
  timers = [];
  next_timer = 1;
  requests = 0;
  called = [];
}

abbrev pub form : Form
form = record {
  session = 1;
  css_class = none;
  style = none;
  display = none;
  input = record (plain_field text_input) { value = b'c' ∷ [] };
  submit_button = none;
  cancel_button = none;
}

-- An edit of the text `ab`, in which `c` was typed.
abbrev pub edited : Editable
edited = record resting {
  content = in_form form;
  editing = true;
  revert = b'a' ∷ b'b' ∷ [];
  sessions = 1;
}

abbrev pub measured : Measured
measured = record { width = 40; height = 10 }
