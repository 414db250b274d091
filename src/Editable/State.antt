-- ===== src/Editable/State.antt =====
-- One element that can be edited in place, and the form that it holds while it is.
use Prim.Native.String.{String}
use nswall.Common.{ℕ, Bool, Option, List}
use nswall.Common.Texts.{Text}

-- A size setting: 'auto', 'none', or a number of pixels.
pub data Size : Type 0 where
  auto_size no_size : Size
  pixels : ℕ → Size

pub data Kind : Type 0 where
  hidden text_input textarea select_input : Kind

-- An option of a select.
pub record Choice : Type 0 where
  pub key : Text
  pub label : Text
  pub is_selected : Bool

-- The input of a form.
pub record Field : Type 0 where
  pub kind : Kind
  pub name : Option String
  pub width : Option Size
  pub height : Option Size
  pub rows : Option ℕ
  pub cols : Option ℕ
  pub value : Text
  pub choices : List Choice

pub data Button : Type 0 where
  text_button html_button : Text → Button

pub record Form : Type 0 where
  pub session : ℕ
  pub css_class : Option Text
  pub style : Option Text
  pub display : Option Text
  pub input : Field
  pub submit_button : Option Button
  pub cancel_button : Option Button

-- What the element holds: a text, or the form.
pub data Content : Type 0 where
  html : Text → Content
  in_form : Form → Content

pub data TimerKind : Type 0 where
  loading resetting submitting : TimerKind

-- A timer that `setTimeout` set in an edit of the given number.
pub record Timer : Type 0 where
  pub id : ℕ
  pub session : ℕ
  pub kind : TimerKind

-- A call of a function that the program is given, or a request to the server, with what it is sent.
pub data Call : Type 0 where
  loads sends : List (String × Text) → Call
  callback_with blurred_with : Text → Call

-- The element with its data, the variables of its handler, and what is under way. `width` and `height`
-- are those of the settings, which the handler changes; `timer` is the variable `t` of the last edit;
-- `requests` counts the saves that the server has not answered.
pub record Editable : Type 0 where
  pub element_id : Text
  pub class_attr : Option Text
  pub style_attr : Option Text
  pub display : Text
  pub is_bound : Bool
  pub is_disabled : Bool
  pub title : Option Text
  pub content : Content
  pub editing : Bool
  pub revert : Text
  pub width : Size
  pub height : Size
  pub saved_width : ℕ
  pub saved_height : ℕ
  pub sessions : ℕ
  pub timer : Option ℕ
  pub timers : List Timer
  pub next_timer : ℕ
  pub requests : ℕ
  pub called : List Call
