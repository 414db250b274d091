-- ===== src/Editable/Settings.antt =====
-- The settings of an element, and what the code uses of the browser and of jQuery.
use Prim.Native.String.{String}
use nswall.Common.{ℕ, ◌≡◌, Bool, Option, List, []}
use nswall.Common.Texts.{Text}
use nswall.Editable.State.{Size, Form, Editable}

-- What is put into an input: a text, or the properties of an object, in their order.
pub data Payload : Type 0 where
  plain : Text → Payload
  properties : List (Text × Text) → Payload

-- `$.trim`, `toLowerCase`, what `innerHTML` is of an element that holds a form, the text of an object,
-- and `eval` of `var json = ...` (`none` where it throws). Trimming nothing leaves nothing.
pub record Library : Type 0 where
  pub trim : Text → Text
  pub lower : Text → Text
  pub serialize : Form → Text
  pub object_text : Text
  pub parse_json : Text → Option (List (Text × Text))
  pub trim_nil : trim [] ≡ []

pub data Target : Type 0 where
  url : Text → Target
  function : (Text → Text) → Target

pub data OnBlur : Type 0 where
  cancel submit ignore call : OnBlur

pub data Css : Type 0 where
  no_css inherit : Css
  given : Text → Css

-- A hook is a function of the element as it is then; a hook that the settings lack returns `true`.
-- `load_data` and `submit_data` are functions of `self.revert`, constant where they are objects.
pub record Settings : Type 0 where
  pub target : Target
  pub put_method : Bool
  pub input_type : String
  pub name : String
  pub id : String
  pub width : Size
  pub height : Size
  pub rows : Option ℕ
  pub cols : Option ℕ
  pub load_url : Bool
  pub load_text : Text
  pub load_data : Text → List (String × Text)
  pub content_data : Option (Text → Payload)
  pub indicator : Option Text
  pub tooltip : Option Text
  pub placeholder : Text
  pub submit_label : Option Text
  pub cancel_label : Option Text
  pub css_class : Css
  pub style : Css
  pub on_blur : OnBlur
  pub data_type_html : Bool
  pub onedit : Editable → Bool
  pub onsubmit : Editable → Bool
  pub onreset : Editable → Bool
  pub onerror : Option (Editable → Editable)
  pub submit_data : Text → List (String × Text)
