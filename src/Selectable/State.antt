-- ===== src/Selectable/State.antt =====
-- The state of the lasso: its options, its elements with their classes and their data, and the mouse.
use nswall.Common.{Bool, Option, List}
use nswall.Common.Int.{ℤ}

pub data Tolerance : Type 0 where
  touch fit other : Tolerance

pub record Options : Type 0 where
  pub disabled : Bool
  pub auto_refresh : Bool
  pub tolerance : Tolerance

-- Pixels are integers here. Where the page shows an element, and the lasso between two corners.
pub record Box : Type 0 where
  pub left : ℤ
  pub top : ℤ
  pub right : ℤ
  pub bottom : ℤ

-- The data `selectable-item` of an element.
pub record Item : Type 0 where
  pub box : Box
  pub startselected : Bool
  pub selected : Bool
  pub selecting : Bool
  pub unselecting : Bool

-- A callback of the options that is called for an element.
pub data Callback : Type 0 where
  on_selecting on_unselecting on_selected on_unselected : Callback

-- An element that the filter finds: whether it is the widget's own, its three classes, its data if
-- there is some, and the calls of callbacks for it, the last one first.
pub record Selectee : Type 0 where
  pub is_widget : Bool
  pub shown : Box
  pub ui_selected : Bool
  pub ui_selecting : Bool
  pub ui_unselecting : Bool
  pub item : Option Item
  pub called : List Callback

pub record Mouse : Type 0 where
  pub page_x : ℤ
  pub page_y : ℤ
  pub client_x : ℤ
  pub client_y : ℤ
  pub meta_key : Bool

-- `helper` is the box of the lasso while it is in the document.
pub record Selectable : Type 0 where
  pub options : Options
  pub opos_x : ℤ
  pub opos_y : ℤ
  pub dragged : Bool
  pub helper : Option Box
  pub selectees : List Selectee
