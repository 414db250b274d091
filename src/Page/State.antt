-- ===== src/Page/State.antt =====
-- The part of the document that custom.js and sidebar_position.js write, and the cookies.
use Prim.Native.String.{String}
use nswall.Common.{◌≡◌, ℕ, Bool, false, Option, some, List}
use nswall.Common.Texts.{is_text}

-- A link of one of the switches: its id, and whether it has the class `active`.
pub record Link : Type 0 where
  pub id : String
  pub active : Bool

-- The classes of the sidebar and of the content, and which of the buttons are shown; `boxes_shown`
-- is that of the elements with the class `hide_sidebar`.
pub record Sidebar : Type 0 where
  pub is_closed : Bool
  pub is_wide : Bool
  pub open_shown : Bool
  pub close_shown : Bool
  pub boxes_shown : Bool
  pub close_active : Bool

-- A portlet: whether its icon has the class `ui-icon-circle-arrow-n`, and its content is shown.
pub record Portlet : Type 0 where
  pub arrow_n : Bool
  pub content_shown : Bool

-- `switchers` are the elements that a change of the theme appends, the first one first: whether each
-- is shown. `style_href` is that of the link to the style sheet.
pub record Document : Type 0 where
  pub sidebar : Sidebar
  pub style_href : String
  pub switchers : List Bool
  pub theme_links : List Link
  pub body_class : String
  pub is_fixed : Bool
  pub layout_links : List Link
  pub body_id : String
  pub position_links : List Link
  pub portlets : List Portlet
  pub dialog_open : Bool
  pub confirmation_open : Bool

-- `jQuery.browser`
pub record Browser : Type 0 where
  pub safari : Bool
  pub msie : Bool

-- What `jQuery.cookie` does: a cookie that is set has the value that it was set to, and setting it
-- leaves the cookies of other names alone.
pub record CookieJar (Jar : Type 0) : Type 0 where
  pub get : String → Jar → Option String
  pub put : String → String → Jar → Jar
  pub get-put : (name value : String) (jar : Jar) → get name (put name value jar) ≡ some value
  pub get-put_other :
      (name other value : String) (jar : Jar)
      → is_text name other ≡ false
      → get name (put other value jar) ≡ get name jar

-- A page: its document, the cookies, the timers, and whether it has asked for a reload. Timers of
-- the same delay fire in the order in which they were set.
pub record Page (Jar : Type 0) : Type 0 where
  pub document : Document
  pub cookies : Jar
  pub hide_timers : ℕ
  pub style_timers : List String  -- the names of themes
  pub reload_asked : Bool
