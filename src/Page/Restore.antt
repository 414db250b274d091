-- ===== src/Page/Restore.antt =====
-- What a page does with the cookies when it is ready.
pub mod Known
pub mod Chosen
use Prim.Native.String.{String, ◌++◌}
use nswall.Common.{Bool, true, false, Option, none, some, if◌then◌else◌}
use nswall.Common.Texts.{is_text}
use nswall.Page.State.{Sidebar, Document, CookieJar}
use nswall.Page.Sidebar.{close_sidebar, open_sidebar}
use nswall.Page.Links.{mark}

-- The values of the four cookies.
pub record Preferences : Type 0 where
  pub sidebar : Option String
  pub theme : Option String
  pub layout : Option String
  pub position : Option String

unfoldable pub preferences : {Jar : Type 0} → CookieJar Jar → Jar → Preferences
preferences c jar = record {
  sidebar = c.get "sidebar" jar;
  theme = c.get "theme" jar;
  layout = c.get "layout" jar;
  position = c.get "side_pos" jar;
}

unfoldable pub restore_sidebar : Option String → Sidebar → Sidebar
unfolding close_sidebar open_sidebar
restore_sidebar none s = s
restore_sidebar (some v) s =
    let s1 = if is_text v "closed" then close_sidebar s else s in
    if is_text v "open" then open_sidebar s1 else s1

-- The address of the style sheet of a theme, as a click makes it.
unfoldable pub theme_href : String → String
theme_href name = "css/themes/" ++ name ++ "/ui.css"

unfoldable pub restore_theme : Option String → String → String
restore_theme none href = href
restore_theme (some t) href =
    let h1 = if is_text t "black_rose" then "css/themes/black_rose/ui.css" else href in
    let h2 = if is_text t "gray_standard" then "css/themes/gray_standard/ui.css" else h1 in
    let h3 = if is_text t "gray_lightness" then "css/themes/gray_lightness/ui.css" else h2 in
    let h4 = if is_text t "blueberry" then "css/themes/blueberry/ui.css" else h3 in
    if is_text t "apple_pie" then "css/themes/apple_pie/ui.css" else h4

-- The class of the body, and whether the three parts of the page have the class `fixed`.
pub record Layout : Type 0 where
  pub body_class : String
  pub is_fixed : Bool

-- One of the tests of the layout's cookie.
unfoldable pub restore_named : String → String → String → Bool → Layout → Layout
restore_named name cookie body_class is_fixed l =
    if is_text cookie name then record { body_class = body_class; is_fixed = is_fixed } else l

unfoldable pub restore_layout : Option String → Layout → Layout
unfolding restore_named
restore_layout none l = l
restore_layout (some c) l =
    let l1 = restore_named "layout100" c "" false l in
    let l2 = restore_named "layout90" c "layout90" true l1 in
    let l3 = restore_named "layout75" c "layout75" true l2 in
    let l4 = restore_named "layout980" c "layout980" true l3 in
    let l5 = restore_named "layout1280" c "layout1280" true l4 in
    let l6 = restore_named "layout1400" c "layout1400" true l5 in
    restore_named "layout1600" c "layout1600" true l6

unfoldable pub restore_position : Option String → String → String
restore_position none id = id
restore_position (some c) id =
    let id1 = if is_text c "sidebar-left" then "sidebar-left" else id in
    if is_text c "sidebar-right" then "sidebar-right" else id1

-- The document once it is ready, where the server sent `markup`. The dialogs are made closed.
unfoldable pub ready : Document → Preferences → Document
unfolding restore_sidebar restore_theme restore_layout restore_position
ready markup p =
    let l =
      restore_layout p.layout
        (record { body_class = markup.body_class; is_fixed = markup.is_fixed }) in
    record markup {
      sidebar = restore_sidebar p.sidebar markup.sidebar;
      style_href = restore_theme p.theme markup.style_href;
      theme_links = mark p.theme markup.theme_links;
      body_class = l.body_class;
      is_fixed = l.is_fixed;
      layout_links = mark p.layout markup.layout_links;
      body_id = restore_position p.position markup.body_id;
      position_links = mark p.position markup.position_links;
      dialog_open = false;
      confirmation_open = false;
    }
