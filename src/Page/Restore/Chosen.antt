-- ===== src/Page/Restore/Chosen.antt =====
-- Setting one of the four cookies leaves the other three.
use Prim.Native.String.{String}
use nswall.Common.{◌≡◌, refl, some}
use nswall.Page.State.{CookieJar}
use nswall.Page.Restore.{preferences}

module _ {Jar : Type 0} (cookie : CookieJar Jar) where
  pub theme_chosen :
      (s : String) (jar : Jar)
      → preferences cookie (cookie.put "theme" s jar)
        ≡ record (preferences cookie jar) { theme = some s }
  unfolding preferences
  theme_chosen s jar i = record {
    sidebar = cookie.get-put_other "sidebar" "theme" s jar refl i;
    theme = cookie.get-put "theme" s jar i;
    layout = cookie.get-put_other "layout" "theme" s jar refl i;
    position = cookie.get-put_other "side_pos" "theme" s jar refl i;
  }

  pub sidebar_chosen :
      (s : String) (jar : Jar)
      → preferences cookie (cookie.put "sidebar" s jar)
        ≡ record (preferences cookie jar) { sidebar = some s }
  unfolding preferences
  sidebar_chosen s jar i = record {
    sidebar = cookie.get-put "sidebar" s jar i;
    theme = cookie.get-put_other "theme" "sidebar" s jar refl i;
    layout = cookie.get-put_other "layout" "sidebar" s jar refl i;
    position = cookie.get-put_other "side_pos" "sidebar" s jar refl i;
  }

  pub layout_chosen :
      (s : String) (jar : Jar)
      → preferences cookie (cookie.put "layout" s jar)
        ≡ record (preferences cookie jar) { layout = some s }
  unfolding preferences
  layout_chosen s jar i = record {
    sidebar = cookie.get-put_other "sidebar" "layout" s jar refl i;
    theme = cookie.get-put_other "theme" "layout" s jar refl i;
    layout = cookie.get-put "layout" s jar i;
    position = cookie.get-put_other "side_pos" "layout" s jar refl i;
  }

  pub position_chosen :
      (s : String) (jar : Jar)
      → preferences cookie (cookie.put "side_pos" s jar)
        ≡ record (preferences cookie jar) { position = some s }
  unfolding preferences
  position_chosen s jar i = record {
    sidebar = cookie.get-put_other "sidebar" "side_pos" s jar refl i;
    theme = cookie.get-put_other "theme" "side_pos" s jar refl i;
    layout = cookie.get-put_other "layout" "side_pos" s jar refl i;
    position = cookie.get-put "side_pos" s jar i;
  }
