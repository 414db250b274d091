-- ===== src/Page/Examples.antt =====
-- The theorems on the page at a page with the links of the theme, and a jar of cookies that is a list.
use Prim.Native.String.{String}
use nswall.Common.{◌≡◌, refl, true, false, List, [], ◌∷◌, Option, none, some, if◌then◌else◌}
use nswall.Common.Texts.{is_text, is_text_refl}
use nswall.Page.State.{Link, Document, Browser, CookieJar, Page}
use nswall.Page.Links.{mark}
use nswall.Page.Restore.{preferences, ready}
use nswall.Page.Step.{
  Event, close_clicked, theme_clicked, layout_clicked, position_clicked, reloaded, load, step, run,
}
use nswall.Page.Step.Chooses.{HasLinks, choices, reload_restores, ready-HasLinks}
use nswall.Page.Step.InStep.{IsInStep, run-load-IsInStep}
use nswall.Page.Step.Clicks.{full_width_differs}

abbrev Jar : Type 0
Jar = List (String × String)

abbrev get : String → Jar → Option String
get name [] = none
get name ((other, value) ∷ jar) = if is_text name other then some value else get name jar

get-put : (name value : String) (jar : Jar) → get name ((name, value) ∷ jar) ≡ some value
get-put name value jar = rw (is_text_refl name) refl

abbrev cookie : CookieJar Jar
cookie = record {
  get = get;
  put = λ name value jar. (name, value) ∷ jar;
  get-put = get-put;
  get-put_other = λ name other value jar e. rw e refl;
}

abbrev link : String → Link
link id = record { id = id; active = false }

abbrev markup : Document
markup = record {
  sidebar = record {
    is_closed = false;
    is_wide = false;
    open_shown = true;
    close_shown = true;
    boxes_shown = true;
    close_active = false;
  };
  style_href = "css/themes/black_rose/ui.css";
  switchers = [];
  theme_links = link "black_rose" ∷ link "blueberry" ∷ link "black_rose" ∷ [];
  body_class = "";
  is_fixed = false;
  layout_links = link "" ∷ link "layout90" ∷ [];
  body_id = "";
  position_links = link "sidebar-left" ∷ link "sidebar-right" ∷ [];
  portlets = record { arrow_n = false; content_shown = true } ∷ [];
  dialog_open = false;
  confirmation_open = false;
}

abbrev browser : Browser
browser = record { safari = false; msie = true }

abbrev events : List Event
events = theme_clicked 1 ∷ close_clicked ∷ layout_clicked 1 ∷ position_clicked 0 ∷ []

abbrev fresh : Page Jar
fresh = load cookie browser markup []

fresh-HasLinks : HasLinks markup fresh.document
unfolding load
fresh-HasLinks = ready-HasLinks cookie browser markup (preferences cookie [])

reload_restores_example :
    (step cookie browser markup reloaded (run cookie browser markup events fresh)).document
    ≡ ready markup (choices markup events (preferences cookie fresh.cookies))
reload_restores_example = reload_restores cookie browser markup events fresh fresh-HasLinks

run-load-IsInStep_example :
    IsInStep cookie browser markup
      (run cookie browser markup events (load cookie browser markup []))
run-load-IsInStep_example = run-load-IsInStep cookie browser markup events []

full_width_differs_example :
    ((step cookie browser markup (layout_clicked 0) fresh).document.is_fixed ≡ true)
    × ((step cookie browser markup reloaded
          (step cookie browser markup (layout_clicked 0) fresh)).document.is_fixed
        ≡ false)
unfolding load ready mark
full_width_differs_example = full_width_differs cookie browser markup fresh 0 "" refl refl refl
