-- ===== src/Page/Step.antt =====
-- A page as a state machine: clicks, timers and reloads. The environment chooses the events.
pub mod Chooses
pub mod Agrees
pub mod InStep
pub mod Clicks
use Prim.Native.String.{String}
use nswall.Common.{
  ℕ, zero, suc, Bool, true, false, List, [], ◌∷◌, ◌++◌, Option, none, some, if◌then◌else◌,
}
use nswall.Page.State.{Document, Browser, CookieJar, Page}
use nswall.Page.Sidebar.{close_sidebar, open_sidebar, mark_close, click_portlet}
use nswall.Page.Links.{activate, id_at}
use nswall.Page.Restore.{preferences, theme_href, ready}

pub data Event : Type 0 where
  close_clicked open_clicked : Event
  theme_clicked layout_clicked position_clicked portlet_clicked : ℕ → Event
  hide_timer_fires style_timer_fires reloaded : Event
  dialog_link_clicked dialog_button_clicked confirmation_link_clicked confirmation_button_clicked :
      Event

-- The first element with the id of the switcher is shown or hidden.
unfoldable pub show_first : Bool → List Bool → List Bool
show_first b [] = []
show_first b (x ∷ xs) = b ∷ xs

module _ {Jar : Type 0} (cookie : CookieJar Jar) (browser : Browser) (markup : Document) where
  -- The page with the document that the server sent, once it is ready.
  unfoldable pub load : Jar → Page Jar
  load jar = record {
    document = ready markup (preferences cookie jar);
    cookies = jar;
    hide_timers = 0;
    style_timers = [];
    reload_asked = false;
  }

  abbrev ask : Bool → Page Jar → Page Jar
  ask b p = record p { reload_asked = if b then true else p.reload_asked }

  unfoldable pub click_close : Page Jar → Page Jar
  unfolding close_sidebar mark_close
  click_close p = ask browser.safari (record p {
    document = record (p.document) { sidebar = mark_close (close_sidebar p.document.sidebar) };
    cookies = cookie.put "sidebar" "closed" p.cookies;
  })

  unfoldable pub click_open : Page Jar → Page Jar
  unfolding open_sidebar
  click_open p = ask browser.safari (record p {
    document = record (p.document) { sidebar = open_sidebar p.document.sidebar };
    cookies = cookie.put "sidebar" "open" p.cookies;
  })

  unfoldable pub click_theme : ℕ → Page Jar → Page Jar
  click_theme i p = elim (id_at p.document.theme_links i) [
    | none ↦ p
    | some theme_name ↦ record p {
      document = record (p.document) {
        switchers = show_first true (p.document.switchers ++ false ∷ []);
        theme_links = activate i p.document.theme_links;
      };
      cookies = cookie.put "theme" theme_name p.cookies;
      hide_timers = suc p.hide_timers;
      style_timers = p.style_timers ++ theme_name ∷ [];
    }
  ]

  unfoldable pub click_layout : ℕ → Page Jar → Page Jar
  click_layout i p = elim (id_at p.document.layout_links i) [
    | none ↦ p
    | some lay_id ↦ record p {
      document = record (p.document) {
        body_class = lay_id;
        is_fixed = true;
        layout_links = activate i p.document.layout_links;
      };
      cookies = cookie.put "layout" lay_id p.cookies;
    }
  ]

  unfoldable pub click_position : ℕ → Page Jar → Page Jar
  click_position i p = elim (id_at p.document.position_links i) [
    | none ↦ p
    | some side_id ↦ ask browser.msie (record p {
      document = record (p.document) {
        body_id = side_id;
        position_links = activate i p.document.position_links;
      };
      cookies = cookie.put "side_pos" side_id p.cookies;
    })
  ]

  unfoldable pub fire_hide : Page Jar → Page Jar
  fire_hide p = elim p.hide_timers [
    | ℕ.zero ↦ p
    | suc n ↦ record p {
      hide_timers = n;
      document = record (p.document) { switchers = show_first false p.document.switchers };
    }
  ]

  unfoldable pub fire_style : Page Jar → Page Jar
  fire_style p = elim p.style_timers [
    | [] ↦ p
    | t ∷ ts ↦ record p {
      style_timers = ts;
      document = record (p.document) { style_href = theme_href t };
    }
  ]

  unfoldable pub step : Event → Page Jar → Page Jar
  unfolding load
  step close_clicked p = click_close p
  step open_clicked p = click_open p
  step (theme_clicked i) p = click_theme i p
  step (layout_clicked i) p = click_layout i p
  step (position_clicked i) p = click_position i p
  step (portlet_clicked i) p = record p {
    document = record (p.document) { portlets = click_portlet i p.document.portlets };
  }
  step hide_timer_fires p = fire_hide p
  step style_timer_fires p = fire_style p
  step reloaded p = load p.cookies
  step dialog_link_clicked p = record p { document = record (p.document) { dialog_open = true } }
  step dialog_button_clicked p = record p { document = record (p.document) { dialog_open = false } }
  step confirmation_link_clicked p = record p {
    document = record (p.document) { confirmation_open = true };
  }
  step confirmation_button_clicked p = record p {
    document = record (p.document) { confirmation_open = false };
  }

  unfoldable pub run : List Event → Page Jar → Page Jar
  run [] p = p
  run (e ∷ es) p = run es (step e p)
