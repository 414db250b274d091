-- ===== src/Page/Sidebar.antt =====
-- Closing and opening the sidebar, the portlets and the dialogs.
use nswall.Common.{ℕ, true, false, not, List, none, some, get_elem?, set}
use nswall.Page.State.{Sidebar, Portlet}

unfoldable pub close_sidebar : Sidebar → Sidebar
close_sidebar s = record s {
  is_closed = true;
  is_wide = true;
  open_shown = true;
  close_shown = false;
  boxes_shown = false;
}

unfoldable pub open_sidebar : Sidebar → Sidebar
open_sidebar s = record s {
  is_closed = false;
  is_wide = false;
  open_shown = false;
  close_shown = true;
  boxes_shown = true;
}

-- The class that the handler of the button adds.
unfoldable pub mark_close : Sidebar → Sidebar
mark_close s = record s { close_active = true }

unfoldable pub toggle_portlet : Portlet → Portlet
toggle_portlet p = record { arrow_n = not p.arrow_n; content_shown = not p.content_shown }

-- A click on the icon of the portlet at `i`.
unfoldable pub click_portlet : ℕ → List Portlet → List Portlet
click_portlet i ps = elim (get_elem? ps i) [ none ↦ ps | some p ↦ set ps i (toggle_portlet p) ]
