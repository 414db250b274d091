-- ===== src/Page/Widgets.antt =====
-- The widgets of custom.js that follow the mouse: the navigation with its menus, the classes for hovered
-- elements, and the simple drop down menu; and what it sets when the page is ready.
pub mod Inside
pub mod Held
pub mod Follows
pub mod Navigation
pub mod Away
mod Examples
use nswall.Common.{
  ℕ, suc, Bool, true, false, ◌==◌, Option, none, some, List, [], ◌∷◌, map, if◌then◌else◌, set,
  length, replicate,
}
use nswall.Common.Int.{ℤ, pos, negsuc}
use nswall.Menus.State.{Entry, Menus, contains}
use nswall.Menus.Create.{superfish}
use nswall.Menus.Step.{entered, left, timer_fires, step}

-- The elements that have handlers of the mouse, each with its index among those of its selector:
-- `ul#navigation li`, `.ui-state-default`, `.portlet-header` and `.drop-down li`.
pub data HoverTarget : Type 0 where
  navigation_item state_widget portlet_header drop_item : ℕ → HoverTarget

-- A `ul` of the drop down menu: the items around it, and whether it is displayed.
pub record DropList : Type 0 where
  pub around : List ℕ
  pub displayed : Bool

-- A `div.sub`: the offset of its parent, its own style, and whether it is displayed.
pub record Sub : Type 0 where
  pub parent_left : ℤ
  pub left : Option ℤ
  pub displayed : Bool

-- The elements that the server sends. `main_items` are the elements with the class `main1`, those that
-- are items of the drop down menu with their index. `sidebar_height` is what the sidebar measures.
pub record Parts : Type 0 where
  pub levels : ℕ
  pub entries : List Entry
  pub states : ℕ
  pub headers : ℕ
  pub drop_lists : List DropList
  pub main_items : List (Option ℕ)
  pub subs : List Sub
  pub sidebar_height : ℕ

-- The classes sfHover2, ui-state-hover and ui-portlet-hover of the elements, the menu of the navigation,
-- and what the drop down menu shows; `my_index` is -1 for an item that is none of the main ones.
pub record Widgets : Type 0 where
  pub menus : Menus
  pub navigation : List Bool
  pub states : List Bool
  pub headers : List Bool
  pub drop_lists : List DropList
  pub main_items : List (Option ℕ)
  pub my_index : Option ℤ
  pub subs : List Sub
  pub min_height : ℕ

unfoldable pub place_sub : Sub → Sub
place_sub s = record s { left = some s.parent_left; displayed = false }

-- The call of superfish for the navigation, which is the only menu.
abbrev pub make_navigation : Parts → Menus
make_navigation p = superfish p.levels p.entries (record { menus = []; op = 0 })

-- The widgets when the page is ready.
unfoldable pub ready_widgets : Parts → Widgets
unfolding place_sub
ready_widgets p = record {
  menus = make_navigation p;
  navigation = replicate (length p.entries) false;
  states = replicate p.states false;
  headers = replicate p.headers false;
  drop_lists = p.drop_lists;
  main_items = p.main_items;
  my_index = none;
  subs = map place_sub p.subs;
  min_height = p.sidebar_height;
}

-- The class sfHover2, ui-state-hover or ui-portlet-hover of an element that the mouse comes over or leaves.
unfoldable pub mark_target : HoverTarget → Bool → Widgets → Widgets
mark_target (navigation_item i) b w = record w { navigation = set w.navigation i b }
mark_target (state_widget i) b w = record w { states = set w.states i b }
mark_target (portlet_header i) b w = record w { headers = set w.headers i b }
mark_target (drop_item i) b w = w

-- The lists within an item slide down or up.
unfoldable pub slide : ℕ → Bool → DropList → DropList
slide i b l = if contains i l.around then record l { displayed = b } else l

-- `jQuery(".main1").index(this)`; the first element has the index `k`.
unfoldable pub index_from : ℕ → ℕ → List (Option ℕ) → ℤ
index_from k i [] = negsuc 0
index_from k i (none ∷ xs) = index_from (suc k) i xs
index_from k i (some j ∷ xs) = let rest = index_from (suc k) i xs in if i == j then pos k else rest

unfoldable pub enter_target : HoverTarget → Widgets → Widgets
unfolding mark_target slide index_from
enter_target (navigation_item i) w =
    mark_target (navigation_item i) true (record w { menus = step (entered 0 i) w.menus })
enter_target (drop_item i) w = record w {
  drop_lists = map (slide i true) w.drop_lists;
  my_index = some (index_from 0 i w.main_items);
}
enter_target t w = mark_target t true w

unfoldable pub leave_target : HoverTarget → Widgets → Widgets
unfolding mark_target slide
leave_target (navigation_item i) w =
    mark_target (navigation_item i) false (record w { menus = step (left 0 i) w.menus })
leave_target (drop_item i) w = record w { drop_lists = map (slide i false) w.drop_lists }
leave_target t w = mark_target t false w

-- The mouse comes over an element or leaves it, or the timer of the navigation fires.
pub data WidgetEvent : Type 0 where
  mouse_over mouse_out : HoverTarget → WidgetEvent
  menu_timer : WidgetEvent

unfoldable pub step_widgets : WidgetEvent → Widgets → Widgets
unfolding enter_target leave_target
step_widgets (mouse_over t) w = enter_target t w
step_widgets (mouse_out t) w = leave_target t w
step_widgets menu_timer w = record w { menus = step (timer_fires 0) w.menus }

unfoldable pub run_widgets : List WidgetEvent → Widgets → Widgets
run_widgets [] w = w
run_widgets (ev ∷ evs) w = run_widgets evs (step_widgets ev w)
