-- ===== src/Page/Widgets/Examples.antt =====
-- The theorems on the widgets that follow the mouse, at a page with a navigation of two items.
use nswall.Common.{
  ℕ, zero, suc, ◌≡◌, refl, Bool, true, false, not, ◌||◌, none, some, List, [], ◌∷◌, sym, ap,
  some_inj, inl, inr,
}
use nswall.Common.Int.{pos, negsuc}
use nswall.Common.Every.{Every}
use nswall.Common.Texts.{text_eq}
use nswall.Menus.State.{Entry, contains, indices_from}
use nswall.Menus.Create.{superfish, path_from, mark_path, hide_one}
use nswall.Menus.Step.{step, over, hide_superfish_ul, kept_path, show_one, is_sibling}
use nswall.Menus.Step.Opens.{opened}
use nswall.Menus.Mouse.Under.{IsRooted}
use nswall.Page.Widgets.{
  navigation_item, drop_item, WidgetEvent, mouse_over, mouse_out, menu_timer, Parts, Widgets,
  ready_widgets, step_widgets, run_widgets, enter_target, leave_target, mark_target, slide,
  index_from,
}
use nswall.Page.Widgets.Inside.{has, inside_from, any_inside}
use nswall.Page.Widgets.Follows.{widgets_follow}
use nswall.Page.Widgets.Navigation.{
  Stands, IsLeaf, arrives, enters_list, leaves_list, enters_leaf, leaves_leaf,
}
use nswall.Menus.Mouse.Away.{IsFresh}
use nswall.Menus.State.{Menu}
use nswall.Page.Widgets.Away.{IsClosed, left_navigation_closes}

abbrev entry : List ℕ → Bool → Entry
entry ancestors has_ul = record {
  ancestors = ancestors;
  has_ul = has_ul;
  hover = false;
  shown = false;
  breadcrumb = false;
  on_path = false;
}

abbrev items : List Entry
items = entry [] true ∷ entry (0 ∷ []) false ∷ entry [] false ∷ []

abbrev parts : Parts
parts = record {
  levels = 1;
  entries = items;
  states = 1;
  headers = 1;
  drop_lists =
      record { around = 0 ∷ []; displayed = false }
      ∷ record { around = 1 ∷ 0 ∷ []; displayed = false }
      ∷ [];
  main_items = none ∷ some 0 ∷ [];
  subs = record { parent_left = pos 12; left = none; displayed = true } ∷ [];
  sidebar_height = 400;
}

-- The mouse goes into an item of the drop down menu and one within it, and back out of that.
abbrev events : List WidgetEvent
events =
    mouse_over (drop_item 0)
    ∷ mouse_over (drop_item 1)
    ∷ mouse_over (navigation_item 1)
    ∷ mouse_out (drop_item 1)
    ∷ []

-- Both lists are displayed in the inner item; its own list is hidden after it.
events_run :
    ((run_widgets events (ready_widgets parts)).drop_lists
      ≡ record { around = 0 ∷ []; displayed = true }
        ∷ record { around = 1 ∷ 0 ∷ []; displayed = false }
        ∷ [])
    × ((run_widgets events (ready_widgets parts)).my_index ≡ some (negsuc 0))
unfolding run_widgets step_widgets enter_target leave_target slide ready_widgets index_from
events_run = (refl, refl)

widgets_follow_example :
    (true ≡ has (navigation_item 1) (inside_from [] events))
    × Every
        (λ l. (not l.displayed || any_inside l.around (inside_from [] events)) ≡ true)
        (run_widgets events (ready_widgets parts)).drop_lists
unfolding run_widgets step_widgets enter_target leave_target mark_target ready_widgets
widgets_follow_example =
    widgets_follow parts events (navigation_item 1) true (refl, (refl, tt)) refl

items-IsRooted :
    IsRooted (record { entries = items; path = []; retain_path = false; pending = none })
items-IsRooted zero e h = inl (ap (λ (x : Entry). x.ancestors) (sym (some_inj h)))
items-IsRooted (suc zero) e h =
    inr (
      0,
      ap (λ (x : Entry). contains 0 x.ancestors) (sym (some_inj h)),
      (entry [] true, refl, refl),
    )
items-IsRooted (suc (suc zero)) e h = inl (ap (λ (x : Entry). x.ancestors) (sym (some_inj h)))
items-IsRooted (suc (suc (suc k))) e h = cc

items-IsFresh : IsFresh items
items-IsFresh = record {
  unmarked = ((refl, refl), ((refl, refl), ((refl, refl), tt)));
  rooted = items-IsRooted;
}

abbrev first_menu : Menu
first_menu = record { entries = items; path = []; retain_path = false; pending = none }

-- In the first item, in the one within it, and back.
abbrev in_first : Widgets
in_first = step_widgets (mouse_over (navigation_item 0)) (ready_widgets parts)

abbrev in_second : Widgets
in_second = step_widgets (mouse_over (navigation_item 1)) in_first

abbrev back_in_first : Widgets
back_in_first = step_widgets (mouse_out (navigation_item 1)) in_second

abbrev outside : Widgets
outside = step_widgets (mouse_out (navigation_item 0)) back_in_first

ready-Stands : Stands 0 [] (ready_widgets parts).menus
unfolding ready_widgets superfish indices_from path_from mark_path hide_one
ready-Stands = record {
  item = record {
    menu = first_menu;
    has_menu = refl;
    entry = entry [] true;
    has_entry = refl;
    has_ul = refl;
    directly = refl;
  };
  apart = refl;
}

in_first-IsLeaf : IsLeaf 1 (0 ∷ []) in_first.menus
unfolding ready_widgets superfish indices_from path_from mark_path hide_one step_widgets
    enter_target leave_target step over hide_superfish_ul kept_path show_one is_sibling text_eq
in_first-IsLeaf = record {
  menu = opened 0 first_menu;
  has_menu = refl;
  entry = entry (0 ∷ []) false;
  has_entry = refl;
  no_ul = refl;
  apart = refl;
}

in_second-IsLeaf : IsLeaf 1 (0 ∷ []) in_second.menus
unfolding ready_widgets superfish indices_from path_from mark_path hide_one step_widgets
    enter_target leave_target step over hide_superfish_ul kept_path show_one is_sibling text_eq
in_second-IsLeaf = record {
  menu = opened 0 first_menu;
  has_menu = refl;
  entry = entry (0 ∷ []) false;
  has_entry = refl;
  no_ul = refl;
  apart = refl;
}

back-Stands : Stands 0 [] back_in_first.menus
unfolding ready_widgets superfish indices_from path_from mark_path hide_one step_widgets
    enter_target leave_target step over hide_superfish_ul kept_path show_one is_sibling text_eq
back-Stands = record {
  item = record {
    menu = opened 0 first_menu;
    has_menu = refl;
    entry = record (entry [] true) { hover = true; shown = true };
    has_entry = refl;
    has_ul = refl;
    directly = refl;
  };
  apart = refl;
}

left_navigation_closes_example : IsClosed (step_widgets menu_timer outside)
left_navigation_closes_example =
    left_navigation_closes parts outside items-IsFresh
      ((refl, refl, refl), ((refl, refl, refl), ((refl, refl, refl), tt)))
      (leaves_list 0
        (leaves_leaf 1 (enters_leaf 1 (enters_list 0 arrives ready-Stands) in_first-IsLeaf)
          in_second-IsLeaf)
        back-Stands)
