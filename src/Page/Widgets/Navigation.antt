-- ===== src/Page/Widgets/Navigation.antt =====
-- The mouse over the navigation of a page, where the handlers of custom.js and of superfish.js meet.
use nswall.Common.{
  ℕ, ◌≡◌, refl, sym, subst, Bool, true, false, Option, none, some, List, [], ◌∷◌, arith, get_elem?,
}
use nswall.Menus.State.{Entry, Menu, Menus, contains}
use nswall.Menus.Step.{entered, left, step}
use nswall.Menus.Mouse.{Track, IsItem, enters, leaves, fires, Reach, here, next}
use nswall.Page.Widgets.{
  navigation_item, state_widget, portlet_header, drop_item, WidgetEvent, mouse_over, mouse_out,
  menu_timer, Parts, Widgets, ready_widgets, make_navigation, mark_target, enter_target,
  leave_target, step_widgets,
}

-- The item at `i` has a list, stands directly in the items `around`, and is none of these.
pub record Stands (i : ℕ) (around : List ℕ) (w : Menus) : Type 0 where
  pub item : IsItem 0 i around w
  pub apart : contains i around ≡ false

-- The item at `i` has no list, and is none of the items `around`.
pub record IsLeaf (i : ℕ) (around : List ℕ) (w : Menus) : Type 0 where
  pub menu : Menu
  pub has_menu : get_elem? w.menus 0 ≡ some menu
  pub entry : Entry
  pub has_entry : get_elem? menu.entries i ≡ some entry
  pub no_ul : entry.has_ul ≡ false
  pub apart : contains i around ≡ false

-- An event of the mouse at another element than the items of the navigation.
abbrev pub is_elsewhere : WidgetEvent → Bool
is_elsewhere (mouse_over (navigation_item i)) = false
is_elsewhere (mouse_out (navigation_item i)) = false
is_elsewhere menu_timer = false
is_elsewhere _ = true

-- A way of the mouse since the page was ready, to where it is in the items `around` with lists, the
-- innermost first, and in these in an item with none, if any.
pub data Way (p : Parts) : Widgets → List ℕ → Option ℕ → Type 0 where
  arrives : Way p (ready_widgets p) [] none
  enters_list :
      {w : Widgets} {around : List ℕ} (i : ℕ)
      → Way p w around none
      → Stands i around w.menus
      → Way p (step_widgets (mouse_over (navigation_item i)) w) (i ∷ around) none
  leaves_list :
      {w : Widgets} {around : List ℕ} (i : ℕ)
      → Way p w (i ∷ around) none
      → Stands i around w.menus
      → Way p (step_widgets (mouse_out (navigation_item i)) w) around none
  enters_leaf :
      {w : Widgets} {around : List ℕ} (i : ℕ)
      → Way p w around none
      → IsLeaf i around w.menus
      → Way p (step_widgets (mouse_over (navigation_item i)) w) around (some i)
  leaves_leaf :
      {w : Widgets} {around : List ℕ} (i : ℕ)
      → Way p w around (some i)
      → IsLeaf i around w.menus
      → Way p (step_widgets (mouse_out (navigation_item i)) w) around none
  waits :
      {w : Widgets} {around : List ℕ} {leaf : Option ℕ}
      → Way p w around leaf
      → Way p (step_widgets menu_timer w) around leaf
  elsewhere :
      {w : Widgets} {around : List ℕ} {leaf : Option ℕ} (ev : WidgetEvent)
      → is_elsewhere ev ≡ true
      → Way p w around leaf
      → Way p (step_widgets ev w) around leaf

abbrev pub at : Menus → List ℕ → Track
at w around = record { menus = w; around = around }

abbrev pub begun : Parts → Track
begun p = at (make_navigation p) []

leaf_still :
    (i : ℕ) (around : List ℕ) (w : Menus)
    → IsLeaf i around w
    → (step (entered 0 i) w ≡ w) × (step (left 0 i) w ≡ w)
unfolding step
leaf_still i around w v = (
  ground (arith, v.has_menu, v.has_entry, v.no_ul),
  ground (arith, v.has_menu, v.has_entry, v.no_ul),
)

pub elsewhere_menus :
    (ev : WidgetEvent) (w : Widgets) → is_elsewhere ev ≡ true → (step_widgets ev w).menus ≡ w.menus
unfolding step_widgets enter_target leave_target mark_target
elsewhere_menus (mouse_over (state_widget i)) w h = refl
elsewhere_menus (mouse_over (portlet_header i)) w h = refl
elsewhere_menus (mouse_over (drop_item i)) w h = refl
elsewhere_menus (mouse_out (state_widget i)) w h = refl
elsewhere_menus (mouse_out (portlet_header i)) w h = refl
elsewhere_menus (mouse_out (drop_item i)) w h = refl
elsewhere_menus _ w h = cc

-- The menus go a way of their own.
pub Way-Reach :
    (p : Parts) (w : Widgets) (around : List ℕ) (leaf : Option ℕ)
    → Way p w around leaf
    → Reach 0 (begun p) (at w.menus around)
unfolding step_widgets enter_target leave_target mark_target ready_widgets
Way-Reach p _ _ _ arrives = here
Way-Reach p _ _ _ (enters_list {w} {around} i v s) =
    next (Way-Reach p w around none v) (enters w.menus i around s.item)
Way-Reach p _ _ _ (leaves_list {w} {around} i v s) =
    next (Way-Reach p w (i ∷ around) none v) (leaves w.menus i around s.item)
Way-Reach p _ _ _ (enters_leaf {w} {around} i v s) =
    subst (λ m. Reach 0 (begun p) (at m around)) (sym (leaf_still i around w.menus s).0)
      (Way-Reach p w around none v)
Way-Reach p _ _ _ (leaves_leaf {w} {around} i v s) =
    subst (λ m. Reach 0 (begun p) (at m around)) (sym (leaf_still i around w.menus s).1)
      (Way-Reach p w around (some i) v)
Way-Reach p _ _ _ (waits {w} {around} {leaf} v) =
    next (Way-Reach p w around leaf v) (fires w.menus around)
Way-Reach p _ _ _ (elsewhere {w} {around} {leaf} ev h v) =
    subst (λ m. Reach 0 (begun p) (at m around)) (sym (elsewhere_menus ev w h))
      (Way-Reach p w around leaf v)
