-- ===== src/Page/Widgets/Away.antt =====
-- What a page shows of its navigation when the mouse has left it.
use nswall.Common.{
  ℕ, ◌≡◌, refl, ap, sym, subst, ◌∙◌, true, false, ◌||◌, ◌==◌, ==_iff, Option, none, some, some_inj,
  List, [], ◌∷◌, arith, Bool-cases, inl, inr, get_elem?,
}
use nswall.Common.Every.{Every, Every-of_get_elem?, Every-get_elem?}
use nswall.Menus.State.{Entry, Menu, Menus, contains, each_at, indices_from}
use nswall.Menus.Create.{superfish, path_from, mark_path, is_closed, hide_one}
use nswall.Menus.Create.Shows.{IsSent, superfish_lem}
use nswall.Menus.Indices.{get_elem?-each_at_back}
use nswall.Menus.Step.{entered, left, timer_fires, step}
use nswall.Menus.Step.Agrees.{Agrees, AllAgree, step-AllAgree}
use nswall.Menus.Mouse.Away.{IsFresh, IsShut, no_path, away_closes}
use nswall.Page.Widgets.{
  HoverTarget, navigation_item, state_widget, portlet_header, drop_item, WidgetEvent, mouse_over,
  mouse_out, menu_timer, Parts, Widgets, ready_widgets, make_navigation, mark_target, enter_target,
  leave_target, step_widgets,
}
use nswall.Page.Widgets.Inside.{has, has-without, without, inside_after}
use nswall.Page.Widgets.Follows.{Flagged, step-Flagged, ready-Flagged}
use nswall.Page.Widgets.Navigation.{
  is_elsewhere, Way, arrives, enters_list, leaves_list, enters_leaf, leaves_leaf, waits, elsewhere,
  Way-Reach, elsewhere_menus,
}

-- The items of the navigation that the mouse is in.
abbrev within : List ℕ → Option ℕ → List ℕ
within around none = around
within around (some i) = i ∷ around

-- The targets `ts` are those items, as far as they are items of the navigation.
abbrev AreWithin : List ℕ → List HoverTarget → Type 0
AreWithin is ts = (j : ℕ) → has (navigation_item j) ts ≡ contains j is

entered-AreWithin :
    (i : ℕ) (is : List ℕ) (ts : List HoverTarget)
    → AreWithin is ts
    → AreWithin (i ∷ is) (navigation_item i ∷ ts)
entered-AreWithin i is ts v j = ap ((j == i) ||◌) (v j)

left-AreWithin :
    (i : ℕ) (is : List ℕ) (ts : List HoverTarget)
    → contains i is ≡ false
    → AreWithin (i ∷ is) ts
    → AreWithin is (without (navigation_item i) ts)
left-AreWithin i is ts h v j = elim (Bool-cases (j == i)) [
  | inr q ↦ ground (arith, q, v j, has-without (navigation_item j) (navigation_item i) ts)
  | inl q ↦
      let off : contains j is ≡ false = ap (λ x. contains x is) ((==_iff j i).0 q) ∙ h in
      ground (arith, q, off, has-without (navigation_item j) (navigation_item i) ts)
]

elsewhere-AreWithin :
    (ev : WidgetEvent) (is : List ℕ) (ts : List HoverTarget)
    → is_elsewhere ev ≡ true
    → AreWithin is ts
    → AreWithin is (inside_after ev ts)
elsewhere-AreWithin (mouse_over (state_widget i)) is ts h v j = v j
elsewhere-AreWithin (mouse_over (portlet_header i)) is ts h v j = v j
elsewhere-AreWithin (mouse_over (drop_item i)) is ts h v j = v j
elsewhere-AreWithin (mouse_out (state_widget i)) is ts h v j =
    ground (arith, v j, has-without (navigation_item j) (state_widget i) ts)
elsewhere-AreWithin (mouse_out (portlet_header i)) is ts h v j =
    ground (arith, v j, has-without (navigation_item j) (portlet_header i) ts)
elsewhere-AreWithin (mouse_out (drop_item i)) is ts h v j =
    ground (arith, v j, has-without (navigation_item j) (drop_item i) ts)
elsewhere-AreWithin _ is ts h v j = cc

-- The classes of custom.js are those of the items that the mouse is in.
abbrev Follows : List ℕ → Widgets → Type 0
Follows is w = (ts : List HoverTarget) × Flagged ts w × AreWithin is ts

Way-Follows :
    (p : Parts) (w : Widgets) (around : List ℕ) (leaf : Option ℕ)
    → Way p w around leaf
    → Follows (within around leaf) w
Way-Follows p _ _ _ arrives = ([], ready-Flagged p, λ j. refl)
Way-Follows p _ _ _ (enters_list {w} {around} i v s) =
    let (ts, f, a) = Way-Follows p w around none v in
    (
      navigation_item i ∷ ts,
      step-Flagged (mouse_over (navigation_item i)) ts w f,
      entered-AreWithin i around ts a,
    )
Way-Follows p _ _ _ (leaves_list {w} {around} i v s) =
    let (ts, f, a) = Way-Follows p w (i ∷ around) none v in
    (
      without (navigation_item i) ts,
      step-Flagged (mouse_out (navigation_item i)) ts w f,
      left-AreWithin i around ts s.apart a,
    )
Way-Follows p _ _ _ (enters_leaf {w} {around} i v s) =
    let (ts, f, a) = Way-Follows p w around none v in
    (
      navigation_item i ∷ ts,
      step-Flagged (mouse_over (navigation_item i)) ts w f,
      entered-AreWithin i around ts a,
    )
Way-Follows p _ _ _ (leaves_leaf {w} {around} i v s) =
    let (ts, f, a) = Way-Follows p w around (some i) v in
    (
      without (navigation_item i) ts,
      step-Flagged (mouse_out (navigation_item i)) ts w f,
      left-AreWithin i around ts s.apart a,
    )
Way-Follows p _ _ _ (waits {w} {around} {leaf} v) =
    let (ts, f, a) = Way-Follows p w around leaf v in (ts, step-Flagged menu_timer ts w f, a)
Way-Follows p _ _ _ (elsewhere {w} {around} {leaf} ev h v) =
    let (ts, f, a) = Way-Follows p w around leaf v in
    (inside_after ev ts, step-Flagged ev ts w f, elsewhere-AreWithin ev (within around leaf) ts h a)

-- Items with the classes that the server sends them with, and no list displayed where there is none.
ready-AllAgree :
    (p : Parts) → IsFresh p.entries → Every IsSent p.entries → AllAgree (make_navigation p)
unfolding superfish
ready-AllAgree p v s = (Every-of_get_elem? Agrees hidden at_each, tt)
  where
    none_yet : Menus
    none_yet = record { menus = []; op = 0 }

    marked : List Entry
    marked = each_at (mark_path (path_from p.levels 0 p.entries)) 0 p.entries

    shut : List ℕ
    shut = indices_from is_closed 0 marked

    hidden : List Entry
    hidden = each_at (hide_one shut []) 0 marked

    at_each : (k : ℕ) (x : Entry) → get_elem? hidden k ≡ some x → Agrees x
    at_each k x h =
        let (y, b, q) = get_elem?-each_at_back (hide_one shut []) 0 k k marked (omega arith) h in
        let (e, c, r) =
          get_elem?-each_at_back (mark_path (path_from p.levels 0 p.entries)) 0 k k p.entries
            (omega arith) b in
        let (u, z, d, f, g) =
          superfish_lem p.levels k p.entries none_yet e c
            (Every-get_elem? IsSent p.entries k e s c) in
        let same : x ≡ z =
          some_inj
            (sym h ∙ ap (λ o. elim o [ none ↦ none | some m ↦ get_elem? m.entries k ]) d ∙ f) in
        let off : contains k (path_from p.levels 0 p.entries) ≡ false =
          ap (contains k) (no_path p.levels 0 p.entries v.unmarked) in
        let agrees : Agrees z = ground (arith, off, g.0, g.1) in subst Agrees (sym same) agrees

Way-AllAgree :
    (p : Parts) (w : Widgets) (around : List ℕ) (leaf : Option ℕ)
    → IsFresh p.entries
    → Every IsSent p.entries
    → Way p w around leaf
    → AllAgree w.menus
unfolding step_widgets enter_target leave_target mark_target ready_widgets
Way-AllAgree p _ _ _ f s arrives = ready-AllAgree p f s
Way-AllAgree p _ _ _ f s (enters_list {w} {around} i v x) =
    step-AllAgree (entered 0 i) w.menus (Way-AllAgree p w around none f s v)
Way-AllAgree p _ _ _ f s (leaves_list {w} {around} i v x) =
    step-AllAgree (left 0 i) w.menus (Way-AllAgree p w (i ∷ around) none f s v)
Way-AllAgree p _ _ _ f s (enters_leaf {w} {around} i v x) =
    step-AllAgree (entered 0 i) w.menus (Way-AllAgree p w around none f s v)
Way-AllAgree p _ _ _ f s (leaves_leaf {w} {around} i v x) =
    step-AllAgree (left 0 i) w.menus (Way-AllAgree p w around (some i) f s v)
Way-AllAgree p _ _ _ f s (waits {w} {around} {leaf} v) =
    step-AllAgree (timer_fires 0) w.menus (Way-AllAgree p w around leaf f s v)
Way-AllAgree p _ _ _ f s (elsewhere {w} {around} {leaf} ev h v) =
    subst AllAgree (sym (elsewhere_menus ev w h)) (Way-AllAgree p w around leaf f s v)

-- What the navigation shows: no item has a class for hovered ones, and no list is displayed.
pub record IsClosed (w : Widgets) : Type 0 where
  pub menu : Menu
  pub has_menu : get_elem? w.menus.menus 0 ≡ some menu
  pub shut : Every (λ e. (e.hover ≡ false) × (e.shown ≡ false)) menu.entries
  pub unmarked : Every (λ b. b ≡ false) w.navigation

-- Where the server sends the items of the navigation with none of the classes that the scripts give, in
-- a tree, and no list on display where there is none: whatever way the mouse takes over the page, once
-- it is in no item of the navigation and the timer of the menu fires, no item has the hover class of
-- the menu or that of the page, and no list of it is displayed.
pub left_navigation_closes :
    (p : Parts) (w : Widgets)
    → IsFresh p.entries
    → Every IsSent p.entries
    → Way p w [] none
    → IsClosed (step_widgets menu_timer w)
unfolding step_widgets
left_navigation_closes p w f s v =
    let (u, h, shut) =
      away_closes p.levels p.entries (record { menus = []; op = 0 }) w.menus f
        (Way-Reach p w [] none v) in
    let agree =
      Every-get_elem? (λ m. Every Agrees m.entries) (step (timer_fires 0) w.menus).menus 0 u
        (step-AllAgree (timer_fires 0) w.menus (Way-AllAgree p w [] none f s v)) h in
    let (ts, flagged, none_in) = Way-Follows p w [] none v in
    record {
      menu = u;
      has_menu = h;
      shut = Every-of_get_elem? _ u.entries λ i e at_i.
          let a = Every-get_elem? IsShut u.entries i e shut at_i in
          let b = Every-get_elem? Agrees u.entries i e agree at_i in (a, b ∙ ground (arith, a));
      unmarked =
          Every-of_get_elem? _ w.navigation
            λ i b at_i. flagged (navigation_item i) b at_i ∙ none_in i;
    }
