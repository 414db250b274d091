-- ===== src/Menus/Step.antt =====
-- The mouse and the focus over the items of the menus, and the timers that close them.
pub mod Agrees
pub mod Opens
use nswall.Common.{
  ℕ, zero, suc, Bool, true, false, not, ◌||◌, ◌&&◌, ◌==◌, Option, none, some, List, [], ◌∷◌,
  if◌then◌else◌, get_elem?,
}
use nswall.Common.Texts.{text_eq}
use nswall.Menus.State.{Entry, Menu, Menus, contains, meets, update, each_at, indices_from}
use nswall.Menus.Create.{hide_one}

-- `showSuperfishUl`, for one item.
unfoldable pub show_one : List ℕ → ℕ → Entry → Entry
show_one items i e =
    if contains i items then record e { hover = true; shown = e.shown || e.has_ul } else e

-- The item `e` at `i` is a sibling of one of `items`.
unfoldable pub is_sibling : List Entry → List ℕ → ℕ → Entry → Bool
unfolding text_eq
is_sibling all [] i e = false
is_sibling all (j ∷ items) i e =
    (not (i == j)
      && elim (get_elem? all j) [ none ↦ false | some d ↦ text_eq d.ancestors e.ancestors ])
    || is_sibling all items i e

-- The items that the current options keep from being hidden in menu `m`.
unfoldable pub kept_path : ℕ → Menus → List ℕ
kept_path m w = elim (get_elem? w.menus w.op) [
  | none ↦ []
  | some o ↦ if o.retain_path && w.op == m then o.path else []
]

abbrev pub forget_retain : Menu → Menu
forget_retain o = record o { retain_path = false }

unfoldable pub hide_superfish_ul : ℕ → List ℕ → Menus → Menus
unfolding kept_path
hide_superfish_ul m targets w = record w {
  menus =
      update m (λ u. record u { entries = each_at (hide_one targets (kept_path m w)) 0 u.entries })
        (update w.op forget_retain w.menus);
}

-- `over`, for the items of a menu: it shows them, and hides `siblings()`.
unfoldable pub over : ℕ → List ℕ → Menus → Menus
unfolding hide_superfish_ul show_one is_sibling indices_from
over m items w = elim (get_elem? w.menus m) [
  | none ↦ w
  | some u ↦
      let entries = each_at (show_one items) 0 u.entries in
      hide_superfish_ul m (indices_from (is_sibling u.entries items) 0 u.entries) (record w {
        op = m;
        menus = update m (λ u. record u { pending = none; entries = entries }) w.menus;
      })
]

unfoldable pub out : ℕ → List ℕ → Menus → Menus
out m items w = record w {
  op = m;
  menus = update m (λ u. record u { pending = some items }) w.menus;
}

abbrev pub is_first_of : List ℕ → List ℕ → Bool
is_first_of [] path = false
is_first_of (i ∷ items) path = contains i path

-- Whether an item with the hover class is around one of `items`.
unfoldable pub any_hovered : List Entry → List ℕ → Bool
any_hovered es [] = false
any_hovered es (i ∷ is) =
    (elim (get_elem? es i) [ none ↦ false | some e ↦ e.hover ]) || any_hovered es is

unfoldable pub is_within_hovered : List Entry → List ℕ → Bool
unfolding any_hovered
is_within_hovered es [] = false
is_within_hovered es (i ∷ items) =
    (elim (get_elem? es i) [ none ↦ false | some e ↦ any_hovered es e.ancestors ])
    || is_within_hovered es items

abbrev pub is_empty : List ℕ → Bool
is_empty [] = true
is_empty (i ∷ is) = false

-- Where none of the items is within a hovered one any more, the path of the page is shown again.
unfoldable pub show_path : ℕ → List ℕ → Menus → Menus
unfolding is_within_hovered over
show_path m items w = elim (get_elem? w.menus m) [
  | none ↦ w
  | some u ↦
      if not (is_empty u.path) && not (is_within_hovered u.entries items)
      then over m u.path w
      else w
]

-- What the timer of menu `m` does for `items`.
unfoldable pub close : ℕ → List ℕ → Menus → Menus
unfolding hide_superfish_ul show_path
close m items w = show_path m items (
    hide_superfish_ul m items (record w {
      menus =
          update m (λ u. record u { pending = none; retain_path = is_first_of items u.path })
            w.menus;
    }))

-- The items of a menu that hold a link of the item `i`, the nearest first.
abbrev pub items_around : ℕ → ℕ → Menus → List ℕ
items_around m i w = elim (get_elem? w.menus m) [
  | none ↦ []
  | some u ↦ elim (get_elem? u.entries i) [ none ↦ [] | some e ↦ i ∷ e.ancestors ]
]

-- The mouse comes over an item or leaves it, a link of an item has or loses the focus, the timer of a
-- menu fires. The first number of each names the menu.
pub data Event : Type 0 where
  entered left focused blurred : ℕ → ℕ → Event
  timer_fires : ℕ → Event

-- Whether the item has the handlers of the mouse.
abbrev pub has_ul_at : ℕ → ℕ → Menus → Bool
has_ul_at m i w = elim (get_elem? w.menus m) [
  | none ↦ false
  | some u ↦ elim (get_elem? u.entries i) [ none ↦ false | some e ↦ e.has_ul ]
]

unfoldable pub step : Event → Menus → Menus
unfolding over out close
step (entered m i) w = if has_ul_at m i w then over m (i ∷ []) w else w
step (left m i) w = if has_ul_at m i w then out m (i ∷ []) w else w
step (focused m i) w = over m (items_around m i w) w
step (blurred m i) w = out m (items_around m i w) w
step (timer_fires m) w = elim (get_elem? w.menus m) [
  | none ↦ w
  | some u ↦ elim u.pending [ none ↦ w | some items ↦ close m items w ]
]
