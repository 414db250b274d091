-- ===== src/Menus/Mouse.antt =====
-- The mouse over one menu as a step relation: which items with lists it is in, and what the browser can
-- report next. Other menus may do anything meanwhile.
pub mod Others
pub mod Under
pub mod Tracks
pub mod Away
use nswall.Common.{ℕ, ◌≡◌, Bool, true, false, ◌==◌, some, List, [], ◌∷◌, get_elem?}
use nswall.Menus.State.{Entry, Menu, Menus}
use nswall.Menus.Step.{Event, entered, left, focused, blurred, timer_fires, step}

-- `around` are the items with lists that the mouse is in, the innermost first.
pub record Track : Type 0 where
  pub menus : Menus
  pub around : List ℕ

-- The menu that an event is about.
abbrev pub menu_of : Event → ℕ
menu_of (entered m i) = m
menu_of (left m i) = m
menu_of (focused m i) = m
menu_of (blurred m i) = m
menu_of (timer_fires m) = m

-- The item at `i` of menu `m` has a list and stands directly in the items `around`.
pub record IsItem (m i : ℕ) (around : List ℕ) (w : Menus) : Type 0 where
  pub menu : Menu
  pub has_menu : get_elem? w.menus m ≡ some menu
  pub entry : Entry
  pub has_entry : get_elem? menu.entries i ≡ some entry
  pub has_ul : entry.has_ul ≡ true
  pub directly : entry.ancestors ≡ around

-- The mouse enters an item from the one around it, and leaves the innermost one.
pub data Move (m : ℕ) : Track → Track → Type 0 where
  enters :
      (w : Menus) (i : ℕ) (around : List ℕ)
      → IsItem m i around w
      → Move m
          (record { menus = w; around = around })
          (record { menus = step (entered m i) w; around = i ∷ around })
  leaves :
      (w : Menus) (i : ℕ) (around : List ℕ)
      → IsItem m i around w
      → Move m
          (record { menus = w; around = i ∷ around })
          (record { menus = step (left m i) w; around = around })
  fires :
      (w : Menus) (around : List ℕ)
      → Move m
          (record { menus = w; around = around })
          (record { menus = step (timer_fires m) w; around = around })
  elsewhere :
      (w : Menus) (around : List ℕ) (ev : Event)
      → (m == menu_of ev) ≡ false
      → Move m
          (record { menus = w; around = around })
          (record { menus = step ev w; around = around })

pub data Reach (m : ℕ) (s : Track) : Track → Type 0 where
  here : Reach m s s
  next : {t u : Track} → Reach m s t → Move m t u → Reach m s u
