-- ===== src/Menus/Examples.antt =====
-- The theorems on the menus at a menu of two items with lists.
use nswall.Common.{
  ℕ, zero, suc, ◌≡◌, refl, sym, ap, some_inj, inl, inr, Bool, true, false, none, some, List, [],
  ◌∷◌, get_elem?,
}
use nswall.Common.Texts.{text_eq}
use nswall.Menus.State.{Entry, Menu, Menus, contains, indices_from}
use nswall.Menus.Create.{superfish, path_from, mark_path, hide_one}
use nswall.Menus.Step.{
  entered, timer_fires, step, is_sibling, left, over, hide_superfish_ul, kept_path, show_one,
}
use nswall.Menus.Mouse.{IsItem, enters, leaves, here, next}
use nswall.Menus.Mouse.Under.{IsRooted}
use nswall.Menus.Mouse.Away.{IsShut, away_closes}
use nswall.Common.Every.{Every}
use nswall.Menus.Step.Agrees.{AllAgree, step-AllAgree}
use nswall.Menus.Step.Opens.{opened, IsOpen, IsClosed, entered_opens}

abbrev entry : List ℕ → Bool → Bool → Entry
entry ancestors has_ul is_open = record {
  ancestors = ancestors;
  has_ul = has_ul;
  hover = is_open;
  shown = is_open;
  breadcrumb = false;
  on_path = false;
}

-- The first item is open.
abbrev menu : Menu
menu = record {
  entries =
      entry [] true true
      ∷ entry (0 ∷ []) false false
      ∷ entry [] true false
      ∷ entry (2 ∷ []) false false
      ∷ [];
  path = [];
  retain_path = false;
  pending = some (0 ∷ []);
}

abbrev menus : Menus
menus = record { menus = menu ∷ []; op = 0 }

step-AllAgree_example : AllAgree (step (timer_fires 0) menus)
step-AllAgree_example = step-AllAgree (timer_fires 0) menus ((refl, (refl, (refl, (refl, tt)))), tt)

entered_opens_example :
    (x : Menu) × (get_elem? (step (entered 0 2) menus).menus 0 ≡ some x) × IsOpen 2 x × IsClosed 0 x
unfolding is_sibling text_eq indices_from
entered_opens_example =
    entered_opens 0 2 0 menus menu (entry [] true false) (entry [] true true) refl refl refl refl
      refl refl refl refl

-- The page that the second item leads to.
abbrev sent : List Entry
sent =
    record (entry [] true false) { shown = true }
    ∷ entry (0 ∷ []) false false
    ∷ record (entry [] true false) { shown = true; on_path = true }
    ∷ []

abbrev sent_item : Entry
sent_item = record (entry [] true false) { shown = true; on_path = true }

-- A page of a menu with two items at the top, of which the first has a list of one item.
abbrev plain : List Entry
plain = entry [] true false ∷ entry (0 ∷ []) false false ∷ entry [] false false ∷ []

plain-IsRooted :
    IsRooted (record { entries = plain; path = []; retain_path = false; pending = none })
plain-IsRooted zero e h = inl (ap (λ (x : Entry). x.ancestors) (sym (some_inj h)))
plain-IsRooted (suc zero) e h = inr (
  0,
  ap (λ (x : Entry). contains 0 x.ancestors) (sym (some_inj h)),
  (entry [] true false, refl, refl),
)
plain-IsRooted (suc (suc zero)) e h = inl (ap (λ (x : Entry). x.ancestors) (sym (some_inj h)))
plain-IsRooted (suc (suc (suc k))) e h = cc

abbrev no_menus : Menus
no_menus = record { menus = []; op = 0 }

abbrev made : Menus
made = superfish 1 plain no_menus

abbrev first_menu : Menu
first_menu = record { entries = plain; path = []; retain_path = false; pending = none }

on_first : IsItem 0 0 [] made
unfolding superfish indices_from path_from mark_path hide_one
on_first = record {
  menu = first_menu;
  has_menu = refl;
  entry = entry [] true false;
  has_entry = refl;
  has_ul = refl;
  directly = refl;
}

still_on_first : IsItem 0 0 [] (step (entered 0 0) made)
unfolding step over hide_superfish_ul kept_path show_one is_sibling superfish indices_from path_from
    mark_path hide_one text_eq
still_on_first = record {
  menu = opened 0 first_menu;
  has_menu = refl;
  entry = entry [] true true;
  has_entry = refl;
  has_ul = refl;
  directly = refl;
}

-- The mouse goes over the first item and away.
away_closes_example :
    (u : Menu) × (get_elem?
        (step (timer_fires 0) (step (left 0 0) (step (entered 0 0) made))).menus
        0
      ≡ some u)
    × Every IsShut u.entries
away_closes_example =
    away_closes 1 plain no_menus (step (left 0 0) (step (entered 0 0) made))
      (record {
        unmarked = ((refl, refl), ((refl, refl), ((refl, refl), tt)));
        rooted = plain-IsRooted;
      })
      (next (next here (enters made 0 [] on_first))
        (leaves (step (entered 0 0) made) 0 [] still_on_first))
