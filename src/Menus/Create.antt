-- ===== src/Menus/Create.antt =====
-- What the plugin does with a menu when it is made: the path of the current page, and the hiding of what
-- is not on it.
pub mod Shows
use nswall.Common.{
  ℕ, zero, suc, Bool, true, false, not, ◌||◌, ◌&&◌, Option, none, List, [], ◌∷◌, ◌++◌,
  if◌then◌else◌, length,
}
use nswall.Menus.State.{Entry, Menu, Menus, contains, meets, each_at, indices_from}

-- The items with the class of the path, at most `levels` of them; the first item has the index `k`.
unfoldable pub path_from : ℕ → ℕ → List Entry → List ℕ
path_from levels k [] = []
path_from zero k (e ∷ es) = []
path_from (suc levels) k (e ∷ es) =
    let later = path_from levels (suc k) es in
    let same = path_from (suc levels) (suc k) es in if e.on_path then k ∷ later else same

-- The loop over `$path`.
unfoldable pub mark_path : List ℕ → ℕ → Entry → Entry
mark_path path i e =
    if contains i path
    then record e { hover = true; breadcrumb = true; on_path = e.on_path && not e.has_ul }
    else e

-- `hideSuperfishUl` on the items `targets`, for one item: those of them that are not kept, and the
-- hovered items within them.
unfoldable pub hide_one : List ℕ → List ℕ → ℕ → Entry → Entry
hide_one targets keep i e =
    if (contains i targets || (e.hover && meets e.ancestors targets)) && not (contains i keep)
    then record e { hover = false; shown = false }
    else e

-- The items that `li:has(ul)` finds and that are not breadcrumbs.
abbrev pub is_closed : ℕ → Entry → Bool
is_closed i e = e.has_ul && not e.breadcrumb

-- The body of the plugin for one menu, whose options are then the current ones.
unfoldable pub superfish : ℕ → List Entry → Menus → Menus
unfolding path_from mark_path hide_one indices_from
superfish levels entries w =
    let path = path_from levels 0 entries in
    let marked = each_at (mark_path path) 0 entries in
    record w {
      menus =
          w.menus
          ++ record {
            entries = each_at (hide_one (indices_from is_closed 0 marked) []) 0 marked;
            path = path;
            retain_path = false;
            pending = none;
          }
            ∷ [];
      op = length w.menus;
    }
