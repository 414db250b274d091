-- ===== src/Menus/Create/Shows.antt =====
-- What a new menu shows.
use nswall.Common.{
  ℕ, ◌≡◌, false, not, ◌&&◌, none, some, List, [], arith, get_elem?, get_elem?-append_last,
}
use nswall.Menus.State.{Entry, Menu, Menus, contains, meets, each_at, indices_from}
use nswall.Menus.Create.{path_from, mark_path, is_closed, hide_one, superfish}
use nswall.Menus.Indices.{get_elem?-each_at, contains-indices_from}

-- An item as the server sends it: no list is displayed where there is none.
abbrev pub IsSent : Entry → Type 0
IsSent e = (e.hover ≡ false) × (e.breadcrumb ≡ false) × ((e.shown && not e.has_ul) ≡ false)

-- The lists of the new menu that are closed: those off the path of the page.
abbrev pub closed : ℕ → List Entry → List ℕ
closed levels es = indices_from is_closed 0 (each_at (mark_path (path_from levels 0 es)) 0 es)

-- The item `x` is on the path and within no closed list exactly if it has the hover class, and its list
-- is then displayed if the server sent it so.
abbrev pub ShowsPath : ℕ → List Entry → ℕ → Entry → Entry → Type 0
ShowsPath levels es i e x =
    let on = contains i (path_from levels 0 es) && not (meets e.ancestors (closed levels es)) in
    (x.hover ≡ on) × (x.shown ≡ (on && e.shown))

item_lem :
    (path shut : List ℕ) (i : ℕ) (e : Entry)
    → IsSent e
    → contains i shut ≡ is_closed i (mark_path path i e)
    → let x = hide_one shut [] i (mark_path path i e) in
      let on = contains i path && not (meets e.ancestors shut) in
      (x.hover ≡ on) × (x.shown ≡ (on && e.shown))
unfolding mark_path hide_one
item_lem path shut i e (a, b, c) h = (ground (arith, a, b, c, h), ground (arith, a, b, c, h))

pub superfish_lem :
    (levels i : ℕ) (es : List Entry) (w : Menus) (e : Entry)
    → get_elem? es i ≡ some e
    → IsSent e
    → let w1 = superfish levels es w in
      (u : Menu) × (x : Entry) × (get_elem? w1.menus w1.op ≡ some u)
      × (get_elem? u.entries i ≡ some x)
      × ShowsPath levels es i e x
unfolding superfish
superfish_lem levels i es w e h v =
    let path = path_from levels 0 es in
    let marked = each_at (mark_path path) 0 es in
    let at : get_elem? marked i ≡ some (mark_path path i e) =
      get_elem?-each_at (mark_path path) 0 i i es (omega arith) h in
    let shut = closed levels es in
    let u : Menu = record {
      entries = each_at (hide_one shut []) 0 marked;
      path = path;
      retain_path = false;
      pending = none;
    } in
    (
      u,
      hide_one shut [] i (mark_path path i e),
      get_elem?-append_last w.menus u,
      get_elem?-each_at (hide_one shut []) 0 i i marked (omega arith) at,
      item_lem path shut i e v (contains-indices_from is_closed 0 i i marked (omega arith) at),
    )
