-- ===== src/Menus/Mouse/Away.antt =====
-- Once the mouse is away and the timer has fired, nothing is open.
use nswall.Common.{
  ℕ, ◌≡◌, refl, ap, sym, ◌∙◌, subst, inr, true, false, Option, none, some, List, [], ◌∷◌, arith,
  get_elem?, some_inj, zero, suc, length, get_elem?-append_last,
}
use nswall.Menus.State.{Entry, Menu, Menus, each_at, indices_from}
use nswall.Menus.Create.{hide_one, mark_path, is_closed, path_from, superfish}
use nswall.Menus.Step.{timer_fires, step, out, close, has_ul_at}
use nswall.Menus.Indices.{get_elem?-update_self, get_elem?-each_at_back}
use nswall.Menus.Step.Opens.{opened, over_lem}
use nswall.Menus.Mouse.{Track, IsItem, Move, enters, leaves, fires, elsewhere, Reach, here, next}
use nswall.Menus.Mouse.Others.{step-Alike}
use nswall.Menus.Mouse.Under.{NoneOpen, IsRooted, changed-IsRooted, closed}
use nswall.Common.Every.{Every, Every-of_get_elem?, Every-get_elem?}
use nswall.Menus.Mouse.Tracks.{
  OpenAs, opened-Tracked, left-Tracked, closed-Tracked, alike-Tracked, close-Alike, IsTracked,
}

-- The menus after the timer of menu `m` fired for what was pending.
abbrev fired : ℕ → Option (List ℕ) → Menus → Menus
fired m o w = elim o [ none ↦ w | some items ↦ close m items w ]

fires_lem :
    (m : ℕ) (w : Menus) (u : Menu)
    → get_elem? w.menus m ≡ some u
    → step (timer_fires m) w ≡ fired m u.pending w
unfolding step
fires_lem m w u h = rw (h, step) refl

fires-IsTracked :
    (m : ℕ) (around : List ℕ) (w : Menus)
    → IsTracked m (record { menus = w; around = around })
    → IsTracked m (record { menus = step (timer_fires m) w; around = around })
fires-IsTracked m around w (u, h, v) =
    subst (λ x. IsTracked m (record { menus = x; around = around })) (sym (fires_lem m w u h))
      (go u.pending refl)
  where
    go :
        (o : Option (List ℕ))
        → u.pending ≡ o
        → IsTracked m (record { menus = fired m o w; around = around })
    go none q = (u, h, v)
    go (some items) q =
        let a = close-Alike m items w u h v.no_path in
        (
          a.menu,
          a.at,
          alike-Tracked around a.menu (closed items u) a.entries a.path a.pending
              (closed-Tracked items around u q v),
        )

-- The item that a move names, in the menu that is tracked.
item_lem :
    (m i : ℕ) (around : List ℕ) (w : Menus) (u : Menu) (v : IsItem m i around w)
    → get_elem? w.menus m ≡ some u
    → (get_elem? u.entries i ≡ some v.entry) × (has_ul_at m i w ≡ true)
item_lem m i around w u v h =
    let same : v.menu ≡ u = some_inj (sym v.has_menu ∙ h) in
    (
      ap (λ (x : Menu). get_elem? x.entries i) (sym same) ∙ v.has_entry,
      rw (v.has_menu, v.has_entry, has_ul_at) v.has_ul,
    )

-- Each move keeps it.
Move-IsTracked : {m : ℕ} {s t : Track} → Move m s t → IsTracked m s → IsTracked m t
unfolding step out
Move-IsTracked {m} (enters w i around v) (u, h, k) =
    let (at, found) = item_lem m i around w u v h in
    (
      opened i u,
      rw (found, step) (over_lem m i w u h (inr k.no_path)),
      opened-Tracked i around u v.entry at v.directly k,
    )
Move-IsTracked {m} (leaves w i around v) (u, h, k) =
    let (at, found) = item_lem m i around w u v h in
    (
      record u { pending = some (i ∷ []) },
      rw (found, step)
          (get_elem?-update_self m (λ x. record x { pending = some (i ∷ []) }) w.menus h),
      left-Tracked i around u k,
    )
Move-IsTracked {m} (fires w around) k = fires-IsTracked m around w k
Move-IsTracked {m} (elsewhere w around ev n) (u, h, k) =
    let a =
      step-Alike m u ev w n
        (record { menu = u; at = h; entries = refl; path = refl; pending = refl }) in
    (a.menu, a.at, alike-Tracked around a.menu u a.entries a.path a.pending k)

Reach-IsTracked : {m : ℕ} {s t : Track} → IsTracked m s → Reach m s t → IsTracked m t
Reach-IsTracked k here = k
Reach-IsTracked k (next r move) = Move-IsTracked move (Reach-IsTracked k r)

abbrev pub IsShut : Entry → Type 0
IsShut e = e.hover ≡ false

fired-IsShut :
    (m : ℕ) (w : Menus)
    → IsTracked m (record { menus = w; around = [] })
    → (u : Menu) × (get_elem? (step (timer_fires m) w).menus m ≡ some u) × Every IsShut u.entries
fired-IsShut m w (u, h, v) =
    subst (λ x. (y : Menu) × (get_elem? x.menus m ≡ some y) × Every IsShut y.entries)
      (sym (fires_lem m w u h)) (go u.pending refl)
  where
    shut : (y : Menu) → NoneOpen y → Every IsShut y.entries
    shut y n = Every-of_get_elem? IsShut y.entries n

    go :
        (o : Option (List ℕ))
        → u.pending ≡ o
        → (y : Menu) × (get_elem? (fired m o w).menus m ≡ some y) × Every IsShut y.entries
    go none q = (u, h, shut u (subst (λ o. OpenAs [] (record u { pending = o })) q v.opens))
    go (some items) q =
        let a = close-Alike m items w u h v.no_path in
        let done = closed-Tracked items [] u q v in
        (a.menu, a.at, subst (Every IsShut) (sym a.entries) (shut (closed items u) done.opens))

-- The items of a page for a new menu: sent without the hover class, on no path, and in a tree.
pub record IsFresh (es : List Entry) : Type 0 where
  pub unmarked : Every (λ e. (e.hover ≡ false) × (e.on_path ≡ false)) es
  pub rooted : IsRooted (record { entries = es; path = []; retain_path = false; pending = none })

pub no_path :
    (levels k : ℕ) (es : List Entry)
    → Every (λ e. (e.hover ≡ false) × (e.on_path ≡ false)) es
    → path_from levels k es ≡ []
unfolding path_from
no_path levels k [] v = refl
no_path zero k (e ∷ es) v = refl
no_path (suc levels) k (e ∷ es) v =
    let ih = no_path (suc levels) (suc k) es v.1 in ground (arith, v.0, ih)

superfish-IsTracked :
    (levels : ℕ) (es : List Entry) (w : Menus)
    → IsFresh es
    → IsTracked (length w.menus) (record { menus = superfish levels es w; around = [] })
unfolding superfish mark_path hide_one
superfish-IsTracked levels es w v = (
  u,
  get_elem?-append_last w.menus u,
  record {
    no_path = none_on;
    rooted =
        changed-IsRooted (hide_one shut []) marked u (λ k d. ground arith) refl
          (changed-IsRooted (mark_path path) sent marked (λ k d. ground arith) refl v.rooted);
    opens = none_open;
  },
)
  where
    path : List ℕ
    path = path_from levels 0 es

    none_on : path ≡ []
    none_on = no_path levels 0 es v.unmarked

    sent : Menu
    sent = record { entries = es; path = []; retain_path = false; pending = none }

    marked : Menu
    marked = record sent { entries = each_at (mark_path path) 0 es }

    shut : List ℕ
    shut = indices_from is_closed 0 marked.entries

    u : Menu
    u = record {
      entries = each_at (hide_one shut []) 0 marked.entries;
      path = path;
      retain_path = false;
      pending = none;
    }

    none_open : NoneOpen u
    none_open k x e =
        let (y, at, q) =
          get_elem?-each_at_back (hide_one shut []) 0 k k marked.entries (omega arith) e in
        let (d, has, r) = get_elem?-each_at_back (mark_path path) 0 k k es (omega arith) at in
        let was = (Every-get_elem? _ es k d v.unmarked has).0 in
        let marked_same : (mark_path path k d).hover ≡ false =
          subst (λ l. (mark_path l k d).hover ≡ false) (sym none_on) was in
        ap (λ (z : Entry). z.hover) (q ∙ ap (hide_one shut [] k) r) ∙ ground (arith, marked_same)

-- In a menu that is made for a page that is none of its items': whatever way the mouse takes through
-- its items, whenever its timer fires, and whatever happens in other menus, once the mouse is in none of
-- its items with lists and the timer fires, no item of it has the hover class.
pub away_closes :
    (levels : ℕ) (es : List Entry) (w w1 : Menus)
    → IsFresh es
    → Reach
        (length w.menus)
        (record { menus = superfish levels es w; around = [] })
        (record { menus = w1; around = [] })
    → (u : Menu) × (get_elem? (step (timer_fires (length w.menus)) w1).menus (length w.menus)
        ≡ some u)
      × Every IsShut u.entries
away_closes levels es w w1 v r =
    fired-IsShut (length w.menus) w1 (Reach-IsTracked (superfish-IsTracked levels es w v) r)
