-- ===== src/Menus/Mouse/Tracks.antt =====
-- Where the mouse is, and what is open: what each move keeps.
use nswall.Common.{
  ℕ, ◌≡◌, refl, ap, sym, ◌∙◌, subst, inl, inr, true, ◌==◌, none, some, List, [], ◌∷◌, arith,
  get_elem?, Bool-cases, Option-cases, some_inj,
}
use nswall.Menus.State.{Entry, Menu, Menus, contains, update, each_at}
use nswall.Menus.Create.{hide_one}
use nswall.Menus.Step.{
  close, show_path, hide_superfish_ul, kept_path, forget_retain, is_first_of, show_one,
}
use nswall.Menus.Indices.{get_elem?-update_self}
use nswall.Menus.Step.Opens.{opened, siblings}
use nswall.Menus.Mouse.{Track}
use nswall.Menus.Mouse.Others.{Alike, forget_lem}
use nswall.Menus.Mouse.Under.{
  UnderOne, NoneOpen, IsRooted, changed-IsRooted, opened-UnderOne_top, opened-UnderOne, closed,
  closed-UnderOne, closed-NoneOpen,
}

-- The last of a list that begins with `i`: the outermost of the items around the mouse.
abbrev pub last_of : ℕ → List ℕ → ℕ
last_of i [] = i
last_of i (j ∷ js) = last_of j js

-- What is open is under the outermost item around the mouse; or, where the mouse is in none, under the
-- one item that the timer is to close, or nothing.
abbrev pub OpenAs : List ℕ → Menu → Type 0
OpenAs [] u = elim u.pending [
  | none ↦ NoneOpen u
  | some items ↦ (c : ℕ) × (items ≡ c ∷ []) × UnderOne c u
]
OpenAs (i ∷ around) u = UnderOne (last_of i around) u

pub record Tracked (around : List ℕ) (u : Menu) : Type 0 where
  pub no_path : u.path ≡ []
  pub rooted : IsRooted u
  pub opens : OpenAs around u

contains-last_of : (i : ℕ) (js : List ℕ) → contains (last_of i js) (i ∷ js) ≡ true
contains-last_of i [] = ground arith
contains-last_of i (j ∷ js) = let ih = contains-last_of j js in ground (arith, ih)

pub opened-Tracked :
    (i : ℕ) (around : List ℕ) (u : Menu) (e : Entry)
    → get_elem? u.entries i ≡ some e
    → e.ancestors ≡ around
    → Tracked around u
    → Tracked (i ∷ around) (opened i u)
unfolding show_one hide_one
opened-Tracked i around u e h a v = record {
  no_path = v.no_path;
  rooted =
      changed-IsRooted (hide_one (siblings u i) [])
        (record u { entries = each_at (show_one (i ∷ [])) 0 u.entries }) (opened i u)
        (λ k d. ground arith) refl
        (changed-IsRooted (show_one (i ∷ [])) u
          (record u { entries = each_at (show_one (i ∷ [])) 0 u.entries }) (λ k d. ground arith)
          refl v.rooted);
  opens = go around a v.opens;
}
  where
    go : (l : List ℕ) → e.ancestors ≡ l → OpenAs l u → OpenAs (i ∷ l) (opened i u)
    go [] q o = opened-UnderOne_top i u v.rooted (e, h, q)
    go (j ∷ js) q o = opened-UnderOne (last_of j js) i u e o h (
        let found : contains (last_of j js) e.ancestors ≡ true =
          ap (contains (last_of j js)) q ∙ contains-last_of j js in
        ground (arith, found))

pub left-Tracked :
    (i : ℕ) (around : List ℕ) (u : Menu)
    → Tracked (i ∷ around) u
    → Tracked around (record u { pending = some (i ∷ []) })
left-Tracked i around u v = record {
  no_path = v.no_path;
  rooted = v.rooted;
  opens = go around v.opens;
}
  where
    go : (l : List ℕ) → OpenAs (i ∷ l) u → OpenAs l (record u { pending = some (i ∷ []) })
    go [] o = (i, refl, o)
    go (j ∷ js) o = o

pub closed-Tracked :
    (items around : List ℕ) (u : Menu)
    → u.pending ≡ some items
    → Tracked around u
    → Tracked around (closed items u)
unfolding hide_one
closed-Tracked items around u p v = record {
  no_path = v.no_path;
  rooted =
      changed-IsRooted (hide_one items []) u (closed items u) (λ k d. ground arith) refl v.rooted;
  opens = go around v.opens;
}
  where
    go : (l : List ℕ) → OpenAs l u → OpenAs l (closed items u)
    go [] o =
        let (c, q, w) = subst (λ x. OpenAs [] (record u { pending = x })) p o in
        subst (λ l. NoneOpen (closed l u)) (sym q) (closed-NoneOpen c u w)
    go (j ∷ js) o = closed-UnderOne (last_of j js) items u o

-- The same but for the flag.
pub alike-Tracked :
    (around : List ℕ) (x u : Menu)
    → x.entries ≡ u.entries
    → x.path ≡ u.path
    → x.pending ≡ u.pending
    → Tracked around u
    → Tracked around x
alike-Tracked around x u e p q v = record {
  no_path = p ∙ v.no_path;
  rooted = subst (λ es. IsRooted (record x { entries = es })) (sym e) v.rooted;
  opens = go around v.opens;
}
  where
    go : (l : List ℕ) → OpenAs l u → OpenAs l x
    go [] o =
        subst (λ es. OpenAs [] (record x { entries = es })) (sym e)
          (subst (λ y. OpenAs [] (record x { entries = u.entries; pending = y })) (sym q) o)
    go (j ∷ js) o = subst (λ es. UnderOne (last_of j js) (record x { entries = es })) (sym e) o

kept_none :
    (m : ℕ) (w : Menus) (u : Menu) → get_elem? w.menus m ≡ some u → u.path ≡ [] → kept_path m w ≡ []
unfolding kept_path
kept_none m w u h n = elim (Option-cases (get_elem? w.menus w.op)) [
  | inl e ↦ rw (e, kept_path) refl
  | inr (o, e) ↦
      rw (e, kept_path)
        (elim (Bool-cases (w.op == m)) [
          | inl same ↦
              let at : w.op ≡ m = ground (arith, same) in
              let equal : o ≡ u = some_inj (sym e ∙ ap (get_elem? w.menus) at ∙ h) in
              let none_there : o.path ≡ [] = ap (λ (x : Menu). x.path) equal ∙ n in
              ground (arith, same, none_there)
          | inr differs ↦ ground (arith, differs)
        ])
]

show_path_lem :
    (m : ℕ) (items : List ℕ) (w : Menus) (u : Menu)
    → get_elem? w.menus m ≡ some u
    → u.path ≡ []
    → show_path m items w ≡ w
unfolding show_path
show_path_lem m items w u h n = rw (h, show_path) (rw n refl)

pub close-Alike :
    (m : ℕ) (items : List ℕ) (w : Menus) (u : Menu)
    → get_elem? w.menus m ≡ some u
    → u.path ≡ []
    → Alike m (closed items u) (close m items w)
unfolding close hide_superfish_ul
close-Alike m items w u h n =
    subst (Alike m (closed items u)) (sym (show_path_lem m items w2 (g a.menu) at2 (a.path ∙ n)))
      (record {
        menu = g a.menu;
        at = at2;
        entries =
            ap (λ ks. each_at (hide_one items ks) 0 a.menu.entries) (kept_none m w1 (f u) at1 n)
            ∙ ap (each_at (hide_one items []) 0) a.entries;
        path = a.path;
        pending = a.pending;
      })
  where
    f : Menu → Menu
    f x = record x { pending = none; retain_path = is_first_of items x.path }

    w1 : Menus
    w1 = record w { menus = update m f w.menus }

    at1 : get_elem? w1.menus m ≡ some (f u)
    at1 = get_elem?-update_self m f w.menus h

    forgot : Menus
    forgot = record w1 { menus = update w1.op forget_retain w1.menus }

    a : Alike m (f u) forgot
    a =
        forget_lem m (f u) w1
          (record { menu = f u; at = at1; entries = refl; path = refl; pending = refl })

    g : Menu → Menu
    g x = record x { entries = each_at (hide_one items (kept_path m w1)) 0 x.entries }

    w2 : Menus
    w2 = hide_superfish_ul m items w1

    at2 : get_elem? w2.menus m ≡ some (g a.menu)
    at2 = get_elem?-update_self m g forgot.menus a.at

-- The menu `m` where the mouse is within `around` of its items with lists.
abbrev pub IsTracked : ℕ → Track → Type 0
IsTracked m t = (u : Menu) × (get_elem? t.menus.menus m ≡ some u) × Tracked t.around u
