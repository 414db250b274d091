-- ===== src/Menus/Step/Opens.antt =====
-- What the mouse over an item opens and closes.
use nswall.Common.{
  ℕ, ◌≡◌, refl, ap, ◌∙◌, true, false, ◌==◌, none, some, List, [], ◌∷◌, arith, get_elem?, ◌⊎◌, inl,
  inr,
}
use nswall.Common.Texts.{text_eq, text_eq_refl}
use nswall.Menus.State.{Entry, Menu, Menus, contains, meets, update, each_at, indices_from}
use nswall.Menus.Create.{hide_one}
use nswall.Menus.Step.{
  show_one, is_sibling, kept_path, forget_retain, hide_superfish_ul, over, entered, has_ul_at, step,
}
use nswall.Menus.Indices.{get_elem?-update_self, get_elem?-each_at, contains-indices_from}

-- The item at `i` of the menu has the hover class, and its list is displayed.
abbrev pub IsOpen : ℕ → Menu → Type 0
IsOpen i u = (e : Entry) × (get_elem? u.entries i ≡ some e) × (e.hover ≡ true) × (e.shown ≡ true)

abbrev pub IsClosed : ℕ → Menu → Type 0
IsClosed i u =
    (e : Entry) × (get_elem? u.entries i ≡ some e) × (e.hover ≡ false) × (e.shown ≡ false)

-- The siblings of the item at `i`.
abbrev pub siblings : Menu → ℕ → List ℕ
siblings u i = indices_from (is_sibling u.entries (i ∷ [])) 0 u.entries

-- The menu `u` after the mouse came over its item at `i`, where its options do not retain the path.
abbrev pub opened : ℕ → Menu → Menu
opened i u = record u {
  pending = none;
  retain_path = false;
  entries = each_at (hide_one (siblings u i) []) 0 (each_at (show_one (i ∷ [])) 0 u.entries);
}

kept_lem :
    (m : ℕ) (w : Menus) (u : Menu)
    → get_elem? w.menus m ≡ some u
    → (u.retain_path ≡ false) ⊎ (u.path ≡ [])
    → kept_path m (record w { op = m }) ≡ []
unfolding kept_path
kept_lem m w u h (inl r) = rw (h, kept_path) (rw r refl)
kept_lem m w u h (inr r) = rw (h, kept_path) (ground (arith, r))

pub over_lem :
    (m i : ℕ) (w : Menus) (u : Menu)
    → get_elem? w.menus m ≡ some u
    → (u.retain_path ≡ false) ⊎ (u.path ≡ [])
    → get_elem? (over m (i ∷ []) w).menus m ≡ some (opened i u)
unfolding over hide_superfish_ul
over_lem m i w u h r =
    rw (h, over)
      (get_elem?-update_self m
          (λ x. record x {
            entries = each_at (hide_one (siblings u i) (kept_path m w1)) 0 x.entries;
          })
          (update m forget_retain w1.menus) (get_elem?-update_self m forget_retain w1.menus at)
        ∙ ap
            (λ ks. some (record (opened i u) {
              entries =
                  each_at (hide_one (siblings u i) ks) 0 (each_at (show_one (i ∷ [])) 0 u.entries);
            }))
            kept)
  where
    f : Menu → Menu
    f x = record x { pending = none; entries = each_at (show_one (i ∷ [])) 0 u.entries }

    w1 : Menus
    w1 = record w { op = m; menus = update m f w.menus }

    at : get_elem? w1.menus m ≡ some (f u)
    at = get_elem?-update_self m f w.menus h

    kept : kept_path m w1 ≡ []
    kept = kept_lem m w1 (f u) at r

-- An item after the mouse came over the one at `i`.
entry_lem :
    (i j : ℕ) (u : Menu) (d : Entry)
    → get_elem? u.entries j ≡ some d
    → get_elem? (opened i u).entries j ≡ some (hide_one (siblings u i) [] j (show_one (i ∷ []) j d))
entry_lem i j u d h =
    get_elem?-each_at (hide_one (siblings u i) []) 0 j j (each_at (show_one (i ∷ [])) 0 u.entries)
      (omega arith) (get_elem?-each_at (show_one (i ∷ [])) 0 j j u.entries (omega arith) h)

pub siblings_lem :
    (i j : ℕ) (u : Menu) (d : Entry)
    → get_elem? u.entries j ≡ some d
    → contains j (siblings u i) ≡ is_sibling u.entries (i ∷ []) j d
siblings_lem i j u d h =
    contains-indices_from (is_sibling u.entries (i ∷ [])) 0 j j u.entries (omega arith) h

opened-IsOpen :
    (i : ℕ) (u : Menu) (e : Entry)
    → get_elem? u.entries i ≡ some e
    → e.has_ul ≡ true
    → meets e.ancestors (siblings u i) ≡ false
    → IsOpen i (opened i u)
unfolding hide_one show_one is_sibling
opened-IsOpen i u e h y n =
    let c : contains i (siblings u i) ≡ false = siblings_lem i i u e h ∙ ground arith in
    (
      hide_one (siblings u i) [] i (show_one (i ∷ []) i e),
      entry_lem i i u e h,
      ground (arith, c, n),
      ground (arith, c, n, y),
    )

opened-IsClosed :
    (i j : ℕ) (u : Menu) (e d : Entry)
    → get_elem? u.entries i ≡ some e
    → get_elem? u.entries j ≡ some d
    → (j == i) ≡ false
    → d.ancestors ≡ e.ancestors
    → IsClosed j (opened i u)
unfolding hide_one show_one is_sibling
opened-IsClosed i j u e d h k n a =
    let same : text_eq e.ancestors d.ancestors ≡ true =
      ap (text_eq e.ancestors) a ∙ text_eq_refl e.ancestors in
    let c : contains j (siblings u i) ≡ true = siblings_lem i j u d k ∙ rw (h, n, same) refl in
    (
      hide_one (siblings u i) [] j (show_one (i ∷ []) j d),
      entry_lem i j u d k,
      ground (arith, c),
      ground (arith, c),
    )

-- Where the path of a menu is not to be retained, and no item around the one at `i` is a sibling of it:
-- after the mouse came over that item, which has a list, it has the hover class and its list is
-- displayed, and a sibling of it, at `j`, has neither, whether it was open before or not.
pub entered_opens :
    (m i j : ℕ) (w : Menus) (u : Menu) (e d : Entry)
    → get_elem? w.menus m ≡ some u
    → u.retain_path ≡ false
    → get_elem? u.entries i ≡ some e
    → e.has_ul ≡ true
    → meets e.ancestors (siblings u i) ≡ false
    → get_elem? u.entries j ≡ some d
    → (j == i) ≡ false
    → d.ancestors ≡ e.ancestors
    → (x : Menu) × (get_elem? (step (entered m i) w).menus m ≡ some x) × IsOpen i x × IsClosed j x
unfolding step
entered_opens m i j w u e d a r h y n k l b =
    let found : has_ul_at m i w ≡ true = rw (a, h, has_ul_at) y in
    (
      opened i u,
      rw (found, step) (over_lem m i w u a (inl r)),
      opened-IsOpen i u e h y n,
      opened-IsClosed i j u e d h k l b,
    )
