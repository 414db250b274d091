-- ===== src/Menus/Mouse/Under.antt =====
-- Items of a menu within one item at the top.
use nswall.Common.{
  ℕ, ◌≡◌, refl, ap, sym, ◌∙◌, subst, ◌⊎◌, inl, inr, true, false, ◌||◌, ◌==◌, none, some, List, [],
  ◌∷◌, arith, get_elem?, Bool-cases, some_inj,
}
use nswall.Common.Texts.{text_eq}
use nswall.Menus.State.{Entry, Menu, contains, meets, each_at}
use nswall.Menus.Create.{hide_one}
use nswall.Menus.Step.{show_one, is_sibling, is_first_of}
use nswall.Menus.Indices.{get_elem?-each_at, get_elem?-each_at_back}
use nswall.Menus.Step.Opens.{siblings, opened, siblings_lem}

-- The item `e` at `k` is the one at `c`, or within it.
abbrev pub IsUnder : ℕ → ℕ → Entry → Type 0
IsUnder c k e = ((k == c) || contains c e.ancestors) ≡ true

-- Every item with the hover class is under the one at `c`.
abbrev pub UnderOne : ℕ → Menu → Type 0
UnderOne c u = (k : ℕ) (e : Entry) → get_elem? u.entries k ≡ some e → e.hover ≡ true → IsUnder c k e

abbrev pub NoneOpen : Menu → Type 0
NoneOpen u = (k : ℕ) (e : Entry) → get_elem? u.entries k ≡ some e → e.hover ≡ false

-- The item at `t` is one of the top.
abbrev pub IsTop : Menu → ℕ → Type 0
IsTop u t = (d : Entry) × (get_elem? u.entries t ≡ some d) × (d.ancestors ≡ [])

-- Each item is at the top or within one of the top.
abbrev pub IsRooted : Menu → Type 0
IsRooted u =
    (k : ℕ) (e : Entry)
    → get_elem? u.entries k ≡ some e
    → (e.ancestors ≡ []) ⊎ ((t : ℕ) × (contains t e.ancestors ≡ true) × IsTop u t)

meets_of_contains :
    (t : ℕ) (xs bs : List ℕ) → contains t xs ≡ true → contains t bs ≡ true → meets xs bs ≡ true
meets_of_contains t [] bs h k = cc
meets_of_contains t (a ∷ xs) bs h k = elim (Bool-cases (t == a)) [
  | inl e ↦
      let same : t ≡ a = ground (arith, e) in
      ground (arith, subst (λ x. contains x bs ≡ true) same k)
  | inr e ↦ let ih = meets_of_contains t xs bs (ground (arith, e, h)) k in ground (arith, ih)
]

-- Where a change keeps the items around each item, the menu stays rooted.
pub changed-IsRooted :
    (f : ℕ → Entry → Entry) (u v : Menu)
    → ((k : ℕ) (e : Entry) → (f k e).ancestors ≡ e.ancestors)
    → v.entries ≡ each_at f 0 u.entries
    → IsRooted u
    → IsRooted v
changed-IsRooted f u v keeps same h k x e =
    let (y, at, q) =
      get_elem?-each_at_back f 0 k k u.entries (omega arith)
        (ap (λ es. get_elem? es k) (sym same) ∙ e) in
    let around : x.ancestors ≡ y.ancestors = ap (λ (z : Entry). z.ancestors) q ∙ keeps k y in
    elim (h k y at) [
      | inl top ↦ inl (around ∙ top)
      | inr (t, c, (d, has, top)) ↦ inr (
        t,
        ap (contains t) around ∙ c,
        (
          f t d,
          ap (λ es. get_elem? es t) same ∙ get_elem?-each_at f 0 t t u.entries (omega arith) has,
          keeps t d ∙ top,
        ),
      )
    ]

-- What is hovered once the mouse came over the item at `i`.
opened_hover :
    (i k : ℕ) (u : Menu) (x : Entry)
    → get_elem? (opened i u).entries k ≡ some x
    → x.hover ≡ true
    → (d : Entry) × (get_elem? u.entries k ≡ some d)
      × (x.ancestors ≡ d.ancestors)
      × (contains k (siblings u i) ≡ false)
      × (meets d.ancestors (siblings u i) ≡ false)
      × ((k ≡ i) ⊎ (d.hover ≡ true))
unfolding hide_one show_one
opened_hover i k u x e h =
    let (y, at, q) =
      get_elem?-each_at_back (hide_one (siblings u i) []) 0 k k
        (each_at (show_one (i ∷ [])) 0 u.entries) (omega arith) e in
    let (d, has, r) = get_elem?-each_at_back (show_one (i ∷ [])) 0 k k u.entries (omega arith) at in
    let s : x ≡ hide_one (siblings u i) [] k (show_one (i ∷ []) k d) =
      q ∙ ap (hide_one (siblings u i) [] k) r in
    let open_after : (hide_one (siblings u i) [] k (show_one (i ∷ []) k d)).hover ≡ true =
      ap (λ (z : Entry). z.hover) (sym s) ∙ h in
    (
      d,
      has,
      ap (λ (z : Entry). z.ancestors) s ∙ ground arith,
      ground (arith, open_after),
      ground (arith, open_after),
      ground (arith, open_after),
    )

-- An item of the top that is not the one at `i` is a sibling of that.
top_sibling :
    (i t : ℕ) (u : Menu)
    → IsTop u i
    → IsTop u t
    → (t == i) ≡ false
    → contains t (siblings u i) ≡ true
unfolding is_sibling text_eq
top_sibling i t u (e, h, a) (d, k, b) n =
    siblings_lem i t u d k ∙ rw (h, is_sibling) (rw (n, a, b) refl)

-- The mouse over an item of the top leaves nothing open elsewhere.
pub opened-UnderOne_top : (i : ℕ) (u : Menu) → IsRooted u → IsTop u i → UnderOne i (opened i u)
opened-UnderOne_top i u r top k x e h =
    let (d, has, around, out, apart, or_was) = opened_hover i k u x e h in
    elim (Bool-cases (k == i)) [
      | inl same ↦ ground (arith, same)
      | inr differs ↦ elim (r k d has) [
        | inl at_top ↦
            let c = top_sibling i k u top (d, has, at_top) differs in ground (arith, c, out)
        | inr (t, c, of_top) ↦ elim (Bool-cases (t == i)) [
          | inl same ↦
              let equal : t ≡ i = ground (arith, same) in
              let found : contains i x.ancestors ≡ true =
                ap (contains i) around ∙ subst (λ y. contains y d.ancestors ≡ true) equal c in
              ground (arith, found)
          | inr n ↦
              let both =
                meets_of_contains t d.ancestors (siblings u i) c (top_sibling i t u top of_top n) in
              ground (arith, both, apart)
        ]
      ]
    ]

-- Over an item under `c` it leaves all under `c`.
pub opened-UnderOne :
    (c i : ℕ) (u : Menu) (e : Entry)
    → UnderOne c u
    → get_elem? u.entries i ≡ some e
    → IsUnder c i e
    → UnderOne c (opened i u)
opened-UnderOne c i u e v has under k x at h =
    let (d, was, around, out, apart, or_was) = opened_hover i k u x at h in
    ap (λ l. (k == c) || contains c l) around ∙ (elim or_was [
      | inl same ↦
          let entry : d ≡ e = some_inj (sym was ∙ ap (get_elem? u.entries) same ∙ has) in
          subst (λ y. ((k == c) || contains c y.ancestors) ≡ true) (sym entry)
            (subst (λ j. ((j == c) || contains c e.ancestors) ≡ true) (sym same) under)
      | inr open_before ↦ v k d was open_before
    ])

-- The menu after its timer closed `items`.
abbrev pub closed : List ℕ → Menu → Menu
closed items u = record u {
  pending = none;
  retain_path = is_first_of items u.path;
  entries = each_at (hide_one items []) 0 u.entries;
}

closed_hover :
    (items : List ℕ) (k : ℕ) (u : Menu) (x : Entry)
    → get_elem? (closed items u).entries k ≡ some x
    → x.hover ≡ true
    → (d : Entry) × (get_elem? u.entries k ≡ some d)
      × (x.ancestors ≡ d.ancestors)
      × (d.hover ≡ true)
      × (contains k items ≡ false)
      × (meets d.ancestors items ≡ false)
unfolding hide_one
closed_hover items k u x e h =
    let (d, has, q) = get_elem?-each_at_back (hide_one items []) 0 k k u.entries (omega arith) e in
    let after : (hide_one items [] k d).hover ≡ true = ap (λ (z : Entry). z.hover) (sym q) ∙ h in
    (
      d,
      has,
      ap (λ (z : Entry). z.ancestors) q ∙ ground arith,
      ground (arith, after),
      ground (arith, after),
      ground (arith, after),
    )

pub closed-UnderOne :
    (c : ℕ) (items : List ℕ) (u : Menu) → UnderOne c u → UnderOne c (closed items u)
closed-UnderOne c items u v k x e h =
    let (d, has, around, was, out, apart) = closed_hover items k u x e h in
    ap (λ l. (k == c) || contains c l) around ∙ v k d has was

-- Closing the one item under which all that is open is leaves nothing open.
pub closed-NoneOpen : (c : ℕ) (u : Menu) → UnderOne c u → NoneOpen (closed (c ∷ []) u)
closed-NoneOpen c u v k x e = elim (Bool-cases x.hover) [
  | inr shut ↦ shut
  | inl h ↦
      let (d, has, around, was, out, apart) = closed_hover (c ∷ []) k u x e h in
      elim (Bool-cases (k == c)) [
        | inl same ↦ ground (arith, same, out)
        | inr differs ↦
            let found : contains c d.ancestors ≡ true = ground (arith, v k d has was, differs) in
            let both = meets_of_contains c d.ancestors (c ∷ []) found (ground arith) in
            ground (arith, both, apart)
      ]
]
