-- ===== src/Gallery/Step/Asked.antt =====
-- Whether the current image is stored or requested: what the methods that leave it alone keep.
use nswall.Common.{
  ℕ, zero, suc, ◌≡◌, refl, ap, sym, ◌∙◌, subst, Bool, true, false, ◌&&◌, ◌||◌, ◌==◌, none, some,
  some_inj, List, [], ◌∷◌, ◌++◌, arith, get_elem?, set, Bool-cases, Option-cases, ==_iff, inl, inr,
}
use nswall.Common.Int.{ℤ, pos, negsuc, eqb_ℤ}
use nswall.Gallery.State.{ImageData, Load, preload_load, refresh_load}
use nswall.Gallery.Index.{at_index}
use nswall.Gallery.Step.{mark_loaded, remove_at}

-- A call of `refresh` has requested the image at `index`, which has not arrived.
abbrev pub is_requested : ℤ → List Load → Bool
is_requested index [] = false
is_requested index (refresh_load i k ∷ ls) = eqb_ℤ index i || is_requested index ls
is_requested index (preload_load s c ∷ ls) = is_requested index ls

abbrev pub has_entry : List ImageData → ℤ → Bool
has_entry ds index = elim (at_index ds index) [ none ↦ false | some d ↦ true ]

abbrev pub is_stored : List ImageData → ℤ → Bool
is_stored ds index = elim (at_index ds index) [ none ↦ false | some d ↦ d.image ]

-- The entry is there, and its image is stored or requested.
abbrev pub is_asked : List ImageData → ℤ → List Load → Bool
is_asked ds index ls = has_entry ds index && (is_stored ds index || is_requested index ls)

pub is_requested-append :
    (index : ℤ) (ls : List Load) (l : Load)
    → is_requested index (ls ++ l ∷ []) ≡ (is_requested index ls || is_requested index (l ∷ []))
is_requested-append index [] l = refl
is_requested-append index (refresh_load i k ∷ ls) l =
    let ih = is_requested-append index ls l in ground (arith, ih)
is_requested-append index (preload_load s c ∷ ls) l = is_requested-append index ls l

pub is_requested-remove_at :
    (index : ℤ) (k : ℕ) (ls : List Load) {l : Load}
    → get_elem? ls k ≡ some l
    → is_requested index ls ≡ (is_requested index (l ∷ []) || is_requested index (remove_at k ls))
unfolding remove_at
is_requested-remove_at index k [] e = cc
is_requested-remove_at index zero (x ∷ ls) {l} e =
    let same : x ≡ l = some_inj e in
    first x ∙ ap (λ y. is_requested index (y ∷ []) || is_requested index ls) same
  where
    first :
        (y : Load)
        → is_requested index (y ∷ ls) ≡ (is_requested index (y ∷ []) || is_requested index ls)
    first (refresh_load i k) = ground arith
    first (preload_load s c) = refl
is_requested-remove_at index (suc k) (refresh_load i j ∷ ls) e =
    let ih = is_requested-remove_at index k ls e in ground (arith, ih)
is_requested-remove_at index (suc k) (preload_load s c ∷ ls) e = is_requested-remove_at index k ls e

set_entries :
    (i j : ℕ) (ds : List ImageData) {d : ImageData}
    → get_elem? ds j ≡ some d
    → let es = set ds j (record d { image = true }) in
      (has_entry es (pos i) ≡ has_entry ds (pos i))
      × (is_stored es (pos i) ≡ (is_stored ds (pos i) || i == j))
unfolding at_index
set_entries i j [] e = cc
set_entries zero zero (x ∷ ds) e = (refl, ground arith)
set_entries zero (suc j) (x ∷ ds) e = (refl, ground arith)
set_entries (suc i) zero (x ∷ ds) e = (refl, ground arith)
set_entries (suc i) (suc j) (x ∷ ds) e =
    let ih = set_entries i j ds e in (ih.0, ih.1 ∙ ground arith)

-- An entry stays asked for when an image is stored, and the one at its index need not be requested.
pub marked-is_asked :
    (ds : List ImageData) (index i : ℤ) (ls : List Load)
    → is_asked ds index (refresh_load i 0 ∷ ls) ≡ true
    → is_asked (mark_loaded ds i) index ls ≡ true
unfolding at_index mark_loaded
marked-is_asked ds (negsuc n) i ls h = cc
marked-is_asked ds (pos n) (negsuc i) ls h = ground (arith, h)
marked-is_asked ds (pos n) (pos i) ls h = elim (Option-cases (get_elem? ds i)) [
  | inl e ↦
      let same : mark_loaded ds (pos i) ≡ ds = ground (arith, e) in
      subst (λ es. is_asked es (pos n) ls ≡ true) (sym same)
        (elim (Bool-cases (n == i)) [
          | inr z ↦ ground (arith, z, h)
          | inl y ↦
              let gone : get_elem? ds n ≡ none = ap (get_elem? ds) ((==_iff n i).0 y) ∙ e in
              ground (arith, gone, h)
        ])
  | inr (d, e) ↦
      let same : mark_loaded ds (pos i) ≡ set ds i (record d { image = true }) =
        ground (arith, e) in
      let (p, q) = set_entries n i ds e in
      subst (λ es. is_asked es (pos n) ls ≡ true) (sym same) (ground (arith, p, q, h))
]
