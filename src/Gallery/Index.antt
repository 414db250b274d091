-- ===== src/Gallery/Index.antt =====
-- The index arithmetic of photo_gallery.js: `getNextIndex`, `getPrevIndex`, the clamp of `goto`,
-- reads of `data`, and the page of an index. Indices are integers, since `goto` can store -1.
pub mod Laws
use nswall.Common.{
  ℕ, suc, ◌+◌, ◌-◌, ◌*◌, ◌/◌, ◌≤◌, ◌<◌, ◌≡◌, refl, Bool, true, false, Option, none, some, List, [],
  ◌∷◌, arith, ltb, leb, if◌then◌else◌, length, get_elem?,
}
use nswall.Common.Int.{ℤ, pos, negsuc, pos_part, neg_part, ◌+ℤ◌, ◌-ℤ◌, ltb_ℤ}

-- The first argument of each is `data.length`.
unfoldable pub get_next_index : ℕ → ℤ → ℤ
unfolding ◌+ℤ◌
get_next_index n index =
    let next_index = index +ℤ pos 1 in if ltb_ℤ next_index (pos n) then next_index else pos 0

unfoldable pub get_prev_index : ℕ → ℤ → ℤ
unfolding ◌-ℤ◌
get_prev_index n index =
    let prev_index = index -ℤ pos 1 in
    if ltb_ℤ prev_index (pos 0) then pos n -ℤ pos 1 else prev_index

-- The first two lines of `goto`.
unfoldable pub clamp : ℕ → ℤ → ℤ
unfolding ◌-ℤ◌
clamp n index =
    if ltb_ℤ index (pos 0) then pos 0 else if ltb_ℤ index (pos n) then index else pos n -ℤ pos 1

-- `data[index]`: `undefined` outside the array.
unfoldable pub at_index {ℓ} : {A : Type ℓ} → List A → ℤ → Option A
at_index xs (pos i) = get_elem? xs i
at_index xs (negsuc i) = none

-- `Math.floor(index / numThumbs)`, for `numThumbs` above 0.
unfoldable pub page_of : ℕ → ℤ → ℤ
page_of k (pos i) = pos (i / k)
page_of k (negsuc i) = negsuc (i / k)

-- An index of `data`.
pub record InRange (n : ℕ) (index : ℤ) : Type 0 where
  pub nonneg : neg_part index ≡ 0
  pub below : pos_part index < n

unfoldable pub iterate {ℓ} : {A : Type ℓ} → ℕ → (A → A) → A → A
iterate n f a = elim n [ ℕ.zero ↦ a | suc (m → r) ↦ f r ]
