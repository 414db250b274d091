-- ===== src/Gallery/Index/Laws.antt =====
-- `getNextIndex` and `getPrevIndex` walk around the images; `goto` clamps.
use nswall.Common.{
  ℕ, zero, suc, ◌+◌, ap, ◌∙◌, ◌%◌, ◌<◌, ◌≡◌, some, List, arith, length, get_elem?_of_lt, sym,
  dec_lt, ltb, if◌then◌else◌,
}
use native.Mathlib.Nat.{mod-lt, mod-add-mod, mod-eq_of_lt, mod_self}
use nswall.Common.Int.{ℤ, pos, negsuc, ◌+ℤ◌}
use nswall.Gallery.Index.{get_next_index, get_prev_index, clamp, at_index, iterate, InRange}

module _ (n : ℕ) (index : ℤ) where
  pub get_next_index-InRange : InRange n index → InRange n (get_next_index n index)
  unfolding get_next_index
  get_next_index-InRange v = ground arith

  pub get_prev_index-InRange : InRange n index → InRange n (get_prev_index n index)
  unfolding get_prev_index
  get_prev_index-InRange v = ground arith

  -- Whatever index is asked for, `goto` takes one of an image, where there is one.
  pub clamp-InRange : 0 < n → InRange n (clamp n index)
  unfolding clamp
  clamp-InRange h = ground arith

  pub clamp_of_InRange : InRange n index → clamp n index ≡ index
  unfolding clamp
  clamp_of_InRange v = ground arith

  -- From an index of an image, `getPrevIndex` undoes `getNextIndex`.
  pub prev-next : InRange n index → get_prev_index n (get_next_index n index) ≡ index
  unfolding get_prev_index get_next_index
  prev-next v = ground arith

  pub next-prev : InRange n index → get_next_index n (get_prev_index n index) ≡ index
  unfolding get_prev_index get_next_index
  next-prev v = ground arith

-- A valid index has an entry.
pub at_index_of_InRange {ℓ} :
    {A : Type ℓ} (xs : List A) (index : ℤ)
    → InRange (length xs) index
    → (x : A) × (at_index xs index ≡ some x)
unfolding at_index
at_index_of_InRange xs (pos i) v = get_elem?_of_lt xs i v.below
at_index_of_InRange xs (negsuc i) v = absurd (omega (arith, v.nonneg))

mod_suc : (n m : ℕ) → 0 < n → (m + 1) % n ≡ (if ltb (m % n + 1) n then m % n + 1 else 0)
mod_suc n m h = sym (mod-add-mod m n 1) ∙ (elim (dec_lt (m % n + 1) n) [
  | yes l ↦ mod-eq_of_lt l ∙ ground arith
  | no g ↦
      let full : m % n + 1 ≡ n = omega (arith, mod-lt m h) in
      ap (λ (x : ℕ). x % n) full ∙ mod_self n ∙ ground arith
])

next_mod : (n m : ℕ) → 0 < n → get_next_index n (pos (m % n)) ≡ pos ((m + 1) % n)
unfolding get_next_index ◌+ℤ◌
next_mod n m h = ground (arith, mod-lt m h, mod_suc n m h)

-- After `k` advances from the image `i` of `n`, where `i` is below `n`, the current image is the
-- one at `(i + k) % n`.
pub iterate-get_next_index :
    (n i k : ℕ) → i < n → iterate k (get_next_index n) (pos i) ≡ pos ((i + k) % n)
unfolding iterate
iterate-get_next_index n i zero h = ap pos (grind arith)
iterate-get_next_index n i (suc k) h =
    ap (get_next_index n) (iterate-get_next_index n i k h)
    ∙ next_mod n (i + k) (omega arith)
    ∙ ap (λ (m : ℕ). pos (m % n)) (omega arith)
