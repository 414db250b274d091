-- ===== src/Common/Every.antt =====
-- A predicate of every element of a list.
use nswall.Common.{
  ℕ, zero, suc, ◌≡◌, refl, subst, some, List, [], ◌∷◌, ◌++◌, map, get_elem?, some_inj,
}

abbrev pub Every {ℓ} : {A : Type ℓ} → (A → Type 0) → List A → Type 0
Every P [] = Unit
Every P (x ∷ xs) = P x × Every P xs

module _ {ℓ} {A : Type ℓ} (P : A → Type 0) where
  pub Every-get_elem? : (xs : List A) (i : ℕ) (x : A) → Every P xs → get_elem? xs i ≡ some x → P x
  Every-get_elem? [] i x v e = cc
  Every-get_elem? (y ∷ xs) zero x v e = subst P (some_inj e) v.0
  Every-get_elem? (y ∷ xs) (suc i) x v e = Every-get_elem? xs i x v.1 e

  pub Every-append : (xs ys : List A) → Every P xs → Every P ys → Every P (xs ++ ys)
  Every-append [] ys v w = w
  Every-append (x ∷ xs) ys v w = (v.0, Every-append xs ys v.1 w)

  pub Every-map :
      (f : A → A) (xs : List A) → ((x : A) → P x → P (f x)) → Every P xs → Every P (map f xs)
  Every-map f [] h v = tt
  Every-map f (x ∷ xs) h v = (h x v.0, Every-map f xs h v.1)

  pub Every-of_get_elem? :
      (xs : List A) → ((i : ℕ) (x : A) → get_elem? xs i ≡ some x → P x) → Every P xs
  Every-of_get_elem? [] h = tt
  Every-of_get_elem? (x ∷ xs) h = (h zero x refl, Every-of_get_elem? xs λ i y e. h (suc i) y e)

module _ {ℓ κ} {A : Type ℓ} {B : Type κ} (P : A → Type 0) (Q : B → Type 0) where
  pub Every-map_to :
      (f : A → B) (xs : List A) → ((x : A) → P x → Q (f x)) → Every P xs → Every Q (map f xs)
  Every-map_to f [] h v = tt
  Every-map_to f (x ∷ xs) h v = (h x v.0, Every-map_to f xs h v.1)

module _ {ℓ} {A : Type ℓ} (P Q : A → Type 0) where
  pub Every-weaken : (xs : List A) → ((x : A) → P x → Q x) → Every P xs → Every Q xs
  Every-weaken [] h v = tt
  Every-weaken (x ∷ xs) h v = (h x v.0, Every-weaken xs h v.1)
