-- ===== src/Menus/Indices.antt =====
-- Changes of the elements of a list, and the indices that a selector finds.
use nswall.Common.{
  ℕ, zero, suc, ◌+◌, ◌<◌, ◌≡◌, refl, sym, ap, ◌∙◌, ◌==◌, subst, Bool, false, none, some, List, [],
  ◌∷◌, arith, get_elem?, some_inj,
}
use nswall.Menus.State.{contains, update, each_at, indices_from}

module _ {ℓ} {A : Type ℓ} where
  pub get_elem?-update_self :
      (i : ℕ) (f : A → A) (xs : List A) {x : A}
      → get_elem? xs i ≡ some x
      → get_elem? (update i f xs) i ≡ some (f x)
  get_elem?-update_self i f [] e = cc
  get_elem?-update_self zero f (y ∷ xs) e =
      ap (λ o. elim o [ none ↦ some (f y) | some x ↦ some (f x) ]) e
  get_elem?-update_self (suc i) f (y ∷ xs) e = get_elem?-update_self i f xs e

  pub get_elem?-each_at :
      (f : ℕ → A → A) (k i j : ℕ) (xs : List A) {x : A}
      → j ≡ k + i
      → get_elem? xs i ≡ some x
      → get_elem? (each_at f k xs) i ≡ some (f j x)
  get_elem?-each_at f k i j [] h e = cc
  get_elem?-each_at f k zero j (y ∷ xs) {x} h e =
      let at : k ≡ j = omega arith in
      ap (λ o. elim o [ none ↦ some (f k y) | some z ↦ some (f k z) ]) e ∙ ap (λ l. some (f l x)) at
  get_elem?-each_at f k (suc i) j (y ∷ xs) h e = get_elem?-each_at f (suc k) i j xs (omega arith) e

  -- The element that an element of the changed list comes from.
  pub get_elem?-each_at_back :
      (f : ℕ → A → A) (k i j : ℕ) (xs : List A) {x : A}
      → j ≡ k + i
      → get_elem? (each_at f k xs) i ≡ some x
      → (y : A) × (get_elem? xs i ≡ some y) × (x ≡ f j y)
  get_elem?-each_at_back f k i j [] h e = cc
  get_elem?-each_at_back f k zero j (y ∷ xs) h e =
      let at : k ≡ j = omega arith in (y, refl, sym (some_inj e) ∙ ap (λ l. f l y) at)
  get_elem?-each_at_back f k (suc i) j (y ∷ xs) h e =
      get_elem?-each_at_back f (suc k) i j xs (omega arith) e

  pub get_elem?-update_other :
      (i j : ℕ) (f : A → A) (xs : List A)
      → (j == i) ≡ false
      → get_elem? (update i f xs) j ≡ get_elem? xs j
  get_elem?-update_other i j f [] h = refl
  get_elem?-update_other zero zero f (x ∷ xs) h = cc
  get_elem?-update_other zero (suc j) f (x ∷ xs) h = refl
  get_elem?-update_other (suc i) zero f (x ∷ xs) h = refl
  get_elem?-update_other (suc i) (suc j) f (x ∷ xs) h =
      get_elem?-update_other i j f xs (ground arith)

  below_indices :
      (p : ℕ → A → Bool) (k i : ℕ) (xs : List A) → i < k → contains i (indices_from p k xs) ≡ false
  unfolding indices_from
  below_indices p k i [] h = refl
  below_indices p k i (x ∷ xs) h =
      let ih = below_indices p (suc k) i xs (omega arith) in ground (arith, ih)

  pub contains-indices_from :
      (p : ℕ → A → Bool) (k i j : ℕ) (xs : List A) {x : A}
      → j ≡ k + i
      → get_elem? xs i ≡ some x
      → contains j (indices_from p k xs) ≡ p j x
  unfolding indices_from
  contains-indices_from p k i j [] h e = cc
  contains-indices_from p k zero j (y ∷ xs) {x} h e =
      let at : k ≡ j = omega arith in
      let rest = below_indices p (suc k) k xs (omega arith) in
      subst (λ l. contains l (indices_from p k (y ∷ xs)) ≡ p l x) at
        (subst (λ z. contains k (indices_from p k (y ∷ xs)) ≡ p k z) (some_inj e)
          (ground (arith, rest)))
  contains-indices_from p k (suc i) j (y ∷ xs) h e =
      let ih = contains-indices_from p (suc k) i j xs (omega arith) e in ground (arith, ih)
