-- ===== src/Selectable/Gesture/Pointwise.antt =====
-- What holds of each element of the page, by its place.
use nswall.Common.{
  ℕ, zero, suc, ◌+◌, ◌≡◌, refl, sym, subst, ◌<◌, Bool, false, some, List, [], ◌∷◌, map, get_elem?,
  set, arith, some_inj, ◌==◌,
}
use nswall.Common.Result.{Result, Returns, Returns-bind}
use nswall.Selectable.State.{Box, Selectee}
use nswall.Selectable.Gesture.{each}

-- What a gesture finds: where an element is shown, and whether it is selected.
pub record Before : Type 0 where
  pub box : Box
  pub was : Bool

-- `R` relates each element to what it was before, from the place `k` on.
abbrev pub AllAt : (ℕ → Before → Selectee → Type 0) → ℕ → List Before → List Selectee → Type 0
AllAt R k [] [] = Unit {0}
AllAt R k (c ∷ cs) (s ∷ ss) = R k c s × AllAt R (suc k) cs ss
AllAt R k _ _ = ⊥

module _ (R R' : ℕ → Before → Selectee → Type 0) where
  pub AllAt-map :
      (f : Selectee → Selectee)
      → ((k : ℕ) (c : Before) (s : Selectee) → R k c s → R' k c (f s))
      → (k : ℕ) (cs : List Before) (ss : List Selectee) → AllAt R k cs ss
      → AllAt R' k cs (map f ss)
  AllAt-map f h k [] [] v = tt
  AllAt-map f h k [] (s ∷ ss) v = absurd v
  AllAt-map f h k (c ∷ cs) [] v = absurd v
  AllAt-map f h k (c ∷ cs) (s ∷ ss) (a, v) = (h k c s a, AllAt-map f h (suc k) cs ss v)

  pub AllAt-each :
      (f : Selectee → Result Selectee)
      → ((k : ℕ) (c : Before) (s : Selectee) → R k c s → Returns (R' k c) (f s))
      → (k : ℕ) (cs : List Before) (ss : List Selectee) → AllAt R k cs ss
      → Returns (AllAt R' k cs) (each f ss)
  unfolding each
  AllAt-each f h k [] [] v = tt
  AllAt-each f h k [] (s ∷ ss) v = absurd v
  AllAt-each f h k (c ∷ cs) [] v = absurd v
  AllAt-each f h k (c ∷ cs) (s ∷ ss) (a, v) =
      Returns-bind (R' k c) (AllAt R' k (c ∷ cs)) (f s) _ (h k c s a) λ s1 b.
        Returns-bind (AllAt R' (suc k) cs) (AllAt R' k (c ∷ cs)) (each f ss) _
          (AllAt-each f h (suc k) cs ss v) λ ss1 w. (b, w)

  AllAt-after :
      (j k : ℕ) (cs : List Before) (ss : List Selectee)
      → j < k
      → ((l : ℕ) (c : Before) (s : Selectee) → (l == j) ≡ false → R l c s → R' l c s)
      → AllAt R k cs ss
      → AllAt R' k cs ss
  AllAt-after j k [] [] h there v = tt
  AllAt-after j k [] (s ∷ ss) h there v = absurd v
  AllAt-after j k (c ∷ cs) [] h there v = absurd v
  AllAt-after j k (c ∷ cs) (s ∷ ss) h there (a, v) =
      (there k c s (ground arith) a, AllAt-after j (suc k) cs ss (omega arith) there v)

  pub AllAt-set :
      (i j : ℕ) (s' : Selectee) (cs : List Before) (ss : List Selectee) (k : ℕ)
      → k + i ≡ j
      → AllAt R k cs ss
      → ((c : Before) (s : Selectee) → get_elem? ss i ≡ some s → R j c s → R' j c s')
      → ((l : ℕ) (c : Before) (s : Selectee) → (l == j) ≡ false → R l c s → R' l c s)
      → AllAt R' k cs (set ss i s')
  AllAt-set i j s' [] [] k e v here there = tt
  AllAt-set i j s' [] (s ∷ ss) k e v here there = absurd v
  AllAt-set i j s' (c ∷ cs) [] k e v here there = absurd v
  AllAt-set zero j s' (c ∷ cs) (s ∷ ss) k e (a, v) here there = (
    subst (λ l. R' l c s') (sym same) (here c s refl (subst (λ l. R l c s) same a)),
    AllAt-after j (suc k) cs ss (omega arith) there v,
  )
    where
      same : k ≡ j
      same = omega arith
  AllAt-set (suc i) j s' (c ∷ cs) (s ∷ ss) k e (a, v) here there =
      (there k c s (ground arith) a, AllAt-set i j s' cs ss (suc k) (omega arith) v here there)

pub AllAt-get :
    (R : ℕ → Before → Selectee → Type 0) (i j : ℕ) (k : ℕ) (cs : List Before) (ss : List Selectee)
    (c : Before)
    → k + i ≡ j
    → AllAt R k cs ss
    → get_elem? cs i ≡ some c
    → (s : Selectee) × (get_elem? ss i ≡ some s) × R j c s
AllAt-get R i j k [] ss c e v h = cc
AllAt-get R i j k (b ∷ cs) [] c e v h = absurd v
AllAt-get R zero j k (b ∷ cs) (s ∷ ss) c e (a, v) h =
    let same : k ≡ j = omega arith in
    (s, refl, subst (λ l. R l c s) same (subst (λ x. R k x s) (some_inj h) a))
AllAt-get R (suc i) j k (b ∷ cs) (s ∷ ss) c e (a, v) h =
    AllAt-get R i j (suc k) cs ss c (omega arith) v h
