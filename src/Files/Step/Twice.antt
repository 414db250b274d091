-- ===== src/Files/Step/Twice.antt =====
-- Two answers for one directory.
use nswall.Common.{
  ℕ, zero, suc, ◌+◌, ◌≡◌, refl, ap, ◌∙◌, subst, false, ◌==◌, none, some, List, [], ◌∷◌, ◌++◌, arith,
  if◌then◌else◌, map, get_elem?, length, length-map, get_elem?-append_left, Bool-cases, inl, inr,
}
use nswall.Files.State.{Row, Request, Tree, Sent, contains}
use nswall.Files.Step.{find_row, rows_of, bind_tree, append_list, answer}

module _ {ℓ} {A : Type ℓ} where
  get_elem?-map :
      (f : A → A) (xs : List A) (i : ℕ) {x : A}
      → get_elem? xs i ≡ some x
      → get_elem? (map f xs) i ≡ some (f x)
  get_elem?-map f [] i e = cc
  get_elem?-map f (y ∷ xs) zero e = ap (λ o. elim o [ none ↦ some (f y) | some z ↦ some (f z) ]) e
  get_elem?-map f (y ∷ xs) (suc i) e = get_elem?-map f xs i e

  get_elem?-append_right :
      (xs ys : List A) (k : ℕ) → get_elem? (xs ++ ys) (length xs + k) ≡ get_elem? ys k
  get_elem?-append_right [] ys k = ap (get_elem? ys) (omega arith)
  get_elem?-append_right (x ∷ xs) ys k =
      let at : length (x ∷ xs) + k ≡ suc (length xs + k) = omega arith in
      ap (get_elem? (x ∷ (xs ++ ys))) at ∙ get_elem?-append_right xs ys k

-- A row of a new list.
abbrev new_row : List ℕ → ℕ → ℕ → Sent → Row
new_row around list k s = record {
  id = k;
  around = around;
  list = list;
  rel = s.rel;
  is_directory = s.is_directory;
  collapsed = s.collapsed;
  expanded = false;
  waiting = false;
  handlers = 0;
}

get_elem?-rows_of :
    (around : List ℕ) (l k j : ℕ) (sent : List Sent) {s : Sent}
    → get_elem? sent j ≡ some s
    → (n : ℕ) × (get_elem? (rows_of around l k sent) j ≡ some (new_row around l n s))
unfolding rows_of
get_elem?-rows_of around l k j [] e = cc
get_elem?-rows_of around l k zero (x ∷ ss) e = (
  k,
  ap (λ o. elim o [ none ↦ some (new_row around l k x) | some z ↦ some (new_row around l k z) ]) e,
)
get_elem?-rows_of around l k (suc j) (x ∷ ss) e = get_elem?-rows_of around l (suc k) j ss e

find_row-map :
    (i : ℕ) (f : Row → Row) (rows : List Row) {r : Row}
    → ((x : Row) → (f x).id ≡ x.id)
    → find_row i rows ≡ some r
    → (x : Row) × (find_row i (map f rows) ≡ some x)
unfolding find_row
find_row-map i f [] h e = cc
find_row-map i f (y ∷ rows) {r} h e = elim (Bool-cases (y.id == i)) [
  | inl k ↦ (f y, ground (arith, k, h y))
  | inr k ↦
      let there : find_row i rows ≡ some r = ground (arith, k, e) in
      let (x, g) = find_row-map i f rows h there in (x, ground (arith, k, h y, g))
]

find_row-append :
    (i : ℕ) (rows ys : List Row) {r : Row}
    → find_row i rows ≡ some r
    → find_row i (rows ++ ys) ≡ some r
unfolding find_row
find_row-append i [] ys e = cc
find_row-append i (y ∷ rows) ys {r} e = elim (Bool-cases (y.id == i)) [
  | inl k ↦ ground (arith, k, e)
  | inr k ↦
      let there : find_row i rows ≡ some r = ground (arith, k, e) in
      ground (arith, k, find_row-append i rows ys there)
]

module _ (i : ℕ) where
  abbrev bind : Row → Row
  bind r = if contains i r.around then record r { handlers = suc r.handlers } else r

  abbrev arrive : Row → Row
  arrive r = if r.id == i then record r { waiting = false } else r

  -- What an answer makes of a row that is there, and of one that it brings.
  old_row :
      (around : List ℕ) (sent : List Sent) (t : Tree) (j : ℕ) {x : Row}
      → get_elem? t.rows j ≡ some x
      → get_elem? (append_list (some i) around sent t).rows j ≡ some (bind (arrive x))
  unfolding append_list bind_tree
  old_row around sent t j e =
      let new = rows_of around t.next (suc t.next) sent in
      get_elem?-map bind (map arrive t.rows ++ new) j
        (get_elem?-append_left (map arrive t.rows) new j (get_elem?-map arrive t.rows j e))

  brought_row :
      (around : List ℕ) (sent : List Sent) (t : Tree) (k : ℕ) {s : Sent}
      → get_elem? sent k ≡ some s
      → (n : ℕ) × (get_elem? (append_list (some i) around sent t).rows (length t.rows + k)
          ≡ some (bind (new_row around t.next n s)))
  unfolding append_list bind_tree
  brought_row around sent t k e =
      let new = rows_of around t.next (suc t.next) sent in
      let (n, h) = get_elem?-rows_of around t.next (suc t.next) k sent e in
      let at : get_elem? (map arrive t.rows ++ new) (length t.rows + k)
          ≡ some (new_row around t.next n _) =
        subst (λ m. get_elem? (map arrive t.rows ++ new) (m + k) ≡ get_elem? new k)
          (length-map t.rows arrive) (get_elem?-append_right (map arrive t.rows) new k)
        ∙ h in
      (n, get_elem?-map bind (map arrive t.rows ++ new) (length t.rows + k) at)

  still_found :
      (around : List ℕ) (sent : List Sent) (t : Tree) {r : Row}
      → find_row i t.rows ≡ some r
      → (x : Row) × (find_row i (append_list (some i) around sent t).rows ≡ some x)
  unfolding append_list bind_tree
  still_found around sent t e =
      let new = rows_of around t.next (suc t.next) sent in
      let (x, h) = find_row-map i arrive t.rows (λ y. ground arith) e in
      find_row-map i bind (map arrive t.rows ++ new) (λ y. ground arith)
        (find_row-append i (map arrive t.rows) new h)

  answer_lem :
      (q : Request) (sent : List Sent) (t : Tree) (r : Row)
      → q.target ≡ some i
      → find_row i t.rows ≡ some r
      → answer q sent t ≡ append_list (some i) (i ∷ r.around) sent t
  unfolding answer
  answer_lem q sent t r e h = rw (e, answer) (rw h refl)

  -- Where two answers come for one directory that is in the tree, as after it was expanded, collapsed and
  -- expanded again before the first one came, the links of the first list have the handler twice.
  pub answers_bind_twice :
      (q p : Request) (sent again : List Sent) (t : Tree) (r : Row) (k : ℕ) (s : Sent)
      → q.target ≡ some i
      → p.target ≡ some i
      → find_row i t.rows ≡ some r
      → get_elem? sent k ≡ some s
      → (x : Row) × (get_elem? (answer p again (answer q sent t)).rows (length t.rows + k) ≡ some x)
        × (x.rel ≡ s.rel)
        × (x.handlers ≡ 2)
  answers_bind_twice q p sent again t r k s a b e h =
      let t1 = append_list (some i) (i ∷ r.around) sent t in
      let (n, g) = brought_row (i ∷ r.around) sent t k h in
      let (r1, f) = still_found (i ∷ r.around) sent t e in
      let row = bind (new_row (i ∷ r.around) t.next n s) in
      (
        bind (arrive row),
        ap (λ y. get_elem? (answer p again y).rows (length t.rows + k)) (answer_lem q sent t r a e)
            ∙ ap (λ y. get_elem? y.rows (length t.rows + k)) (answer_lem p again t1 r1 b f)
            ∙ old_row (i ∷ r1.around) again t1 (length t.rows + k) g,
        ground arith,
        ground arith,
      )
