-- ===== src/Files/Step/Quiet.antt =====
-- What a click leaves where no request is open.
use nswall.Common.{
  ℕ, ◌≡◌, refl, ap, sym, subst, ◌∙◌, true, false, not, ◌&&◌, ◌||◌, ◌==◌, Option, none, some, List,
  [], ◌∷◌, ◌++◌, arith, if◌then◌else◌, Option-cases, Bool-cases, inl, inr, ◌⊎◌, some_inj,
}
use nswall.Common.Every.{Every, Every-map}
use nswall.Files.State.{Row, Request, Tree, Options, contains}
use nswall.Files.Click.{
  filter, with_row, show_tree, any_in_list, close_others, clean_up, set_expanded, set_collapsed,
  expand, collapse, handle, dir_of,
}
use nswall.Files.Step.{is_within, find_row, handle_all, clicked, step}

abbrev pub IsOnce : Row → Type 0
IsOnce r = r.handlers ≡ 1

-- The row has the handler once, and is not within the target of a request.
abbrev pub IsApart : Option ℕ → Row → Type 0
IsApart target r = (r.handlers ≡ 1) × (is_within target r.around ≡ false)

-- No request is open, or one is, for which there are no rows yet.
abbrev pub IsQuiet : Tree → Type 0
IsQuiet t =
    ((t.requests ≡ []) × Every IsOnce t.rows)
    ⊎ ((q : Request) × (t.requests ≡ q ∷ []) × Every (IsApart q.target) t.rows)

pub with_row-Every :
    (P : Row → Type 0) (i : ℕ) (f : Row → Row) (rows : List Row)
    → ((r : Row) → P r → P (f r))
    → Every P rows
    → Every P (with_row i f rows)
with_row-Every P i f rows h v =
    Every-map P (λ r. if r.id == i then f r else r) rows
      (λ r p. elim (r.id == i) as (λ b. P (if b then f r else r)) [ false ↦ p | true ↦ h r p ]) v

filter-IsApart :
    (i : ℕ) (rows : List Row)
    → Every IsOnce rows
    → Every (IsApart (some i)) (filter (λ r. not (contains i r.around)) rows)
filter-IsApart i [] v = tt
filter-IsApart i (r ∷ rows) v = ground (arith, v.0, filter-IsApart i rows v.1)

close_others-Every : (l : ℕ) (t : Tree) → Every IsOnce t.rows → Every IsOnce (close_others l t).rows
unfolding close_others
close_others-Every l t v =
    Every-map IsOnce
      (λ r.
        if r.is_directory && (r.list == l || any_in_list l t.rows r.around)
        then record r { expanded = false; collapsed = true }
        else r)
      t.rows (λ r p. ground (arith, p)) v

close_others-requests : (l : ℕ) (t : Tree) → (close_others l t).requests ≡ t.requests
unfolding close_others
close_others-requests l t = refl

expand-IsQuiet :
    (o : Options) (r : Row) (t : Tree)
    → t.requests ≡ []
    → Every IsOnce t.rows
    → IsQuiet (expand o r t)
unfolding expand show_tree clean_up
expand-IsQuiet o r t e v =
    let t1 = if not o.multi_folder then close_others r.list t else t in
    let h : Every IsOnce t1.rows = ground (arith, v, close_others-Every r.list t v) in
    let none_open : t1.requests ≡ [] = ground (arith, e, close_others-requests r.list t) in
    let kept = filter (λ x. not (contains r.id x.around)) t1.rows in
    inr (
      record { target = some r.id; dir = dir_of o r.rel },
      ap (◌++ record { target = some r.id; dir = dir_of o r.rel } ∷ []) none_open,
      with_row-Every (IsApart (some r.id)) r.id set_expanded
          (with_row r.id (λ x. record x { waiting = true }) kept) (λ x p. p)
          (with_row-Every (IsApart (some r.id)) r.id (λ x. record x { waiting = true }) kept
            (λ x p. p) (filter-IsApart r.id t1.rows h)),
    )

handle-IsQuiet :
    (o : Options) (r : Row) (t : Tree)
    → t.requests ≡ []
    → Every IsOnce t.rows
    → IsQuiet (handle o r t)
unfolding handle collapse
handle-IsQuiet o r t e v = elim (Bool-cases r.is_directory) [
  | inr d ↦ rw (d, handle) (inl (e, v))
  | inl d ↦ elim (Bool-cases r.collapsed) [
    | inl c ↦ rw (d, handle) (rw c (expand-IsQuiet o r t e v))
    | inr c ↦
        rw (d, handle)
          (rw c (inl (e, with_row-Every IsOnce r.id set_collapsed t.rows (λ x p. p) v)))
  ]
]

find_row-Every :
    (P : Row → Type 0) (i : ℕ) (rows : List Row) {r : Row}
    → find_row i rows ≡ some r
    → Every P rows
    → P r
unfolding find_row
find_row-Every P i [] e v = cc
find_row-Every P i (x ∷ rows) {r} e v = elim (Bool-cases (x.id == i)) [
  | inl k ↦ let same : some x ≡ some r = ground (arith, k, e) in subst P (some_inj same) v.0
  | inr k ↦
      let there : find_row i rows ≡ some r = ground (arith, k, e) in
      find_row-Every P i rows there v.1
]

pub click-IsQuiet :
    (o : Options) (i : ℕ) (t : Tree)
    → t.requests ≡ []
    → Every IsOnce t.rows
    → IsQuiet (step o (clicked i) t)
unfolding step handle_all
click-IsQuiet o i t e v = elim (Option-cases (find_row i t.rows)) [
  | inl q ↦ rw (q, step) (inl (e, v))
  | inr (r, q) ↦
      let once : r.handlers ≡ 1 = find_row-Every IsOnce i t.rows q v in
      let run : step o (clicked i) t ≡ handle o r t =
        ap (λ x. elim x [ none ↦ t | some y ↦ handle_all o y.handlers i t ]) q
        ∙ ap (λ n. handle_all o n i t) once
        ∙ ap (λ x. elim x [ none ↦ t | some y ↦ handle o y t ]) q in
      subst IsQuiet (sym run) (handle-IsQuiet o r t e v)
]
