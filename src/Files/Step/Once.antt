-- ===== src/Files/Step/Once.antt =====
-- Where no click comes while a request is open, the handler is bound once to each link.
use nswall.Common.{
  ℕ, zero, suc, ◌≡◌, refl, ap, ◌∙◌, true, false, Option, none, some, List, [], ◌∷◌, ◌++◌, arith,
  if◌then◌else◌, get_elem?, Option-cases, inl, inr, ◌⊎◌, map,
}
use nswall.Common.Every.{Every, Every-append, Every-map_to, Every-weaken}
use nswall.Files.State.{Row, Request, Tree, Options, Sent}
use nswall.Files.Click.{with_row, show_tree}
use nswall.Files.Step.{
  is_within, find_row, rows_of, bind_tree, append_list, answer, drop_at, clicked, answered, step,
  file_tree,
}
use nswall.Files.Step.Quiet.{IsOnce, IsApart, IsQuiet, with_row-Every, click-IsQuiet}

-- The events since the plugin was called: any answers, but clicks only while no request is open.
pub data Calm (o : Options) : Tree → Type 0 where
  made : Calm o (file_tree o)
  clicks : {t : Tree} (i : ℕ) → Calm o t → t.requests ≡ [] → Calm o (step o (clicked i) t)
  answers : {t : Tree} (k : ℕ) (sent : List Sent) → Calm o t → Calm o (step o (answered k sent) t)

-- A row that the answer for `target` binds to the handler once.
abbrev Ripe : Option ℕ → Row → Type 0
Ripe target r = IsApart target r ⊎ (r.handlers ≡ 0) × (is_within target r.around ≡ true)

rows_of-Ripe :
    (target : Option ℕ) (around : List ℕ) (l k : ℕ) (sent : List Sent)
    → is_within target around ≡ true
    → Every (Ripe target) (rows_of around l k sent)
unfolding rows_of
rows_of-Ripe target around l k [] h = tt
rows_of-Ripe target around l k (s ∷ ss) h =
    (inr (refl, h), rows_of-Ripe target around l (suc k) ss h)

bound-IsOnce :
    (target : Option ℕ) (rows : List Row)
    → Every (Ripe target) rows
    → Every IsOnce (
        map
          (λ r. if is_within target r.around then record r { handlers = suc r.handlers } else r)
          rows)
bound-IsOnce target rows v =
    Every-map_to (Ripe target) IsOnce
      (λ r. if is_within target r.around then record r { handlers = suc r.handlers } else r) rows
      (λ r p. elim p [ inl q ↦ ground (arith, q.0, q.1) | inr q ↦ ground (arith, q.0, q.1) ]) v

append-Every :
    (target : Option ℕ) (around : List ℕ) (sent : List Sent) (t : Tree)
    → is_within target around ≡ true
    → Every (IsApart target) t.rows
    → Every IsOnce (append_list target around sent t).rows
unfolding append_list bind_tree
append-Every none around sent t h v =
    let new = rows_of around t.next (suc t.next) sent in
    bound-IsOnce none (t.rows ++ new) (
      Every-append (Ripe none) t.rows new
        (Every-weaken (IsApart none) (Ripe none) t.rows (λ r p. inl p) v)
        (rows_of-Ripe none around t.next (suc t.next) sent h))
append-Every (some i) around sent t h v =
    let new = rows_of around t.next (suc t.next) sent in
    let old = with_row i (λ r. record r { waiting = false }) t.rows in
    bound-IsOnce (some i) (old ++ new) (
      Every-append (Ripe (some i)) old new
        (Every-weaken (IsApart (some i)) (Ripe (some i)) old (λ r p. inl p)
          (with_row-Every (IsApart (some i)) i (λ r. record r { waiting = false }) t.rows (λ r p. p)
            v))
        (rows_of-Ripe (some i) around t.next (suc t.next) sent h))

append-requests :
    (target : Option ℕ) (around : List ℕ) (sent : List Sent) (t : Tree)
    → (append_list target around sent t).requests ≡ t.requests
unfolding append_list bind_tree
append-requests target around sent t = refl

answer-IsQuiet :
    (q : Request) (sent : List Sent) (t : Tree)
    → t.requests ≡ []
    → Every (IsApart q.target) t.rows
    → IsQuiet (answer q sent t)
unfolding answer
answer-IsQuiet q sent t e v = on q.target refl v
  where
    on : (x : Option ℕ) → q.target ≡ x → Every (IsApart x) t.rows → IsQuiet (answer q sent t)
    on none h w =
        rw (h, answer)
          (inl (append-requests none [] sent t ∙ e, append-Every none [] sent t refl w))
    on (some i) h w = elim (Option-cases (find_row i t.rows)) [
      | inl k ↦
          rw (h, answer)
            (rw k (inl (e, Every-weaken (IsApart (some i)) IsOnce t.rows (λ r p. p.0) w)))
      | inr (r, k) ↦
          rw (h, answer)
            (rw k (
              inl (
                append-requests (some i) (i ∷ r.around) sent t ∙ e,
                append-Every (some i) (i ∷ r.around) sent t (ground arith) w,
              )))
    ]

answered-IsQuiet :
    (o : Options) (k : ℕ) (sent : List Sent) (t : Tree)
    → IsQuiet t
    → IsQuiet (step o (answered k sent) t)
unfolding step
answered-IsQuiet o k sent t (inl (e, v)) =
    let missing : get_elem? t.requests k ≡ none = ap (λ qs. get_elem? qs k) e in
    rw (missing, step) (inl (e, v))
answered-IsQuiet o zero sent t (inr (q, e, v)) =
    let found : get_elem? t.requests 0 ≡ some q = ap (λ qs. get_elem? qs 0) e in
    rw (found, step)
      (answer-IsQuiet q sent (record t { requests = drop_at 0 t.requests }) (ap (drop_at 0) e) v)
answered-IsQuiet o (suc k) sent t (inr (q, e, v)) =
    let missing : get_elem? t.requests (suc k) ≡ none = ap (λ qs. get_elem? qs (suc k)) e in
    rw (missing, step) (inr (q, e, v))

Calm-IsQuiet : (o : Options) (t : Tree) → Calm o t → IsQuiet t
unfolding file_tree show_tree
Calm-IsQuiet o _ made = inr (record { target = none; dir = o.escape o.root }, refl, tt)
Calm-IsQuiet o _ (clicks {t} i c e) = elim (Calm-IsQuiet o t c) [
  | inl (f, v) ↦ click-IsQuiet o i t f v
  | inr (q, f, v) ↦ cc
]
Calm-IsQuiet o _ (answers {t} k sent c) = answered-IsQuiet o k sent t (Calm-IsQuiet o t c)

-- Whatever is clicked and whatever the server answers since the plugin was called: if no click comes
-- while a request is open, each link of the tree has the handler exactly once.
pub Calm-IsOnce : (o : Options) (t : Tree) → Calm o t → Every IsOnce t.rows
Calm-IsOnce o t c = elim (Calm-IsQuiet o t c) [
  | inl (e, v) ↦ v
  | inr (q, e, v) ↦ Every-weaken (IsApart q.target) IsOnce t.rows (λ r p. p.0) v
]
