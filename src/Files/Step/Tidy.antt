-- ===== src/Files/Step/Tidy.antt =====
-- A directory is collapsed or expanded, and not both.
use nswall.Common.{
  ℕ, zero, suc, ◌≡◌, Bool, true, false, not, ◌&&◌, ◌||◌, ◌==◌, Option, none, some, List, [], ◌∷◌,
  ◌++◌, arith, if◌then◌else◌, get_elem?, Option-cases, inl, inr,
}
use nswall.Common.Every.{Every, Every-append, Every-map}
use nswall.Files.State.{Row, Request, Tree, Options, Sent, contains}
use nswall.Files.Click.{
  filter, with_row, show_tree, any_in_list, close_others, clean_up, set_expanded, set_collapsed,
  expand, collapse, handle, dir_of,
}
use nswall.Files.Step.{
  is_within, find_row, handle_all, rows_of, bind_tree, append_list, answer, drop_at, Event, clicked,
  answered, step,
}

abbrev pub IsTidy : Row → Type 0
IsTidy r = (r.is_directory && (if r.expanded then r.collapsed else not r.collapsed)) ≡ false

abbrev pub AllTidy : Tree → Type 0
AllTidy t = Every IsTidy t.rows

-- The server sends its directories collapsed.
abbrev pub SentCollapsed : Sent → Type 0
SentCollapsed s = (s.is_directory && not s.collapsed) ≡ false

-- What an event brings from the server.
abbrev pub BringsCollapsed : Event → Type 0
BringsCollapsed (clicked i) = Unit
BringsCollapsed (answered k sent) = Every SentCollapsed sent

Every-filter : (p : Row → Bool) (rows : List Row) → Every IsTidy rows → Every IsTidy (filter p rows)
Every-filter p [] v = tt
Every-filter p (r ∷ rows) v = ground (arith, v.0, Every-filter p rows v.1)

with_row-AllTidy :
    (i : ℕ) (f : Row → Row) (rows : List Row)
    → ((r : Row) → IsTidy r → IsTidy (f r))
    → Every IsTidy rows
    → Every IsTidy (with_row i f rows)
with_row-AllTidy i f rows h v =
    Every-map IsTidy (λ r. if r.id == i then f r else r) rows (λ r p. ground (arith, p, h r p)) v

show_tree-AllTidy :
    (i : ℕ) (dir : List ℕ) (t : Tree) → AllTidy t → AllTidy (show_tree (some i) dir t)
unfolding show_tree
show_tree-AllTidy i dir t v =
    with_row-AllTidy i (λ r. record r { waiting = true }) t.rows (λ r p. p) v

close_others-AllTidy : (l : ℕ) (t : Tree) → AllTidy t → AllTidy (close_others l t)
unfolding close_others
close_others-AllTidy l t v =
    Every-map IsTidy
      (λ r.
        if r.is_directory && (r.list == l || any_in_list l t.rows r.around)
        then record r { expanded = false; collapsed = true }
        else r)
      t.rows (λ r p. ground (arith, p)) v

clean_up-AllTidy : (i : ℕ) (t : Tree) → AllTidy t → AllTidy (clean_up i t)
unfolding clean_up
clean_up-AllTidy i t v = Every-filter (λ r. not (contains i r.around)) t.rows v

expand-AllTidy : (o : Options) (r : Row) (t : Tree) → AllTidy t → AllTidy (expand o r t)
unfolding expand
expand-AllTidy o r t v =
    let t1 = if not o.multi_folder then close_others r.list t else t in
    let h : AllTidy t1 = ground (arith, v, close_others-AllTidy r.list t v) in
    let t2 = show_tree (some r.id) (dir_of o r.rel) (clean_up r.id t1) in
    with_row-AllTidy r.id set_expanded t2.rows (λ x p. ground arith)
      (show_tree-AllTidy r.id (dir_of o r.rel) (clean_up r.id t1) (clean_up-AllTidy r.id t1 h))

collapse-AllTidy : (r : Row) (t : Tree) → AllTidy t → AllTidy (collapse r t)
unfolding collapse
collapse-AllTidy r t v = with_row-AllTidy r.id set_collapsed t.rows (λ x p. ground arith) v

handle-AllTidy : (o : Options) (r : Row) (t : Tree) → AllTidy t → AllTidy (handle o r t)
unfolding handle
handle-AllTidy o r t v = ground (arith, v, expand-AllTidy o r t v, collapse-AllTidy r t v)

handle_all-AllTidy : (o : Options) (n i : ℕ) (t : Tree) → AllTidy t → AllTidy (handle_all o n i t)
unfolding handle_all
handle_all-AllTidy o zero i t v = v
handle_all-AllTidy o (suc n) i t v = elim (Option-cases (find_row i t.rows)) [
  | inl e ↦ rw (e, handle_all) (handle_all-AllTidy o n i t v)
  | inr (r, e) ↦
      rw (e, handle_all) (handle_all-AllTidy o n i (handle o r t) (handle-AllTidy o r t v))
]

rows_of-AllTidy :
    (around : List ℕ) (l k : ℕ) (sent : List Sent)
    → Every SentCollapsed sent
    → Every IsTidy (rows_of around l k sent)
unfolding rows_of
rows_of-AllTidy around l k [] v = tt
rows_of-AllTidy around l k (s ∷ ss) v =
    (ground (arith, v.0), rows_of-AllTidy around l (suc k) ss v.1)

bind_tree-AllTidy : (target : Option ℕ) (t : Tree) → AllTidy t → AllTidy (bind_tree target t)
unfolding bind_tree
bind_tree-AllTidy target t v =
    Every-map IsTidy
      (λ r. if is_within target r.around then record r { handlers = suc r.handlers } else r) t.rows
      (λ r p. ground (arith, p)) v

append_list-AllTidy :
    (target : Option ℕ) (around : List ℕ) (sent : List Sent) (t : Tree)
    → Every SentCollapsed sent
    → AllTidy t
    → AllTidy (append_list target around sent t)
unfolding append_list bind_tree
append_list-AllTidy none around sent t w v =
    let new = rows_of around t.next (suc t.next) sent in
    bind_tree-AllTidy none (record t { rows = t.rows ++ new })
      (Every-append IsTidy t.rows new v (rows_of-AllTidy around t.next (suc t.next) sent w))
append_list-AllTidy (some i) around sent t w v =
    let new = rows_of around t.next (suc t.next) sent in
    let old = with_row i (λ r. record r { waiting = false }) t.rows in
    bind_tree-AllTidy (some i) (record t { rows = old ++ new })
      (Every-append IsTidy old new
        (with_row-AllTidy i (λ r. record r { waiting = false }) t.rows (λ r p. p) v)
        (rows_of-AllTidy around t.next (suc t.next) sent w))

answer-AllTidy :
    (q : Request) (sent : List Sent) (t : Tree)
    → Every SentCollapsed sent
    → AllTidy t
    → AllTidy (answer q sent t)
unfolding answer
answer-AllTidy q sent t w v = elim (Option-cases q.target) [
  | inl e ↦ rw (e, answer) (append_list-AllTidy none [] sent t w v)
  | inr (i, e) ↦ elim (Option-cases (find_row i t.rows)) [
    | inl h ↦ rw (e, answer) (rw h v)
    | inr (r, h) ↦ rw (e, answer) (rw h (append_list-AllTidy (some i) (i ∷ r.around) sent t w v))
  ]
]

-- Where the server sends its directories collapsed, each directory of the tree is collapsed or expanded
-- and not both, whatever is clicked and whichever answers come, in any order.
pub step-AllTidy :
    (o : Options) (ev : Event) (t : Tree) → BringsCollapsed ev → AllTidy t → AllTidy (step o ev t)
unfolding step
step-AllTidy o (clicked i) t w v = elim (Option-cases (find_row i t.rows)) [
  | inl e ↦ rw (e, step) v
  | inr (r, e) ↦ rw (e, step) (handle_all-AllTidy o r.handlers i t v)
]
step-AllTidy o (answered k sent) t w v = elim (Option-cases (get_elem? t.requests k)) [
  | inl e ↦ rw (e, step) v
  | inr (q, e) ↦
      rw (e, step) (answer-AllTidy q sent (record t { requests = drop_at k t.requests }) w v)
]
