-- ===== src/Files/Step.antt =====
-- The tree between its calls: clicks on links and the answers of the server.
pub mod Tidy
pub mod Twice
pub mod Quiet
pub mod Once
use nswall.Common.{
  ℕ, zero, suc, ◌+◌, Bool, true, false, not, ◌||◌, ◌==◌, Option, none, some, List, [], ◌∷◌, ◌++◌,
  if◌then◌else◌, map, get_elem?,
}
use nswall.Common.Texts.{Text}
use nswall.Files.State.{Row, Branch, Request, Tree, Options, Sent, contains}
use nswall.Files.Click.{handle, show_tree, with_row}

unfoldable pub find_row : ℕ → List Row → Option Row
find_row i [] = none
find_row i (r ∷ rows) = if r.id == i then some r else find_row i rows

-- The handler is run as often as it is bound, each time with the row as it is then.
unfoldable pub handle_all : Options → ℕ → ℕ → Tree → Tree
unfolding handle find_row
handle_all o zero i t = t
handle_all o (suc n) i t =
    let t1 : Tree = elim (find_row i t.rows) [ none ↦ t | some r ↦ handle o r t ] in
    handle_all o n i t1

-- The rows of a new list, the first one with the name `k`.
unfoldable pub rows_of : List ℕ → ℕ → ℕ → List Sent → List Row
rows_of around list k [] = []
rows_of around list k (s ∷ ss) =
    record {
      id = k;
      around = around;
      list = list;
      rel = s.rel;
      is_directory = s.is_directory;
      collapsed = s.collapsed;
      expanded = false;
      waiting = false;
      handlers = 0;
    }
    ∷ rows_of around list (suc k) ss

abbrev pub length_of : List Sent → ℕ
length_of [] = 0
length_of (s ∷ ss) = suc (length_of ss)

-- Whether an element with the elements `around` it is within the target.
abbrev pub is_within : Option ℕ → List ℕ → Bool
is_within none around = true
is_within (some i) around = contains i around

-- `bindTree`
unfoldable pub bind_tree : Option ℕ → Tree → Tree
bind_tree target t = record t {
  rows =
      map (λ r. if is_within target r.around then record r { handlers = suc r.handlers } else r)
        t.rows;
}

-- What is done with the server's answer, for the elements around the new list. A list comes hidden, and
-- all hidden ones within the target are then shown.
unfoldable pub append_list : Option ℕ → List ℕ → List Sent → Tree → Tree
unfolding rows_of bind_tree
append_list target around sent t =
    let shown =
      map (λ b. if is_within target b.around then record b { hidden = false } else b)
        (t.branches ++ record { id = t.next; around = around; hidden = true } ∷ []) in
    bind_tree target (record t {
      rows =
          elim target [
            | none ↦ t.rows
            | some i ↦ with_row i (λ r. record r { waiting = false }) t.rows
          ]
          ++ rows_of around t.next (suc t.next) sent;
      root_waiting = elim target [ none ↦ false | some i ↦ t.root_waiting ];
      branches = shown;
      next = suc t.next + length_of sent;
    })

-- An answer for an `li` that is gone changes nothing on the page.
unfoldable pub answer : Request → List Sent → Tree → Tree
unfolding append_list find_row
answer q sent t = elim q.target [
  | none ↦ append_list none [] sent t
  | some i ↦ elim (find_row i t.rows) [
    | none ↦ t
    | some r ↦ append_list (some i) (i ∷ r.around) sent t
  ]
]

abbrev pub drop_at : ℕ → List Request → List Request
drop_at i [] = []
drop_at zero (q ∷ qs) = qs
drop_at (suc i) (q ∷ qs) = q ∷ drop_at i qs

-- The body of the plugin, for an element.
unfoldable pub file_tree : Options → Tree
unfolding show_tree
file_tree o = show_tree none (o.escape o.root) (record {
  rows = [];
  branches = [];
  loading = true;
  root_waiting = false;
  requests = [];
  next = 0;
  opened = [];
})

pub data Event : Type 0 where
  clicked : ℕ → Event
  answered : ℕ → List Sent → Event

unfoldable pub step : Options → Event → Tree → Tree
unfolding handle_all answer
step o (clicked i) t = elim (find_row i t.rows) [ none ↦ t | some r ↦ handle_all o r.handlers i t ]
step o (answered k sent) t = elim (get_elem? t.requests k) [
  | none ↦ t
  | some q ↦ answer q sent (record t { requests = drop_at k t.requests })
]
