-- ===== src/Files/Click.antt =====
-- The handler of the links, and the request that it makes.
use nswall.Common.{
  ℕ, Bool, true, false, not, ◌||◌, ◌&&◌, ◌==◌, Option, none, some, List, [], ◌∷◌, ◌++◌,
  if◌then◌else◌, map,
}
use nswall.Common.Texts.{Text}
use nswall.Files.State.{Row, Tree, Options, contains}

abbrev pub null_text : Text
null_text = b'n' ∷ b'u' ∷ b'l' ∷ b'l' ∷ []

-- What `match( /.*\// )` finds: the text up to its last slash.
unfoldable pub up_to_slash : Text → Option Text
up_to_slash [] = none
up_to_slash (c ∷ t) = elim (up_to_slash t) [
  | some s ↦ some (c ∷ s)
  | none ↦ if c == b'/' then some (c ∷ []) else none
]

-- `escape` of that; `null` is escaped as the text of it.
unfoldable pub dir_of : Options → Text → Text
unfolding up_to_slash
dir_of o rel = o.escape (elim (up_to_slash rel) [ none ↦ null_text | some s ↦ s ])

abbrev pub filter {ℓ} : {A : Type ℓ} → (A → Bool) → List A → List A
filter p [] = []
filter p (x ∷ xs) = let rest = filter p xs in if p x then x ∷ rest else rest

abbrev pub with_row : ℕ → (Row → Row) → List Row → List Row
with_row i f rows = map (λ r. if r.id == i then f r else r) rows

-- `showTree`, up to the request: the message of the first load goes.
unfoldable pub show_tree : Option ℕ → Text → Tree → Tree
show_tree target dir t = record t {
  rows = elim target [
    | none ↦ t.rows
    | some i ↦ with_row i (λ r. record r { waiting = true }) t.rows
  ];
  root_waiting = elim target [ none ↦ true | some i ↦ t.root_waiting ];
  loading = false;
  requests = t.requests ++ record { target = target; dir = dir } ∷ [];
}

-- An `li` around stands in the list `l`.
unfoldable pub any_in_list : ℕ → List Row → List ℕ → Bool
any_in_list l [] around = false
any_in_list l (r ∷ rows) around = (r.list == l && contains r.id around) || any_in_list l rows around

-- Without `multiFolder`: the lists within the list `l` are hidden, and its directories collapsed.
unfoldable pub close_others : ℕ → Tree → Tree
unfolding any_in_list
close_others l t = record t {
  branches =
      map (λ b. if any_in_list l t.rows b.around then record b { hidden = true } else b) t.branches;
  rows =
      map
        (λ r.
          if r.is_directory && (r.list == l || any_in_list l t.rows r.around)
          then record r { expanded = false; collapsed = true }
          else r)
        t.rows;
}

-- `find('UL').remove()`
unfoldable pub clean_up : ℕ → Tree → Tree
clean_up i t = record t {
  rows = filter (λ r. not (contains i r.around)) t.rows;
  branches = filter (λ b. not (contains i b.around)) t.branches;
}

abbrev pub set_expanded : Row → Row
set_expanded r = record r { collapsed = false; expanded = true }

abbrev pub set_collapsed : Row → Row
set_collapsed r = record r { expanded = false; collapsed = true }

unfoldable pub expand : Options → Row → Tree → Tree
unfolding close_others clean_up show_tree dir_of
expand o r t =
    let t1 = if not o.multi_folder then close_others r.list t else t in
    let t2 = show_tree (some r.id) (dir_of o r.rel) (clean_up r.id t1) in
    record t2 { rows = with_row r.id set_expanded t2.rows }

unfoldable pub collapse : Row → Tree → Tree
collapse r t = record t {
  branches = map (λ b. if contains r.id b.around then record b { hidden = true } else b) t.branches;
  rows = with_row r.id set_collapsed t.rows;
}

-- The handler, for the `li` of the link as it is then.
unfoldable pub handle : Options → Row → Tree → Tree
unfolding expand collapse
handle o r t =
    if r.is_directory
    then if r.collapsed then expand o r t else collapse r t
    else record t { opened = r.rel ∷ t.opened }
