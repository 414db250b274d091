-- ===== src/Files/Examples.antt =====
-- The theorems on the file tree at a tree with one directory, which is expanded.
use nswall.Common.{◌+◌, ◌≡◌, refl, true, false, some, [], ◌∷◌, get_elem?}
use nswall.Files.State.{Row, Request, Tree, Options, Sent}
use nswall.Files.Step.{answered, answer, step, find_row}
use nswall.Files.Step.{clicked, file_tree, handle_all}
use nswall.Files.Click.{handle, expand}
use nswall.Common.{map}
use nswall.Common.Every.{Every}
use nswall.Files.Step.Quiet.{IsOnce}
use nswall.Files.Step.Once.{made, clicks, answers, Calm-IsOnce}
use nswall.Files.Step.Tidy.{AllTidy, step-AllTidy}
use nswall.Files.Step.Twice.{answers_bind_twice}

abbrev options : Options
options = record { root = b'/' ∷ []; multi_folder = true; escape = λ t. t }

abbrev directory : Row
directory = record {
  id = 1;
  around = [];
  list = 0;
  rel = b'/' ∷ b'd' ∷ b'/' ∷ [];
  is_directory = true;
  collapsed = false;
  expanded = true;
  waiting = true;
  handlers = 1;
}

abbrev request : Request
request = record { target = some 1; dir = b'/' ∷ b'd' ∷ b'/' ∷ [] }

abbrev tree : Tree
tree = record {
  rows = directory ∷ [];
  branches = record { id = 0; around = []; hidden = false } ∷ [];
  loading = false;
  root_waiting = false;
  requests = request ∷ request ∷ [];
  next = 2;
  opened = [];
}

abbrev file : Sent
file = record { rel = b'f' ∷ []; is_directory = false; collapsed = false }

step-AllTidy_example : AllTidy (step options (answered 0 (file ∷ [])) tree)
step-AllTidy_example = step-AllTidy options (answered 0 (file ∷ [])) tree (refl, tt) (refl, tt)

answers_bind_twice_example :
    (x : Row) × (get_elem?
        (answer request (file ∷ []) (answer request (file ∷ []) tree)).rows
        (1 + 0)
      ≡ some x)
    × (x.rel ≡ b'f' ∷ [])
    × (x.handlers ≡ 2)
unfolding find_row
answers_bind_twice_example =
    answers_bind_twice 1 request request (file ∷ []) (file ∷ []) tree directory 0 file refl refl
      refl refl

abbrev sent_directory : Sent
sent_directory = record { rel = b'/' ∷ b'd' ∷ b'/' ∷ []; is_directory = true; collapsed = true }

abbrev made_tree : Tree
made_tree = step options (answered 0 (sent_directory ∷ [])) (file_tree options)

abbrev filled_tree : Tree
filled_tree = step options (answered 0 (file ∷ [])) (step options (clicked 1) made_tree)

-- The directory and the file in it.
filled_tree_runs : map (λ r. r.handlers) filled_tree.rows ≡ 1 ∷ 1 ∷ []
unfolding step file_tree handle_all handle expand
filled_tree_runs = refl

Calm-IsOnce_example : Every IsOnce filled_tree.rows
unfolding step file_tree
Calm-IsOnce_example =
    Calm-IsOnce options filled_tree
      (answers 0 (file ∷ []) (clicks 1 (answers 0 (sent_directory ∷ []) made) refl))
