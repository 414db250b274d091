-- ===== src/Files/State.antt =====
-- The tree of files and directories on a page, flat, and the requests for the lists in it.
use nswall.Common.{ℕ, Bool, false, Option, List, [], ◌∷◌, ◌||◌, ◌==◌}
use nswall.Common.Texts.{Text}

-- An `li`. `around` are the `li`s around it, the nearest first, and `list` is the `ul` that it stands in.
-- `handlers` counts how often the handler is bound to its link.
pub record Row : Type 0 where
  pub id : ℕ
  pub around : List ℕ
  pub list : ℕ
  pub rel : Text
  pub is_directory : Bool
  pub collapsed : Bool
  pub expanded : Bool
  pub waiting : Bool
  pub handlers : ℕ

-- A `ul`, with the `li`s around it.
pub record Branch : Type 0 where
  pub id : ℕ
  pub around : List ℕ
  pub hidden : Bool

-- A request for the list of a directory, for the element of the tree (`none`) or an `li`.
pub record Request : Type 0 where
  pub target : Option ℕ
  pub dir : Text

-- `loading` says that the message of the first load is there; `next` is the next new name of an element;
-- `opened` has the calls of `h`, the last one first.
pub record Tree : Type 0 where
  pub rows : List Row
  pub branches : List Branch
  pub loading : Bool
  pub root_waiting : Bool
  pub requests : List Request
  pub next : ℕ
  pub opened : List Text

pub record Options : Type 0 where
  pub root : Text
  pub multi_folder : Bool
  pub escape : Text → Text

-- An entry of the list that the server answers with.
pub record Sent : Type 0 where
  pub rel : Text
  pub is_directory : Bool
  pub collapsed : Bool

abbrev pub contains : ℕ → List ℕ → Bool
contains i [] = false
contains i (j ∷ js) = i == j || contains i js
