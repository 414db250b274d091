-- ===== src/Menus/State.antt =====
-- The menus of a page: their items in the order of the document, and what the plugin keeps for them.
use nswall.Common.{ℕ, zero, suc, Bool, false, Option, List, [], ◌∷◌, ◌||◌, ◌==◌, if◌then◌else◌}

-- An `li` of a menu. `ancestors` are the indices of the items around it, the nearest first; `shown` says
-- that its own `ul` is displayed. The classes are hoverClass, bcClass and pathClass.
pub record Entry : Type 0 where
  pub ancestors : List ℕ
  pub has_ul : Bool
  pub hover : Bool
  pub shown : Bool
  pub breadcrumb : Bool
  pub on_path : Bool

-- A menu and its options. `path` is `$path`; `pending` has the items of the timer `sfTimer` that still
-- runs: a new one of the menu is set only when the old one has been cleared.
pub record Menu : Type 0 where
  pub entries : List Entry
  pub path : List ℕ
  pub retain_path : Bool
  pub pending : Option (List ℕ)

-- `sf.o`, and the index in it of `sf.op`.
pub record Menus : Type 0 where
  pub menus : List Menu
  pub op : ℕ

abbrev pub contains : ℕ → List ℕ → Bool
contains i [] = false
contains i (j ∷ js) = i == j || contains i js

abbrev pub meets : List ℕ → List ℕ → Bool
meets [] js = false
meets (i ∷ is) js = contains i js || meets is js

-- A change at one place of a list; out of range nothing changes.
abbrev pub update {ℓ} : {A : Type ℓ} → ℕ → (A → A) → List A → List A
update i f [] = []
update zero f (x ∷ xs) = f x ∷ xs
update (suc i) f (x ∷ xs) = x ∷ update i f xs

-- A change of each element that may read its index; the first one has the index `k`.
abbrev pub each_at {ℓ} : {A : Type ℓ} → (ℕ → A → A) → ℕ → List A → List A
each_at f k [] = []
each_at f k (x ∷ xs) = f k x ∷ each_at f (suc k) xs

-- The indices of the elements that a selector finds; the first element has the index `k`.
unfoldable pub indices_from {ℓ} : {A : Type ℓ} → (ℕ → A → Bool) → ℕ → List A → List ℕ
indices_from p k [] = []
indices_from p k (x ∷ xs) = let rest = indices_from p (suc k) xs in if p k x then k ∷ rest else rest
