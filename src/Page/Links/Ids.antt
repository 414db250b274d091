-- ===== src/Page/Links/Ids.antt =====
-- The links of a switch keep their ids and their order.
use Prim.Native.String.{String}
use nswall.Common.{ℕ, zero, suc, ◌≡◌, refl, false, List, [], ◌∷◌, Option, map}
use nswall.Page.State.{Link}
use nswall.Page.Links.{activate, mark, id_at}

id_at-inactive :
    (ls : List Link) (i : ℕ)
    → id_at (map (λ (x : Link). record x { active = false }) ls) i ≡ id_at ls i
id_at-inactive [] i = refl
id_at-inactive (l ∷ ls) zero = refl
id_at-inactive (l ∷ ls) (suc i) = id_at-inactive ls i

pub id_at-activate : (j : ℕ) (ls : List Link) (i : ℕ) → id_at (activate j ls) i ≡ id_at ls i
unfolding activate
id_at-activate j [] i = refl
id_at-activate zero (l ∷ ls) zero = refl
id_at-activate zero (l ∷ ls) (suc i) = id_at-inactive ls i
id_at-activate (suc j) (l ∷ ls) zero = refl
id_at-activate (suc j) (l ∷ ls) (suc i) = id_at-activate j ls i

pub id_at-mark : (c : Option String) (ls : List Link) (i : ℕ) → id_at (mark c ls) i ≡ id_at ls i
unfolding mark
id_at-mark c [] i = refl
id_at-mark c (l ∷ ls) zero = refl
id_at-mark c (l ∷ ls) (suc i) = id_at-mark c ls i
