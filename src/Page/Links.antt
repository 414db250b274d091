-- ===== src/Page/Links.antt =====
-- The links of the switches, and which of them have the class `active`.
pub mod Ids
use Prim.Native.String.{String}
use nswall.Common.{
  ℕ, zero, suc, Bool, true, false, List, [], ◌∷◌, Option, none, some, get_elem?, set, map,
  if◌then◌else◌,
}
use nswall.Common.Texts.{is_text}
use nswall.Page.State.{Link}

-- The class is removed from all links, and given to the one at `i`.
unfoldable pub activate : ℕ → List Link → List Link
activate i [] = []
activate zero (l ∷ ls) =
    record l { active = true } ∷ map (λ (x : Link). record x { active = false }) ls
activate (suc i) (l ∷ ls) = record l { active = false } ∷ activate i ls

-- How a cookie's value stands in the text of a selector.
abbrev pub selector_text : Option String → String
selector_text none = "null"
selector_text (some s) = s

-- The class is given to the links with the id that the cookie names.
unfoldable pub mark : Option String → List Link → List Link
mark cookie [] = []
mark cookie (l ∷ ls) =
    record l { active = if is_text l.id (selector_text cookie) then true else l.active }
    ∷ mark cookie ls

abbrev pub id_at : List Link → ℕ → Option String
id_at [] i = none
id_at (l ∷ ls) zero = some l.id
id_at (l ∷ ls) (suc i) = id_at ls i
