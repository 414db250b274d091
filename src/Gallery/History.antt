-- ===== src/Gallery/History.antt =====
-- The browser history: `getHashFromString`, `historyInit`, `historyAddHistory`, `historyCheck` and
-- `historyCallback`. How a text converts to a number is a parameter, `none` for NaN.
pub mod Stacks
pub mod Follows
use nswall.Common.{
  ℕ, zero, suc, ◌-◌, Bool, true, false, not, ◌&&◌, Option, none, some, List, [], ◌∷◌, ◌++◌, ltb,
  ◌==◌, if◌then◌else◌, length, get_elem?, set, replicate,
}
use nswall.Common.Int.{ℤ, pos, negsuc, ltb_ℤ}
use nswall.Common.Texts.{Text, text_eq}
use nswall.Common.Result.{Result, ok, ◌>>=◌}
use nswall.Gallery.State.{Gallery}
use nswall.Gallery.Display.{goto}
use nswall.Gallery.Registry.{Registry, get_gallery, get_index}

-- `replace(/^.*#/, '')` for a text with no line break: what follows the last `#`, where there is
-- one. `acc` is what to return if the rest has none.
unfoldable pub after_hash_from : Text → Text → Text
after_hash_from acc [] = acc
after_hash_from acc (c ∷ s) = after_hash_from (if c == b'#' then s else acc) s

unfoldable pub after_hash : Text → Text
unfolding after_hash_from
after_hash s = after_hash_from s s

-- The variables of the history, and what the browser tells: its kind, `location.hash`, and
-- `history.length`. The head of `back` is the end of `historyBackStack`; `none` is `undefined`.
pub record History : Type 0 where
  pub safari : Bool
  pub msie : Bool
  pub location_hash : Text
  pub history_length : ℕ
  pub is_initialized : Bool
  pub dont_check : Bool
  pub is_first : Bool
  pub current_hash : Text
  pub back : List (Option Text)
  pub forward : List (Option Text)

abbrev pub hash_sign : Text
hash_sign = b'#' ∷ []

unfoldable pub history_init : History → History
history_init s =
    if s.is_initialized
    then s
    else if s.msie
    then record s {
      is_initialized = true;
      current_hash = elim s.location_hash [ [] ↦ hash_sign | c ∷ t ↦ c ∷ t ];
    }
    else if s.safari
    then record s {
      is_initialized = true;
      current_hash = s.location_hash;
      back = replicate s.history_length none;
      forward = [];
      is_first = true;
    }
    else record s { is_initialized = true; current_hash = s.location_hash }

unfoldable pub history_add_history : Text → History → History
history_add_history hash s = record s { back = some hash ∷ s.back; forward = []; is_first = true }

-- `pop` and `shift` of an empty array leave it, and return `undefined`.
unfoldable pub first : List (Option Text) → Option Text
first [] = none
first (x ∷ xs) = x

unfoldable pub rest : List (Option Text) → List (Option Text)
rest [] = []
rest (x ∷ xs) = xs

-- `n` rounds of `to.push(from.pop())`, where the ends that are pushed and popped are the heads.
unfoldable pub shuttle :
    ℕ → List (Option Text) → List (Option Text) → List (Option Text) × List (Option Text)
unfolding first rest
shuttle zero from to = (from, to)
shuttle (suc n) from to = shuttle n (rest from) (first from ∷ to)

-- The two loops, for `historyDelta` other than 0.
unfoldable pub move_stacks : History → History
unfolding shuttle
move_stacks s =
    if ltb s.history_length (length s.back)
    then (let (b, f) = shuttle (length s.back - s.history_length) s.back s.forward in
        record s { is_first = false; back = b; forward = f })
    else (let (f, b) = shuttle (s.history_length - length s.back) s.forward s.back in
        record s { is_first = false; back = b; forward = f })

-- `historyCheck`, up to the call of `historyCallback`: the new state, and whether it is called.
unfoldable pub check : History → History × Bool
unfolding move_stacks
check s =
    if s.safari
    then (if s.dont_check
        then (s, false)
        else if not (s.history_length == length s.back)
        then (let moved = move_stacks s in
            elim (first moved.back) [
              | none ↦ (moved, false)
              | some _ ↦ (record moved { current_hash = s.location_hash }, true)
            ])
        else elim (first s.back) [
          | none ↦ if s.is_first then (s, false) else (record s { is_first = true }, true)
          | some _ ↦ (s, false)
        ])
    else if text_eq s.location_hash s.current_hash
    then (s, false)
    else (record s { current_hash = s.location_hash }, true)

-- The whole page: its galleries and its history.
pub record Site : Type 0 where
  pub registry : Registry
  pub history : History

module _ (to_number : Text → Option ℤ) where
  unfoldable pub get_hash_from_string : Text → ℤ
  unfolding after_hash
  get_hash_from_string [] = negsuc 0
  get_hash_from_string (c ∷ s) = elim (to_number (after_hash (c ∷ s))) [
    | none ↦ negsuc 0
    | some n ↦ n
  ]

  unfoldable pub history_callback : Registry → Text → Result Registry
  unfolding get_hash_from_string get_index
  history_callback r location_hash =
      let hash = get_hash_from_string location_hash in
      if ltb_ℤ hash (pos 0) then ok r else elim (get_gallery r hash) [
        | none ↦ ok r
        | some j ↦ elim (get_elem? r.galleries j) [
          | none ↦ ok r
          | some g ↦ (do
            g1 ← goto g (get_index g hash)
            ok (record r { galleries = set r.galleries j g1 }))
        ]
      ]

  unfoldable pub history_check : Site → Result Site
  unfolding check history_callback
  history_check s =
      let (history, called) = check s.history in
      if called
      then (do
        registry ← history_callback s.registry history.location_hash
        ok (record { registry = registry; history = history }))
      else ok (record s { history = history })
