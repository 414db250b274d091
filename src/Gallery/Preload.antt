-- ===== src/Gallery/Preload.antt =====
-- The image preloader: `preloadInit`, `preloadRecursive`, `preloadNext` and its `onload`.
pub mod Keeps
pub mod Window
use nswall.Common.{
  ℕ, suc, ◌-◌, Bool, true, false, ◌&&◌, Option, none, some, List, [], ◌∷◌, ◌++◌, if◌then◌else◌,
  length,
}
use nswall.Common.Int.{ℤ, pos, negsuc, ◌+ℤ◌, ◌-ℤ◌, ltb_ℤ, leb_ℤ, eqb_ℤ}
use nswall.Gallery.State.{Gallery, ImageData, Timer, preload_recursive_timer, Load, preload_load}
use nswall.Gallery.Index.{at_index, get_next_index}

unfoldable pub add_timer : Timer → Gallery → Gallery
add_timer t g = record g { timers = g.timers ++ t ∷ [] }

unfoldable pub preload_next : Gallery → ℤ → ℤ → Gallery
unfolding add_timer
preload_next g start_index current_index =
    let next_index = get_next_index (length g.images) current_index in
    if eqb_ℤ next_index start_index
    then record g { is_preload_complete = true }
    else add_timer (preload_recursive_timer start_index next_index) g

-- `preloadCount`
unfoldable pub preload_count : ℕ → ℤ → ℤ → ℤ
unfolding ◌+ℤ◌ ◌-ℤ◌
preload_count n start_index current_index =
    let count = current_index -ℤ start_index in
    if ltb_ℤ count (pos 0) then pos n -ℤ pos 1 -ℤ start_index +ℤ current_index else count

-- Loads the image of an entry that has none yet.
unfoldable pub preload_image : Gallery → ℤ → ℤ → Gallery
unfolding preload_next
preload_image g start_index current_index = elim (at_index g.images current_index) [
  | none ↦ g
  | some image_data ↦
      if image_data.image
      then preload_next g start_index current_index
      else record g { loads = g.loads ++ preload_load start_index current_index ∷ [] }
]

-- `preloadRecursive` once `startIndex` is `preloadStartIndex`.
unfoldable pub preload_from : Gallery → ℤ → ℤ → Gallery
unfolding add_timer preload_image preload_count
preload_from g start_index current_index =
    let ahead = g.settings.preload_ahead in
    let count = preload_count (length g.images) start_index current_index in
    if leb_ℤ (pos 0) ahead && ltb_ℤ ahead count
    then add_timer (preload_recursive_timer start_index current_index) g
    else preload_image g start_index current_index

-- The recursive call is made with `preloadStartIndex` itself, so it is made once at most.
unfoldable pub preload_recursive : Gallery → ℤ → ℤ → Gallery
unfolding preload_from
preload_recursive g start_index current_index =
    let start = g.preload_start_index in
    if eqb_ℤ start_index start
    then preload_from g start_index current_index
    else preload_from g start (get_next_index (length g.images) start)

unfoldable pub preload_init : Gallery → Gallery
unfolding preload_recursive
preload_init g =
    let start = g.current_index in
    let g1 = record g { preload_start_index = start } in
    if eqb_ℤ g.settings.preload_ahead (pos 0)
    then g
    else preload_recursive g1 start (get_next_index (length g.images) start)
