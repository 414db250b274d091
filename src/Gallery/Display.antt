-- ===== src/Gallery/Display.antt =====
-- What a gallery shows: `buildImage`, `syncThumbs`, `updateThumbs`, `refresh` and `goto`. A delegate
-- that takes a callback is logged, and the environment runs the callback later (Step).
pub mod Keeps
pub mod Thumbs
pub mod Synced
pub mod Transition
pub mod Presents
pub mod Goto
use nswall.Common.{
  ℕ, zero, suc, ◌-◌, Bool, true, false, Option, none, some, List, [], ◌∷◌, ◌++◌, ◌==◌,
  if◌then◌else◌, length, set,
}
use nswall.Common.Int.{ℤ, pos, negsuc, eqb_ℤ}
use nswall.Common.Result.{Result, ok, type_error, ◌>>=◌, defined}
use nswall.Gallery.State.{
  Gallery, ImageData, Thumb, Load, refresh_load, Delegate, change, transition_out, transition_in,
  page_transition_out, page_transition_in,
}
use nswall.Gallery.Index.{at_index, get_next_index, get_prev_index, clamp, page_of}
use nswall.Gallery.Pager.{hash_at, rebuild_thumbs}

unfoldable pub log : Delegate → Gallery → Gallery
log d g = record g { delegates = g.delegates ++ d ∷ [] }

-- The head of `buildImage`: the image in its container, within a link to the next image.
unfoldable pub place_image : Gallery → ℤ → Result Gallery
place_image g index =
    if g.settings.image_container_sel
    then (do
      hash ← hash_at g (get_next_index (length g.images) g.current_index)
      let loading = if g.settings.loading_container_sel then false else g.view.loading_visible
      ok (record g {
        view = record (g.view) {
          loading_visible = loading;
          displayed = some (record { index = index; advance = hash });
        };
      }))
    else ok g

-- `buildImage`, for the image of the entry `index`.
unfoldable pub build_image : Gallery → ℤ → Result Gallery
unfolding place_image log
build_image g index = do
  g1 ← place_image g index
  ok (
      if g.settings.on_transition_in
      then log transition_in g1
      else record g1 { view = record (g1.view) { containers_visible = true } })

-- The controls, in `transitionOutCallback`.
unfoldable pub update_controls : Gallery → Result Gallery
update_controls g =
    if g.settings.controls_container_sel
    then (do
      prev ← hash_at g (get_prev_index (length g.images) g.current_index)
      next ← hash_at g (get_next_index (length g.images) g.current_index)
      ok (
          if g.settings.render_nav_controls
          then record g { view = record (g.view) { prev_link = some prev; next_link = some next } }
          else g))
    else ok g

unfoldable pub show_caption : Gallery → ImageData → Gallery
show_caption g image_data =
    if g.settings.caption_container_sel
    then record g { view = record (g.view) { shown_caption = some image_data.caption } }
    else g

unfoldable pub show_loading : Gallery → Gallery
show_loading g =
    if g.settings.loading_container_sel
    then record g { view = record (g.view) { loading_visible = true } }
    else g

-- The image that is there at once, or the loading container.
unfoldable pub show_loaded : Gallery → ImageData → Result Gallery
unfolding show_loading
show_loaded g image_data =
    if image_data.image then build_image g g.current_index else ok (show_loading g)

-- `transitionOutCallback` from the caption on.
unfoldable pub show_image : Gallery → Result Gallery
unfolding show_caption show_loaded
show_image g = do
  image_data ← defined (at_index g.images g.current_index)
  show_loaded (show_caption g image_data) image_data

-- `transitionOutCallback` of the call of `refresh` with the flag `k`.
unfoldable pub transition_out_callback : Gallery → ℕ → Result Gallery
unfolding update_controls show_image
transition_out_callback g k = do
  g1 ← update_controls (record g { transitioning = set g.transitioning k false })
  show_image g1

-- `transitionOutCallback` of `updateThumbs`.
unfoldable pub page_transition_out_callback : Gallery → Result Gallery
unfolding log
page_transition_out_callback g = do
  g1 ← rebuild_thumbs g
  ok (
      if g.settings.on_page_transition_in
      then log page_transition_in g1
      else record g1 { view = record (g1.view) { thumbs_visible = true } })

unfoldable pub update_thumbs : Gallery → Result Gallery
unfolding log page_transition_out_callback
update_thumbs g =
    if g.settings.on_page_transition_out
    then ok (log page_transition_out g)
    else page_transition_out_callback
        (record g { view = record (g.view) { thumbs_visible = false } })

-- The class `selected` is removed from all thumbnails, and given to the one at `index`, if it is
-- counted from `i` on. (`eq` takes a negative index from the end: no call here has one.)
unfoldable pub select : ℕ → ℤ → List Thumb → List Thumb
select i index [] = []
select i index (t ∷ ts) = record t { selected = eqb_ℤ (pos i) index } ∷ select (suc i) index ts

unfoldable pub select_current : Gallery → Gallery
unfolding select
select_current g = record g {
  view = record (g.view) { thumbs = select 0 g.current_index g.view.thumbs };
}

-- The gallery on the page of its current image.
abbrev pub turned : Gallery → Gallery
turned g = record g { current_page = page_of g.settings.num_thumbs g.current_index }

unfoldable pub turn_page : Gallery → Result Gallery
unfolding update_thumbs
turn_page g =
    if eqb_ℤ (page_of g.settings.num_thumbs g.current_index) g.current_page
    then ok g
    else update_thumbs (turned g)

unfoldable pub sync_thumbs : Gallery → Result Gallery
unfolding turn_page select_current
sync_thumbs g = do g1 ← turn_page g; ok (select_current g1)

-- The transition that `refresh` starts.
unfoldable pub transition : Gallery → ℕ → Result Gallery
unfolding log transition_out_callback
transition g k =
    if g.settings.on_transition_out
    then ok (log (transition_out k) g)
    else transition_out_callback
        (record g { view = record (g.view) { containers_visible = false } }) k

-- The request for an image that is not there yet.
unfoldable pub request_image : Gallery → ImageData → ℕ → Gallery
request_image g image_data k =
    if image_data.image
    then g
    else record g { loads = g.loads ++ refresh_load g.current_index k ∷ [] }

unfoldable pub refresh : Gallery → Result Gallery
unfolding transition request_image sync_thumbs
refresh g = elim (at_index g.images g.current_index) [
  | none ↦ ok g
  | some image_data ↦ (do
    let k = length g.transitioning
    g1 ← transition (record g { transitioning = g.transitioning ++ true ∷ [] }) k
    sync_thumbs (request_image g1 image_data k))
]

-- The assignments of `goto`, and the call of `onChange`.
unfoldable pub move_to : Gallery → ℤ → Gallery
unfolding log
move_to g index =
    let target = clamp (length g.images) index in
    let g1 = if g.settings.on_change then log (change g.current_index target) g else g in
    record g1 { current_index = target; preload_start_index = target }

unfoldable pub goto : Gallery → ℤ → Result Gallery
unfolding move_to refresh
goto g index = refresh (move_to g index)
