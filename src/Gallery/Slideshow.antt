-- ===== src/Gallery/Slideshow.antt =====
-- The slideshow: `pause`, `play`, `toggleSlideshow`, `ssAdvance`, and `clickHandler`.
pub mod Advances
use nswall.Common.{
  ℕ, Bool, true, false, not, ◌&&◌, Option, none, some, ◌≡◌, refl, if◌then◌else◌, length,
}
use nswall.Common.Int.{ℤ, pos, ◌-ℤ◌, leb_ℤ}
use nswall.Common.Result.{Result, ok, ◌>>=◌}
use nswall.Gallery.State.{Gallery, Control, play_link, pause_link}
use nswall.Gallery.Index.{get_next_index}
use nswall.Gallery.Pager.{hash_at}
use nswall.Gallery.Display.{goto}

-- A method that may set `location.href` to `#` and a hash returns that hash too.
pub record Outcome : Type 0 where
  pub gallery : Gallery
  pub location : Option ℕ

abbrev pub stay : Gallery → Outcome
stay g = record { gallery = g; location = none }

unfoldable pub ss_advance : Gallery → Result Outcome
ss_advance g = do
  let next_index = get_next_index (length g.images) g.current_index
  next_hash ← hash_at g next_index
  if g.settings.enable_history
      then ok (record { gallery = g; location = some next_hash })
      else (do g1 ← goto g next_index; ok (stay g1))

-- The link of the slideshow control is there only if `renderSSControls` is set.
unfoldable pub set_control : Control → Gallery → Gallery
set_control c g = elim g.view.control [
  | none ↦ g
  | some _ ↦ record g { view = record (g.view) { control = some c } }
]

unfoldable pub stop_slideshow : Gallery → Gallery
unfolding set_control
stop_slideshow g = set_control play_link (record g { interval = false })

unfoldable pub toggle_slideshow : Gallery → Result Outcome
unfolding stop_slideshow set_control
toggle_slideshow g = if g.interval then ok (stay (stop_slideshow g)) else (do
  o ← ss_advance g
  ok (record o { gallery = set_control pause_link (record (o.gallery) { interval = true }) }))

unfoldable pub pause : Gallery → Result Outcome
unfolding toggle_slideshow
pause g = if g.interval then toggle_slideshow g else ok (stay g)

unfoldable pub play : Gallery → Result Outcome
unfolding toggle_slideshow
play g = if not g.interval then toggle_slideshow g else ok (stay g)

-- `clickHandler`, for a link whose hash is a number, or -1. With `enableHistory` the browser follows
-- the link itself, which the environment does (History).
unfoldable pub click_handler : Gallery → ℤ → Result Outcome
unfolding pause ◌-ℤ◌
click_handler g hash = do
  o ← pause g
  let index = hash -ℤ pos g.offset
  if g.settings.enable_history
      then ok o
      else if leb_ℤ (pos 0) hash && leb_ℤ (pos 0) index
      then (do g1 ← goto o.gallery index; ok (stay g1))
      else ok o
