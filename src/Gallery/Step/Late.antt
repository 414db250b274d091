-- ===== src/Gallery/Step/Late.antt =====
-- An image that arrives late, and the control of a slideshow that starts by itself.
use nswall.Common.{ℕ, ◌+◌, ◌≡◌, true, false, some, arith, length, List}
use nswall.Common.Int.{ℤ, pos_part}
use nswall.Common.Result.{Returns}
use nswall.Gallery.State.{Settings, Gallery, refresh_load}
use nswall.Gallery.Index.{get_next_index}
use nswall.Gallery.Index.Laws.{get_next_index-InRange}
use nswall.Gallery.Layout.{core, hash_at_of_InRange}
use nswall.Gallery.Display.{build_image}
use nswall.Gallery.Display.Synced.{IsSynced}
use nswall.Gallery.Slideshow.Advances.{ControlAgrees}
use nswall.Gallery.Init.{Item, new_gallery}
use nswall.Gallery.Step.{mark_loaded, is_transitioning, run_load}
use nswall.Gallery.Step.Valid.{loaded-IsSynced}

-- The image at `index` is on display, within a link to the image behind the current one.
abbrev pub Displays : Gallery → ℤ → Gallery → Type 0
Displays g index g' =
    (g'.current_index ≡ g.current_index)
    × (g'.view.displayed
        ≡ some (record {
          index = index;
          advance = g.offset + pos_part (get_next_index (length g.images) g.current_index);
        }))

build_image-Displays :
    (g : Gallery) (index : ℤ)
    → g.settings.image_container_sel ≡ true
    → IsSynced (core g)
    → Returns (Displays g index) (build_image g index)
unfolding build_image
build_image-Displays g index y v = ground (
  arith,
  hash_at_of_InRange g (get_next_index (length g.images) g.current_index) v.ready.laid_out
      (get_next_index-InRange (length g.images) g.current_index v.ready.in_range),
)

-- In a gallery with an image container, whose page and thumbnails are those of its current image
-- (`IsSynced`), an image that a call of `refresh` waited for is put on display when it arrives and
-- that call's transition is over, also where the gallery has meanwhile gone to another image, whose
-- index it keeps.
pub run_load-Displays :
    (g : Gallery) (index : ℤ) (k : ℕ)
    → g.settings.image_container_sel ≡ true
    → is_transitioning g k ≡ false
    → IsSynced (core g)
    → Returns
        (λ g'. Displays (record g { images = mark_loaded g.images index }) index g')
        (run_load g (refresh_load index k))
unfolding run_load
run_load-Displays g index k y z v =
    let g1 = record g { images = mark_loaded g.images index } in
    simp z (build_image-Displays g1 index y (loaded-IsSynced (core g) index v))

-- Where a new gallery has a container for controls, the slideshow control is asked for and the
-- slideshow is to start by itself, the control offers to pause before the slideshow runs.
pub auto_start_disagrees :
    (s : Settings) (offset : ℕ) (items : List Item)
    → s.controls_container_sel ≡ true
    → s.render_ss_controls ≡ true
    → s.auto_start ≡ true
    → ¬ ControlAgrees (new_gallery s offset items)
unfolding new_gallery
auto_start_disagrees s offset items a b c h = ground arith
