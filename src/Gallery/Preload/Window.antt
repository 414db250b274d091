-- ===== src/Gallery/Preload/Window.antt =====
-- How far ahead of its start the preloader works.
use nswall.Common.{ℕ, ◌+◌, ◌-◌, ◌<◌, ◌≡◌, arith, ltb, if◌then◌else◌}
use nswall.Common.Int.{pos}
use nswall.Gallery.Preload.{preload_count}

-- For the image `d` places behind the start, `d` below the number of images, `preloadCount` is `d`
-- up to the last image of the gallery; past the end, where the places go on from the first image,
-- it is one less.
pub preload_count_lem :
    (n start d : ℕ)
    → start < n
    → d < n
    → preload_count n (pos start) (pos (if ltb (start + d) n then start + d else start + d - n))
      ≡ pos (if ltb (start + d) n then d else d - 1)
unfolding preload_count
preload_count_lem n start d h l = ground arith
