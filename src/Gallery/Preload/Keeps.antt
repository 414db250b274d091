-- ===== src/Gallery/Preload/Keeps.antt =====
-- The preloader leaves alone what the gallery shows.
use nswall.Common.{◌≡◌, arith, length}
use nswall.Common.Int.{ℤ}
use nswall.Gallery.State.{Gallery}
use nswall.Gallery.Index.{get_next_index}
use nswall.Gallery.Layout.{core}
use nswall.Gallery.Preload.{
  preload_next, preload_image, preload_from, preload_recursive, preload_init,
}

module _ (g : Gallery) where
  pub preload_next-SameCore : (s c : ℤ) → core (preload_next g s c) ≡ core g
  unfolding preload_next
  preload_next-SameCore s c = ground arith

  preload_image-SameCore : (s c : ℤ) → core (preload_image g s c) ≡ core g
  unfolding preload_image
  preload_image-SameCore s c = ground (arith, preload_next-SameCore s c)

  preload_from-SameCore : (s c : ℤ) → core (preload_from g s c) ≡ core g
  unfolding preload_from
  preload_from-SameCore s c = ground (arith, preload_image-SameCore s c)

  pub preload_recursive-SameCore : (s c : ℤ) → core (preload_recursive g s c) ≡ core g
  unfolding preload_recursive
  preload_recursive-SameCore s c = ground (
    arith,
    preload_from-SameCore s c,
    preload_from-SameCore g.preload_start_index
        (get_next_index (length g.images) g.preload_start_index),
  )

pub preload_init-SameCore : (g : Gallery) → core (preload_init g) ≡ core g
unfolding preload_init
preload_init-SameCore g =
    let start = g.current_index in
    ground (
      arith,
      preload_recursive-SameCore (record g { preload_start_index = start }) start
          (get_next_index (length g.images) start),
    )
