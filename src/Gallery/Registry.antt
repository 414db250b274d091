-- ===== src/Gallery/Registry.antt =====
-- The galleries of a page: `registerGallery`, `getGallery` and `getIndex`. Each gallery has a range
-- of hashes of its own, which starts at its offset.
pub mod Laws
use nswall.Common.{
  ℕ, zero, suc, ◌+◌, Bool, true, false, Option, none, some, List, [], ◌∷◌, ◌++◌, if◌then◌else◌,
  length,
}
use nswall.Common.Int.{ℤ, pos, ◌-ℤ◌, ltb_ℤ}
use nswall.Gallery.State.{Gallery}

-- The variables `galleries` and `galleryOffset`.
pub record Registry : Type 0 where
  pub galleries : List Gallery
  pub gallery_offset : ℕ

abbrev pub no_galleries : Registry
no_galleries = record { galleries = []; gallery_offset = 0 }

unfoldable pub register_gallery : Registry → Gallery → Registry
register_gallery r g = record {
  galleries = r.galleries ++ g ∷ [];
  gallery_offset = r.gallery_offset + length g.images;
}

-- The place of the gallery in `galleries`; 0, which the program returns for none, is no place here.
unfoldable pub get_gallery_from : ℕ → List Gallery → ℤ → Option ℕ
get_gallery_from i [] hash = none
get_gallery_from i (g ∷ gs) hash =
    if ltb_ℤ hash (pos (length g.images + g.offset))
    then some i
    else get_gallery_from (suc i) gs hash

unfoldable pub get_gallery : Registry → ℤ → Option ℕ
unfolding get_gallery_from
get_gallery r hash = get_gallery_from 0 r.galleries hash

unfoldable pub get_index : Gallery → ℤ → ℤ
unfolding ◌-ℤ◌
get_index g hash = hash -ℤ pos g.offset
