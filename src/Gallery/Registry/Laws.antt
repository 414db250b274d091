-- ===== src/Gallery/Registry/Laws.antt =====
-- The ranges of the galleries partition the hashes that are in use.
use nswall.Common.{
  ℕ, zero, suc, ◌+◌, ◌≤◌, ◌<◌, ◌≡◌, refl, ap, ◌-◌, dec_lt, none, some, List, [], ◌∷◌, ◌++◌, arith,
  length, get_elem?, some_inj,
}
use nswall.Common.Int.{pos}
use nswall.Gallery.State.{Gallery}
use nswall.Gallery.Registry.{
  Registry, no_galleries, register_gallery, get_gallery_from, get_gallery, get_index,
}

-- The galleries from the offset `o` on follow one another without a gap, up to `top`.
abbrev pub Consecutive : ℕ → List Gallery → ℕ → Type 0
Consecutive o [] top = o ≡ top
Consecutive o (g ∷ gs) top = (g.offset ≡ o) × Consecutive (o + length g.images) gs top

pub record IsPartitioned (r : Registry) : Type 0 where
  pub consecutive : Consecutive 0 r.galleries r.gallery_offset

pub no_galleries-IsPartitioned : IsPartitioned no_galleries
no_galleries-IsPartitioned = record { consecutive = refl }

Consecutive-append :
    (o top : ℕ) (gs : List Gallery) (g : Gallery)
    → Consecutive o gs top
    → g.offset ≡ top
    → Consecutive o (gs ++ g ∷ []) (top + length g.images)
Consecutive-append o top [] g c e = ground arith
Consecutive-append o top (h ∷ gs) g c e =
    (c.0, Consecutive-append (o + length h.images) top gs g c.1 e)

-- Where the ranges of the galleries are consecutive from 0 to the global offset, they are so after
-- a gallery that starts at the global offset has been registered.
pub register_gallery-IsPartitioned :
    (r : Registry) (g : Gallery)
    → IsPartitioned r
    → g.offset ≡ r.gallery_offset
    → IsPartitioned (register_gallery r g)
unfolding register_gallery
register_gallery-IsPartitioned r g v e = record {
  consecutive = Consecutive-append 0 r.gallery_offset r.galleries g v.consecutive e;
}

Consecutive-le : (o top : ℕ) (gs : List Gallery) → Consecutive o gs top → o ≤ top
Consecutive-le o top [] c = omega arith
Consecutive-le o top (g ∷ gs) c = omega (arith, Consecutive-le (o + length g.images) top gs c.1)

offset_le :
    (o top : ℕ) (gs : List Gallery) (j : ℕ) (g : Gallery)
    → Consecutive o gs top
    → get_elem? gs j ≡ some g
    → o ≤ g.offset
offset_le o top [] j g c at_j = cc
offset_le o top (g' ∷ gs) zero g c at_j =
    omega (arith, c.0, ap (λ (x : Gallery). x.offset) (some_inj at_j))
offset_le o top (g' ∷ gs) (suc j) g c at_j =
    omega (arith, offset_le (o + length g'.images) top gs j g c.1 at_j)

-- A hash in the range of the gallery at `j` finds that gallery.
get_gallery_from_range :
    (i j k o top h : ℕ) (gs : List Gallery) (g : Gallery)
    → i + j ≡ k
    → Consecutive o gs top
    → get_elem? gs j ≡ some g
    → g.offset ≤ h
    → h < g.offset + length g.images
    → get_gallery_from i gs (pos h) ≡ some k
unfolding get_gallery_from
get_gallery_from_range i j k o top h [] g e c at_j l u = cc
get_gallery_from_range i zero k o top h (g' ∷ gs) g e c at_j l u =
    let at_g : length g'.images + g'.offset ≡ length g.images + g.offset =
      ap (λ (x : Gallery). length x.images + x.offset) (some_inj at_j) in
    ground arith
get_gallery_from_range i (suc j) k o top h (g' ∷ gs) g e c at_j l u = ground (
  arith,
  get_gallery_from_range (suc i) j k (o + length g'.images) top h gs g,
  offset_le (o + length g'.images) top gs j g c.1 at_j,
)

-- Where the ranges of the galleries are consecutive, a hash in the range of a gallery of the page
-- finds that gallery, at an index of its images.
pub get_gallery_of_range :
    (r : Registry) (j h : ℕ) (g : Gallery)
    → IsPartitioned r
    → get_elem? r.galleries j ≡ some g
    → g.offset ≤ h
    → h < g.offset + length g.images
    → (get_gallery r (pos h) ≡ some j) × (get_index g (pos h) ≡ pos (h - g.offset))
unfolding get_gallery get_index
get_gallery_of_range r j h g v at_j l u = (
  get_gallery_from_range 0 j j 0 r.gallery_offset h r.galleries g (omega arith) v.consecutive at_j l
      u,
  ground arith,
)

found_from :
    (i o top h : ℕ) (gs : List Gallery)
    → Consecutive o gs top
    → o ≤ h
    → h < top
    → (j : ℕ) × (g : Gallery) × (get_gallery_from i gs (pos h) ≡ some (i + j))
      × (get_elem? gs j ≡ some g)
      × (g.offset ≤ h)
      × (h < g.offset + length g.images)
unfolding get_gallery_from
found_from i o top h [] c l u = absurd (omega arith)
found_from i o top h (g ∷ gs) c l u = elim (dec_lt h (o + length g.images)) [
  | yes p ↦ (0, g, ground arith, refl, omega arith, omega arith)
  | no q ↦
      let (j, g', f, e, a, b) =
        found_from (suc i) (o + length g.images) top h gs c.1 (omega arith) u in
      (suc j, g', ground (arith, f), e, a, b)
]

missing_from :
    (i o top h : ℕ) (gs : List Gallery)
    → Consecutive o gs top
    → top ≤ h
    → get_gallery_from i gs (pos h) ≡ none
unfolding get_gallery_from
missing_from i o top h [] c l = refl
missing_from i o top h (g ∷ gs) c l = ground (
  arith,
  Consecutive-le (o + length g.images) top gs c.1,
  missing_from (suc i) (o + length g.images) top h gs c.1,
)

-- Where the ranges of the galleries are consecutive, each hash below the global offset is in the
-- range of a gallery, which is the one that it finds.
pub get_gallery_total :
    (r : Registry) (h : ℕ)
    → IsPartitioned r
    → h < r.gallery_offset
    → (j : ℕ) × (g : Gallery) × (get_gallery r (pos h) ≡ some j)
      × (get_elem? r.galleries j ≡ some g)
      × (g.offset ≤ h)
      × (h < g.offset + length g.images)
unfolding get_gallery
get_gallery_total r h v l =
    let (j, g, f, e, a, b) =
      found_from 0 0 r.gallery_offset h r.galleries v.consecutive (omega arith) l in
    (j, g, ground (arith, f), e, a, b)

-- Any other hash finds none.
pub get_gallery-none :
    (r : Registry) (h : ℕ) → IsPartitioned r → r.gallery_offset ≤ h → get_gallery r (pos h) ≡ none
unfolding get_gallery
get_gallery-none r h v l = missing_from 0 0 r.gallery_offset h r.galleries v.consecutive l
