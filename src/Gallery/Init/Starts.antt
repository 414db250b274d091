-- ===== src/Gallery/Init/Starts.antt =====
-- The image that a new gallery goes to is the one that the address names, or the first.
use nswall.Common.{
  ℕ, ◌+◌, ◌-◌, ◌<◌, ◌≤◌, dec_lt, none, if◌then◌else◌, leb, ltb, ◌&&◌, ◌≡◌, refl, ap, sym, ◌∙◌,
  subst, List, [], ◌∷◌, arith, length, get_elem?-append_last, get_elem?-append_left,
  lt-length_of_get_elem?,
}
use nswall.Common.Int.{ℤ, pos, negsuc}
use nswall.Common.Result.{Returns}
use nswall.Gallery.State.{Settings, Gallery}
use nswall.Gallery.Index.{clamp}
use nswall.Gallery.Registry.{Registry, register_gallery, get_gallery}
use nswall.Gallery.Registry.Laws.{
  IsPartitioned, register_gallery-IsPartitioned, get_gallery_of_range, get_gallery_total,
  get_gallery-none,
}
use nswall.Gallery.Init.{Item, new_gallery, goto_index, galleriffic}
use nswall.Gallery.Init.Valid.{IsSetUp, start_index, galleriffic-SetUp, length-initialize_thumbs}

-- The image that an address names, of `n` images whose hashes start at `o`: the one with its hash, or the
-- first where there is none.
abbrev pub named : ℕ → ℕ → ℤ → ℤ
named o n (pos h) = if leb o h && ltb h (o + n) then pos (h - o) else pos 0
named o n (negsuc h) = pos 0

module _ (r : Registry) (s : Settings) (items : List Item) (v : IsPartitioned r) where
  abbrev added : Gallery
  added = new_gallery s r.gallery_offset items

  added_offset : added.offset ≡ r.gallery_offset
  unfolding new_gallery
  added_offset = refl

  length-added : length added.images ≡ length items
  unfolding new_gallery
  length-added = length-initialize_thumbs r.gallery_offset items

  partitioned : IsPartitioned (register_gallery r added)
  partitioned = register_gallery-IsPartitioned r added v added_offset

  -- Where the ranges of the galleries are consecutive, an address whose hash is of an image of the
  -- new gallery makes it start with that image.
  pub start_index_own :
      (i : ℕ) → i < length items → start_index r s items (pos (r.gallery_offset + i)) ≡ pos i
  unfolding goto_index clamp register_gallery
  start_index_own i l =
      let (found, _) =
        get_gallery_of_range (register_gallery r added) (length r.galleries) (r.gallery_offset + i)
          added partitioned (get_elem?-append_last r.galleries added) (omega (arith, added_offset))
          (omega (arith, added_offset, length-added)) in
      ground (arith, found, added_offset)

  -- Where the ranges of the galleries are consecutive, the hash of an image of an earlier gallery
  -- makes a new one with an image start with its first image.
  pub start_index_other :
      (h : ℕ) → h < r.gallery_offset → 0 < length items → start_index r s items (pos h) ≡ pos 0
  unfolding goto_index clamp register_gallery
  start_index_other h l nonempty =
      let (j, g, _, at_j, low, high) = get_gallery_total r h v l in
      let (found, _) =
        get_gallery_of_range (register_gallery r added) j h g partitioned
          (get_elem?-append_left r.galleries (added ∷ []) j at_j) low high in
      ground (arith, found, lt-length_of_get_elem? r.galleries j at_j)

  start_index_beyond :
      (h : ℕ)
      → r.gallery_offset + length items ≤ h
      → 0 < length items
      → start_index r s items (pos h) ≡ pos 0
  unfolding goto_index clamp register_gallery
  start_index_beyond h l nonempty =
      let missing : get_gallery (register_gallery r added) (pos h) ≡ none =
        get_gallery-none (register_gallery r added) h partitioned
          (omega (arith, l, length-added)) in
      ground (arith, missing)

  start_index_lem :
      (hash : ℤ)
      → 0 < length items
      → start_index r s items hash ≡ named r.gallery_offset (length items) hash
  unfolding goto_index clamp
  start_index_lem (negsuc h) nonempty = ground arith
  start_index_lem (pos h) nonempty = elim (dec_lt h r.gallery_offset) [
    | yes p ↦ start_index_other h p nonempty ∙ ground arith
    | no q ↦ elim (dec_lt h (r.gallery_offset + length items)) [
      | yes p ↦
          let at : r.gallery_offset + (h - r.gallery_offset) ≡ h = omega arith in
          ap (λ x. start_index r s items (pos x)) (sym at)
          ∙ start_index_own (h - r.gallery_offset) (omega arith)
          ∙ ground arith
      | no b ↦ start_index_beyond h (omega arith) nonempty ∙ ground arith
    ]
  ]

  -- Where the ranges of the galleries are consecutive, setting up a gallery that has an image, with
  -- `numThumbs` above 0, does not throw. It is registered at the global offset with the data of its
  -- items, and goes to the image whose hash the address names, or to its first one where that is
  -- none of its images: this becomes the current image, and it alone is requested; the page is its
  -- page, its thumbnail alone is selected, and those of the page and no others are visible, unless
  -- a delegate turns the pages.
  pub galleriffic-IsSetUp :
      (hash : ℤ)
      → 0 < s.num_thumbs
      → 0 < length items
      → Returns
          (IsSetUp r s items (named r.gallery_offset (length items) hash))
          (galleriffic r s items hash)
  galleriffic-IsSetUp hash p nonempty =
      subst (λ i. Returns (IsSetUp r s items i) (galleriffic r s items hash))
        (start_index_lem hash nonempty) (galleriffic-SetUp r s items hash p nonempty)
