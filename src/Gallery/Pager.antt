-- ===== src/Gallery/Pager.antt =====
-- `rebuildThumbs` and `buildPager`: which thumbnails a page shows, and the links of its pagers.
pub mod Visible
pub mod Links
use nswall.Common.{
  ℕ, zero, suc, ◌-◌, Bool, true, false, ◌&&◌, List, [], ◌∷◌, ◌++◌, ltb, if◌then◌else◌, length,
}
use nswall.Common.Int.{ℤ, pos, ◌+ℤ◌, ◌-ℤ◌, ◌*ℤ◌, ltb_ℤ, leb_ℤ, eqb_ℤ}
use nswall.Common.Result.{Result, ok, type_error, ◌>>=◌, defined}
use nswall.Gallery.State.{
  Gallery, ImageData, Thumb, PagerItem, prev_page, current, page_index, next_page,
}
use nswall.Gallery.Index.{at_index}

-- `this.data[index].hash`
unfoldable pub hash_at : Gallery → ℤ → Result ℕ
hash_at g index = do image_data ← defined (at_index g.images index); ok image_data.hash

-- One round of the loop over the page indices. The loop's counter is a global variable of the
-- program, which nothing else reads while the loop runs.
unfoldable pub page_index_link : Gallery → ℤ → Result (List PagerItem)
unfolding ◌+ℤ◌
page_index_link g i =
    let page_num = i +ℤ pos 1 in
    if eqb_ℤ i g.current_page
    then ok (current page_num ∷ [])
    else if leb_ℤ (pos 0) i && ltb_ℤ i (pos g.num_pages)
    then (do hash ← hash_at g (i *ℤ pos g.settings.num_thumbs); ok (page_index hash page_num ∷ []))
    else ok []

unfoldable pub page_index_links : Gallery → ℕ → ℤ → Result (List PagerItem)
page_index_links g zero i = ok []
page_index_links g (suc rounds) i = do
  link ← page_index_link g i
  rest ← page_index_links g rounds (i +ℤ pos 1)
  ok (link ++ rest)

unfoldable pub prev_page_link : Gallery → Result (List PagerItem)
prev_page_link g =
    let start_index = g.current_page *ℤ pos g.settings.num_thumbs in
    if ltb_ℤ (pos 0) g.current_page
    then (do hash ← hash_at g (start_index -ℤ pos g.settings.num_thumbs); ok (prev_page hash ∷ []))
    else ok []

unfoldable pub next_page_link : Gallery → Result (List PagerItem)
next_page_link g =
    let start_index = g.current_page *ℤ pos g.settings.num_thumbs in
    let next_index = start_index +ℤ pos g.settings.num_thumbs in
    if ltb_ℤ next_index (pos (length g.images))
    then (do hash ← hash_at g next_index; ok (next_page hash ∷ []))
    else ok []

unfoldable pub build_pager : Gallery → Result (List PagerItem)
unfolding prev_page_link page_index_link page_index_links next_page_link
build_pager g = do
  prev ← prev_page_link g
  pages ← page_index_links g 7 (g.current_page -ℤ pos 3)
  next ← next_page_link g
  ok (prev ++ pages ++ next)

-- The loop over the `li` elements, from the index `i` on.
unfoldable pub show_range : ℤ → ℤ → ℕ → List Thumb → List Thumb
show_range start stop i [] = []
show_range start stop i (t ∷ ts) =
    record t { shown = leb_ℤ start (pos i) && leb_ℤ (pos i) stop }
    ∷ show_range start stop (suc i) ts

-- A pager that is not rebuilt keeps what it holds.
unfoldable pub rebuild_pager : Gallery → Bool → List PagerItem → Result (List PagerItem)
rebuild_pager g enabled old =
    if ltb g.settings.num_thumbs (length g.images) && enabled then build_pager g else ok old

-- `stopIndex`, of the page `p` of `k` thumbnails among `n`.
unfoldable pub stop_index : ℕ → ℤ → ℕ → ℤ
unfolding ◌+ℤ◌ ◌-ℤ◌ ◌*ℤ◌
stop_index k p n =
    let stop = p *ℤ pos k +ℤ pos k -ℤ pos 1 in if ltb_ℤ stop (pos n) then stop else pos n -ℤ pos 1

unfoldable pub show_page : Gallery → List PagerItem → List PagerItem → Gallery
unfolding ◌*ℤ◌
show_page g top bottom =
    let k = g.settings.num_thumbs in
    let stop = stop_index k g.current_page (length g.images) in
    let thumbs = show_range (g.current_page *ℤ pos k) stop 0 g.view.thumbs in
    record g { view = record (g.view) { thumbs = thumbs; top_pager = top; bottom_pager = bottom } }

unfoldable pub first_page : ℤ → ℤ
first_page page = if ltb_ℤ page (pos 0) then pos 0 else page

unfoldable pub rebuild_thumbs : Gallery → Result Gallery
rebuild_thumbs g = do
  let g1 = record g { current_page = first_page g.current_page }
  top ← rebuild_pager g1 g.settings.enable_top_pager g.view.top_pager
  bottom ← rebuild_pager g1 g.settings.enable_bottom_pager g.view.bottom_pager
  ok (show_page g1 top bottom)
