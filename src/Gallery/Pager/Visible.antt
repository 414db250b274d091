-- ===== src/Gallery/Pager/Visible.antt =====
-- Which thumbnails a page shows.
use nswall.Common.{
  ℕ, zero, suc, ◌+◌, ◌*◌, ◌/◌, ◌≤◌, ◌<◌, ◌≡◌, refl, ap, sym, ◌∙◌, ◌&&◌, some, List, [], ◌∷◌, arith,
  length, get_elem?, some_inj, ◌==◌,
}
use nswall.Common.Int.{ℤ, pos, leb_ℤ, pos-*ℤ}
use nswall.Gallery.State.{Gallery, Thumb, PagerItem}
use nswall.Gallery.Pager.{show_range, stop_index, show_page}

pub length-show_range :
    (start stop : ℤ) (i : ℕ) (ts : List Thumb) → length (show_range start stop i ts) ≡ length ts
unfolding show_range
length-show_range start stop i [] = refl
length-show_range start stop i (t ∷ ts) = ap suc (length-show_range start stop (suc i) ts)

shown-show_range :
    (start stop : ℤ) (k i j : ℕ) (ts : List Thumb) (t : Thumb)
    → k + i ≡ j
    → get_elem? (show_range start stop k ts) i ≡ some t
    → t.shown ≡ (leb_ℤ start (pos j) && leb_ℤ (pos j) stop)
unfolding show_range
shown-show_range start stop k i j [] t e h = cc
shown-show_range start stop k zero j (u ∷ ts) t e h =
    let k_eq : k ≡ j = omega arith in rw (← k_eq) (sym (ap (λ (t' : Thumb). t'.shown) (some_inj h)))
shown-show_range start stop k (suc i) j (u ∷ ts) t e h =
    shown-show_range start stop (suc k) i j ts t (omega arith) h

div_bounds : (i k : ℕ) → 0 < k → (i / k * k ≤ i) × (i < i / k * k + k)
div_bounds i k h = grind arith

div_unique : (i k p : ℕ) → p * k ≤ i → i < p * k + k → i / k ≡ p
div_unique i k p l u = grind arith

-- An index lies between the first and the last of page `p` when its page is `p`.
in_page :
    (i k p n : ℕ)
    → 0 < k
    → i < n
    → (leb_ℤ (pos (p * k)) (pos i) && leb_ℤ (pos i) (stop_index k (pos p) n)) ≡ (i / k == p)
unfolding stop_index
in_page i k p n h l = ground (arith, div_bounds i k h, div_unique i k p)

-- With `numThumbs` above 0 and the gallery on page `p`, the thumbnail of an image is shown after
-- the last part of `rebuildThumbs` exactly if the image is of that page.
pub shown-show_page :
    (g : Gallery) (p i : ℕ) (top bottom : List PagerItem) (t : Thumb)
    → 0 < g.settings.num_thumbs
    → g.current_page ≡ pos p
    → i < length g.images
    → get_elem? (show_page g top bottom).view.thumbs i ≡ some t
    → t.shown ≡ (i / g.settings.num_thumbs == p)
unfolding show_page
shown-show_page g p i top bottom t k_pos at_p i_lt e =
    let k = g.settings.num_thumbs in
    shown-show_range _ _ 0 i i g.view.thumbs t (omega arith) e
    ∙ rw (at_p, pos-*ℤ p k) (in_page i k p (length g.images) k_pos i_lt)
