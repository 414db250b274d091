-- ===== src/Gallery/Display/Thumbs.antt =====
-- The thumbnails: which is selected, and which are shown.
use nswall.Common.{
  ℕ, zero, suc, ◌+◌, ◌/◌, ◌<◌, ◌≡◌, refl, ap, sym, ◌∙◌, some, List, [], ◌∷◌, arith, length,
  get_elem?, some_inj, lt-length_of_get_elem?, ◌==◌,
}
use nswall.Common.Int.{ℤ, pos, ◌*ℤ◌, eqb_ℤ}
use nswall.Gallery.State.{Gallery, Thumb, PagerItem}
use nswall.Gallery.Index.{page_of}
use nswall.Gallery.Layout.{Core, core, IsLaidOut}
use nswall.Gallery.Pager.{show_range, stop_index, show_page}
use nswall.Gallery.Pager.Visible.{shown-show_page, length-show_range}
use nswall.Gallery.Display.{select, select_current}

-- Exactly the thumbnails of the current page are shown.
abbrev pub PageShown : Core → Type 0
PageShown c =
    (i : ℕ) (t : Thumb)
    → get_elem? c.thumbs i ≡ some t
    → t.shown ≡ eqb_ℤ (page_of c.settings.num_thumbs (pos i)) c.current_page

-- Exactly the thumbnail of the current image is selected.
abbrev pub OneSelected : Core → Type 0
OneSelected c =
    (i : ℕ) (t : Thumb) → get_elem? c.thumbs i ≡ some t → t.selected ≡ eqb_ℤ (pos i) c.current_index

length-select : (k : ℕ) (index : ℤ) (ts : List Thumb) → length (select k index ts) ≡ length ts
unfolding select
length-select k index [] = refl
length-select k index (t ∷ ts) = ap suc (length-select (suc k) index ts)

get_elem?-select :
    (k i j : ℕ) (index : ℤ) (ts : List Thumb) (t : Thumb)
    → k + i ≡ j
    → get_elem? (select k index ts) i ≡ some t
    → (u : Thumb) × (get_elem? ts i ≡ some u)
      × (t.shown ≡ u.shown)
      × (t.selected ≡ eqb_ℤ (pos j) index)
unfolding select
get_elem?-select k i j index [] t e h = cc
get_elem?-select k zero j index (u ∷ ts) t e h =
    let k_eq : k ≡ j = omega arith in
    (
      u,
      refl,
      sym (ap (λ (t' : Thumb). t'.shown) (some_inj h)),
      rw (← k_eq) (sym (ap (λ (t' : Thumb). t'.selected) (some_inj h))),
    )
get_elem?-select k (suc i) j index (u ∷ ts) t e h =
    get_elem?-select (suc k) i j index ts t (omega arith) h

selected-show_range :
    (start stop : ℤ) (k i : ℕ) (ts : List Thumb) (t : Thumb)
    → get_elem? (show_range start stop k ts) i ≡ some t
    → (u : Thumb) × (get_elem? ts i ≡ some u) × (t.selected ≡ u.selected)
unfolding show_range
selected-show_range start stop k i [] t h = cc
selected-show_range start stop k zero (u ∷ ts) t h =
    (u, refl, sym (ap (λ (t' : Thumb). t'.selected) (some_inj h)))
selected-show_range start stop k (suc i) (u ∷ ts) t h =
    selected-show_range start stop (suc k) i ts t h

module _ (g : Gallery) where
  pub select_current-IsLaidOut : IsLaidOut (core g) → IsLaidOut (core (select_current g))
  unfolding select_current
  select_current-IsLaidOut v = record {
    thumbs_pos = v.thumbs_pos;
    hashes = v.hashes;
    pages = v.pages;
    thumbs_length = length-select 0 g.current_index g.view.thumbs ∙ v.thumbs_length;
  }

  pub select_current-OneSelected : OneSelected (core (select_current g))
  unfolding select_current
  select_current-OneSelected i t h =
      let (u, a, b, c) = get_elem?-select 0 i i g.current_index g.view.thumbs t (omega arith) h in c

  pub select_current-PageShown : PageShown (core g) → PageShown (core (select_current g))
  unfolding select_current
  select_current-PageShown p i t h =
      let (u, a, b, c) = get_elem?-select 0 i i g.current_index g.view.thumbs t (omega arith) h in
      b ∙ p i u a

same_page : (q p : ℕ) (page : ℤ) → page ≡ pos p → (q == p) ≡ eqb_ℤ (pos q) page
same_page q p page e = ground arith

module _ (g : Gallery) (top bottom : List PagerItem) (v : IsLaidOut (core g)) where
  pub show_page-IsLaidOut : IsLaidOut (core (show_page g top bottom))
  unfolding show_page
  show_page-IsLaidOut = record {
    thumbs_pos = v.thumbs_pos;
    hashes = v.hashes;
    pages = v.pages;
    thumbs_length = length-show_range _ _ 0 g.view.thumbs ∙ v.thumbs_length;
  }

  pub show_page-OneSelected : OneSelected (core g) → OneSelected (core (show_page g top bottom))
  unfolding show_page
  show_page-OneSelected s i t h =
      let (u, a, b) = selected-show_range _ _ 0 i g.view.thumbs t h in b ∙ s i u a

  pub show_page-PageShown :
      (p : ℕ) → g.current_page ≡ pos p → PageShown (core (show_page g top bottom))
  unfolding show_page page_of
  show_page-PageShown p at_p i t h = shown ∙ same_page _ p g.current_page at_p
    where
      i_lt : i < length g.images
      i_lt = omega (
        arith,
        lt-length_of_get_elem? _ i h,
        v.thumbs_length,
        length-show_range (g.current_page *ℤ pos g.settings.num_thumbs)
            (stop_index g.settings.num_thumbs g.current_page (length g.images)) 0 g.view.thumbs,
      )

      shown : t.shown ≡ (i / g.settings.num_thumbs == p)
      shown = shown-show_page g p i top bottom t v.thumbs_pos at_p i_lt h
