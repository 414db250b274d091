-- ===== src/Gallery/Display/Synced.antt =====
-- The page and the thumbnails are in step with the current image after `syncThumbs`.
use nswall.Common.{
  ℕ, ◌+◌, ◌-◌, ◌*◌, ◌/◌, ◌<◌, ◌≡◌, refl, sym, subst, Bool, false, List, arith, length, ◌≤◌,
  Bool-cases, inl, inr,
}
use nswall.Common.Int.{ℤ, pos, negsuc, eqb_ℤ, eqb_ℤ_iff}
use nswall.Common.Result.{ok, Returns, Returns-bind, Returns-mono, ◌>>=◌}
use nswall.Gallery.State.{Gallery, PagerItem}
use nswall.Gallery.Index.{page_of, InRange}
use nswall.Gallery.Layout.{Core, core, IsLaidOut, page_of_start}
use nswall.Gallery.Pager.{first_page, rebuild_pager, rebuild_thumbs, show_page, build_pager}
use nswall.Gallery.Pager.Links.{build_pager-Leads}
use nswall.Gallery.Display.{
  page_transition_out_callback, update_thumbs, select_current, turned, turn_page, sync_thumbs,
}
use nswall.Gallery.Display.Keeps.{IsReady}
use nswall.Gallery.Display.Thumbs.{
  PageShown, OneSelected, select_current-IsLaidOut, select_current-OneSelected,
  select_current-PageShown, show_page-IsLaidOut, show_page-OneSelected, show_page-PageShown,
}

-- The core `c'` is `c` with new thumbnails.
pub record IsUpdated (c c' : Core) : Type 0 where
  pub same : c' ≡ record c { thumbs = c'.thumbs }
  pub laid_out : IsLaidOut c'
  pub selected : OneSelected c → OneSelected c'
  pub shown : c.settings.on_page_transition_out ≡ false → PageShown c'

abbrev pub Updates : Gallery → Gallery → Type 0
Updates g g' = IsUpdated (core g) (core g')

rebuild_pager-Returns :
    (g : Gallery) (p : ℕ) (enabled : Bool) (old : List PagerItem)
    → IsLaidOut (core g)
    → g.current_page ≡ pos p
    → p < g.num_pages
    → Returns (λ _. Unit {0}) (rebuild_pager g enabled old)
unfolding rebuild_pager
rebuild_pager-Returns g p enabled old v at_p l = ground (
  arith,
  Returns-mono _ (λ _. Unit {0}) (build_pager g) (build_pager-Leads g p v at_p l) (λ _ _. tt),
)

module _ (g : Gallery) (p : ℕ) (v : IsLaidOut (core g)) (at_p : g.current_page ≡ pos p)
    (l : p < g.num_pages) where
  on_page : record g { current_page = first_page g.current_page } ≡ g
  unfolding first_page
  on_page =
      let e : first_page g.current_page ≡ g.current_page = rw at_p (ground arith) in
      λ i. record g { current_page = e i }

  show_page-IsUpdated : (top bottom : List PagerItem) → Updates g (show_page g top bottom)
  unfolding show_page
  show_page-IsUpdated top bottom = record {
    same = refl;
    laid_out = show_page-IsLaidOut g top bottom v;
    selected = show_page-OneSelected g top bottom v;
    shown = λ _. show_page-PageShown g top bottom v p at_p;
  }

  rebuild_thumbs-IsUpdated : Returns (Updates g) (rebuild_thumbs g)
  unfolding rebuild_thumbs
  rebuild_thumbs-IsUpdated =
      subst
        (λ g1. Returns (Updates g) (do
          top ← rebuild_pager g1 g.settings.enable_top_pager g.view.top_pager
          bottom ← rebuild_pager g1 g.settings.enable_bottom_pager g.view.bottom_pager
          ok (show_page g1 top bottom)))
        (sym on_page)
        (Returns-bind (λ _. Unit {0}) (Updates g) _ _
          (rebuild_pager-Returns g p g.settings.enable_top_pager g.view.top_pager v at_p l)
          λ top _.
            Returns-bind (λ _. Unit {0}) (Updates g) _ _
              (rebuild_pager-Returns g p g.settings.enable_bottom_pager g.view.bottom_pager v at_p
                l)
              λ bottom _. show_page-IsUpdated top bottom)

  pub page_transition_out_callback-IsUpdated : Returns (Updates g) (page_transition_out_callback g)
  unfolding page_transition_out_callback
  page_transition_out_callback-IsUpdated =
      Returns-bind (Updates g) (Updates g) (rebuild_thumbs g) _ rebuild_thumbs-IsUpdated
        λ g1 u. subst (IsUpdated (core g)) (ground arith) u

-- Without a delegate for it `updateThumbs` rebuilds them at once.
update_thumbs-IsUpdated :
    (g : Gallery) (p : ℕ)
    → IsLaidOut (core g)
    → g.current_page ≡ pos p
    → p < g.num_pages
    → Returns (Updates g) (update_thumbs g)
unfolding update_thumbs
update_thumbs-IsUpdated g p v at_p l = elim (Bool-cases g.settings.on_page_transition_out) [
  | inl y ↦ simp y (record { same = refl; laid_out = v; selected = λ s. s; shown = λ z. cc })
  | inr z ↦ simp z (
      page_transition_out_callback-IsUpdated
        (record g { view = record (g.view) { thumbs_visible = false } }) p v at_p l)
]

-- A gallery that is in sync: it is laid out, its page is that of the current image, exactly the thumbnail
-- of that image is selected, and exactly those of its page are shown, where no delegate puts that off.
-- Nothing is said of the image on display.
pub record IsSynced (c : Core) : Type 0 where
  pub ready : IsReady c
  pub at_page : c.current_page ≡ page_of c.settings.num_thumbs c.current_index
  pub one_selected : OneSelected c
  pub page_shown : c.settings.on_page_transition_out ≡ false → PageShown c

-- The settings and the images are those of `c`, and the current index is `index`.
pub record IsAt (c : Core) (index : ℤ) (c' : Core) : Type 0 where
  pub same_settings : c'.settings ≡ c.settings
  pub same_offset : c'.offset ≡ c.offset
  pub same_images : c'.images ≡ c.images
  pub at_index : c'.current_index ≡ index

div-mul-le : (i k : ℕ) → 0 < k → i / k * k ≤ i
div-mul-le i k h = grind arith

-- The page of an image is one of the pages.
pub page-InRange :
    (k n pages : ℕ) (index : ℤ)
    → 0 < k
    → InRange n index
    → pages ≡ (n + k - 1) / k
    → (p : ℕ) × (page_of k index ≡ pos p) × (p < pages)
unfolding page_of
page-InRange k n pages (pos i) h r e =
    (i / k, refl, rw e (page_of_start n k (i / k) h (omega (arith, div-mul-le i k h, r.below))))
page-InRange k n pages (negsuc i) h r e = absurd (omega (arith, r.nonneg))

IsLaidOut-at : (c : Core) (page : ℤ) → IsLaidOut c → IsLaidOut (record c { current_page = page })
IsLaidOut-at c page v = record {
  thumbs_pos = v.thumbs_pos;
  hashes = v.hashes;
  pages = v.pages;
  thumbs_length = v.thumbs_length;
}

-- The thumbnails of the current page are shown already, if the gallery is on it.
abbrev pub ShownIfAt : Core → Type 0
ShownIfAt c =
    c.settings.on_page_transition_out ≡ false
    → c.current_page ≡ page_of c.settings.num_thumbs c.current_index
    → PageShown c

module _ (g : Gallery) (v : IsReady (core g)) (h : ShownIfAt (core g)) where
  abbrev page : ℤ
  page = page_of g.settings.num_thumbs g.current_index

  turn_page-IsUpdated : Returns (Updates (turned g)) (turn_page g)
  unfolding turn_page
  turn_page-IsUpdated = elim (Bool-cases (eqb_ℤ page g.current_page)) [
    | inl y ↦ simp y (
        let e = (eqb_ℤ_iff page g.current_page).0 y in
        subst (λ g1. IsUpdated (core g1) (core g)) (λ i. record g { current_page = sym e i })
          (record {
            same = refl;
            laid_out = v.laid_out;
            selected = λ s. s;
            shown = λ z. h z (sym e);
          }))
    | inr z ↦ simp z (
        let (p, at_p, l) =
          page-InRange g.settings.num_thumbs (length g.images) g.num_pages g.current_index
            v.laid_out.thumbs_pos v.in_range v.laid_out.pages in
        update_thumbs-IsUpdated (turned g) p (IsLaidOut-at (core g) page v.laid_out) at_p l)
  ]

  select_current-IsSynced :
      (g1 : Gallery) → Updates (turned g) g1 → IsSynced (core (select_current g1))
  unfolding select_current
  select_current-IsSynced g1 u = record {
    ready = record { laid_out = select_current-IsLaidOut g1 u.laid_out; in_range = ground arith };
    at_page = ground arith;
    one_selected = select_current-OneSelected g1;
    page_shown = λ z. select_current-PageShown g1 (u.shown (ground arith));
  }

  pub sync_thumbs-IsSynced :
      Returns (λ g'. IsSynced (core g') × IsAt (core g) g.current_index (core g')) (sync_thumbs g)
  unfolding sync_thumbs
  sync_thumbs-IsSynced =
      Returns-bind (Updates (turned g))
        (λ g'. IsSynced (core g') × IsAt (core g) g.current_index (core g')) (turn_page g) _
        turn_page-IsUpdated λ g1 u. (select_current-IsSynced g1 u, ground arith)

pub updated-IsSynced : (c c' : Core) → IsSynced c → IsUpdated c c' → IsSynced c'
updated-IsSynced c c' v u = record {
  ready = record { laid_out = u.laid_out; in_range = ground arith };
  at_page = ground arith;
  one_selected = u.selected v.one_selected;
  page_shown = λ z. u.shown (ground arith);
}
