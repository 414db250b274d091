-- ===== src/Gallery/Display/Goto.antt =====
-- `refresh` and `goto` do not throw; they bring the page and the thumbnails in sync with the image that was
-- asked for, and put it on display or request it.
use nswall.Common.{ℕ, ◌<◌, ◌≡◌, true, some, [], ◌∷◌, ◌++◌, arith, length, subst, sym, ◌∙◌}
use nswall.Common.Int.{ℤ}
use nswall.Common.Result.{
  ok, Returns, Returns-bind, Returns-mono, IfReturns, IfReturns-mono, Returns-and,
}
use nswall.Gallery.State.{Gallery, ImageData}
use nswall.Gallery.Index.{clamp, at_index}
use nswall.Gallery.Index.Laws.{clamp-InRange, at_index_of_InRange}
use nswall.Gallery.Layout.{Core, core, IsLaidOut}
use nswall.Gallery.Display.{sync_thumbs, transition, request_image, refresh, move_to, goto}
use nswall.Gallery.Display.Keeps.{IsReady, SameCore, transition-SameCore}
use nswall.Gallery.Display.Presents.{Presents, goto-Presents}
use nswall.Gallery.Display.Synced.{IsSynced, IsAt, ShownIfAt, sync_thumbs-IsSynced}

-- The page and the thumbnails of `g'` are those of the image at `index`, and its settings and data those
-- of `c`.
abbrev AtImage : Core → ℤ → Gallery → Type 0
AtImage c index g' = IsSynced (core g') × IsAt c index (core g')

-- That image is presented: where its data in `g` has it stored and no delegate takes the transition, it is
-- on display in the container, if there is one; where it is not stored, it is requested.
abbrev pub IsPresented : Gallery → ℤ → Gallery → Type 0
IsPresented g index g' =
    (d : ImageData) × (at_index g.images index ≡ some d) × Presents d index g g'

abbrev pub Shows : Gallery → ℤ → Gallery → Type 0
Shows g index g' = IsSynced (core g') × IsAt (core g) index (core g') × IsPresented g index g'

request_image-SameCore : (g : Gallery) (d : ImageData) (k : ℕ) → core (request_image g d k) ≡ core g
unfolding request_image
request_image-SameCore g d k = ground arith

module _ (g : Gallery) (v : IsReady (core g)) (h : ShownIfAt (core g)) where
  sync_after :
      (g1 : Gallery)
      → core g1 ≡ core g
      → Returns (AtImage (core g) g.current_index) (sync_thumbs g1)
  sync_after g1 e =
      let v1 : IsReady (core g1) = subst IsReady (sym e) v in
      let h1 : ShownIfAt (core g1) = subst ShownIfAt (sym e) h in
      subst (λ c. Returns (AtImage c c.current_index) (sync_thumbs g1)) e
        (sync_thumbs-IsSynced g1 v1 h1)

  pub refresh-IsSynced : Returns (AtImage (core g) g.current_index) (refresh g)
  unfolding refresh
  refresh-IsSynced =
      let (d, e) = at_index_of_InRange g.images g.current_index v.in_range in
      let k = length g.transitioning in
      let g0 = record g { transitioning = g.transitioning ++ true ∷ [] } in
      let v0 : IsReady (core g0) = v in
      rw (e, refresh)
        (Returns-bind (SameCore g0) (AtImage (core g) g.current_index) (transition g0 k) _
          (transition-SameCore g0 k v0)
          λ g1 same. sync_after (request_image g1 d k) (request_image-SameCore g1 d k ∙ same))

move_to-core :
    (g : Gallery) (index : ℤ)
    → core (move_to g index) ≡ record (core g) { current_index = clamp (length g.images) index }
unfolding move_to
move_to-core g index = ground arith

module _ (g : Gallery) (index : ℤ) (v : IsLaidOut (core g)) (l : 0 < length g.images) where
  abbrev to : ℤ
  to = clamp (length g.images) index

  abbrev target : Core
  target = record (core g) { current_index = to }

  ready : IsReady target
  ready = record {
    laid_out = record {
      thumbs_pos = v.thumbs_pos;
      hashes = v.hashes;
      pages = v.pages;
      thumbs_length = v.thumbs_length;
    };
    in_range = clamp-InRange (length g.images) index l;
  }

  goto-AtImage : ShownIfAt target → Returns (AtImage (core g) to) (goto g index)
  unfolding goto
  goto-AtImage h =
      let e = move_to-core g index in
      Returns-mono (AtImage target to) (AtImage (core g) to) (refresh (move_to g index))
        (subst (λ c. Returns (AtImage c c.current_index) (refresh (move_to g index))) e
          (refresh-IsSynced (move_to g index) (subst IsReady (sym e) ready)
            (subst ShownIfAt (sym e) h)))
        λ g' (shows, at). (
          shows,
          record {
            same_settings = at.same_settings;
            same_offset = at.same_offset;
            same_images = at.same_images;
            at_index = at.at_index;
          },
        )

  goto-IsPresented : IfReturns (IsPresented g to) (goto g index)
  goto-IsPresented =
      let (d, e) = at_index_of_InRange g.images to ready.in_range in
      IfReturns-mono (Presents d to g) (IsPresented g to) (goto g index)
        (goto-Presents g index d e ready) λ g' p. (d, e, p)

  pub goto-Shows : ShownIfAt target → Returns (Shows g to) (goto g index)
  goto-Shows h =
      Returns-mono (λ g'. AtImage (core g) to g' × IsPresented g to g') (Shows g to) (goto g index)
        (Returns-and (AtImage (core g) to) (IsPresented g to) (goto g index) (goto-AtImage h)
          goto-IsPresented)
        λ g' ((s, a), p). (s, a, p)

-- In a gallery with no image `goto` does not throw, and only stores an index: -1, or 0 for a
-- negative one.
pub goto_empty : (g : Gallery) (index : ℤ) → g.images ≡ [] → goto g index ≡ ok (move_to g index)
unfolding goto refresh move_to clamp at_index
goto_empty g index e = ground arith
