-- ===== src/Gallery/Display/Presents.antt =====
-- What `refresh` puts on display: the image that is stored, or a request for it.
use nswall.Common.{
  ℕ, ◌≡◌, ap, ◌∙◌, true, false, not, ◌&&◌, some, [], ◌∷◌, ◌++◌, arith, length, if◌then◌else◌,
}
use nswall.Common.Int.{ℤ}
use nswall.Gallery.State.{Gallery, ImageData, refresh_load, change}
use nswall.Gallery.Index.{at_index, clamp}
use nswall.Gallery.Layout.{Core, core}
use nswall.Gallery.Display.{log, transition, request_image, refresh, move_to, goto, sync_thumbs}
use nswall.Gallery.Display.Keeps.{IsReady}
use nswall.Gallery.Display.Transition.{Stays, sync_thumbs-Stays, picture, Begins, transition-Begins}
use nswall.Common.Result.{IfReturns, IfReturns-bind, IfReturns-of, IfReturns-mono}

-- What a call of `refresh` leaves, where `d` is the current image's data: a new transition, which a delegate
-- ends later if there is one for it; the image on display, if it is stored and no delegate puts that off;
-- or a request for it.
abbrev pub PresentsIn : ImageData → Core → Gallery → Gallery → Type 0
PresentsIn d c g g' =
    (g'.transitioning ≡ g.transitioning ++ c.settings.on_transition_out ∷ [])
    × (g'.loads ≡ (
        if d.image
        then g.loads
        else g.loads ++ refresh_load c.current_index (length g.transitioning) ∷ []))
    × (g'.view.displayed ≡ (
        if (d.image && not c.settings.on_transition_out) && c.settings.image_container_sel
        then some (picture c c.current_index)
        else g.view.displayed))

request_parts :
    (g : Gallery) (d : ImageData) (k : ℕ)
    → ((request_image g d k).transitioning ≡ g.transitioning)
      × ((request_image g d k).loads
          ≡ (if d.image then g.loads else g.loads ++ refresh_load g.current_index k ∷ []))
      × ((request_image g d k).view.displayed ≡ g.view.displayed)
unfolding request_image
request_parts g d k = ground arith

-- `refresh` presents the current image.
refresh-Presents :
    (g : Gallery) (d : ImageData)
    → at_index g.images g.current_index ≡ some d
    → IsReady (core g)
    → IfReturns (PresentsIn d (core g) g) (refresh g)
unfolding refresh
refresh-Presents g d e v =
    let k = length g.transitioning in
    let g0 = record g { transitioning = g.transitioning ++ true ∷ [] } in
    rw (e, refresh)
      (IfReturns-bind (Begins d g) (PresentsIn d (core g) g) (transition g0 k) _
        (IfReturns-of (Begins d g) (transition g0 k) (transition-Begins g d e v))
        λ g1 (c, t, l, o).
          IfReturns-mono (Stays (request_image g1 d k)) (PresentsIn d (core g) g)
            (sync_thumbs (request_image g1 d k)) (sync_thumbs-Stays (request_image g1 d k))
            λ g' (l', t', o', _, _).
              let same_index : g1.current_index ≡ g.current_index =
                ap (λ (x : Core). x.current_index) c in
              let (pt, pl, po) = request_parts g1 d k in
              (
                t' ∙ pt ∙ t,
                l'
                    ∙ pl
                    ∙ ap (λ ls. if d.image then ls else ls ++ refresh_load g1.current_index k ∷ [])
                        l
                    ∙ ap (λ i. if d.image then g.loads else g.loads ++ refresh_load i k ∷ [])
                        same_index,
                o' ∙ po ∙ o,
              ))

-- What `goto` does with the display, for the data `d` of the image that it goes to.
abbrev pub Presents : ImageData → ℤ → Gallery → Gallery → Type 0
Presents d index g g' = PresentsIn d (record (core g) { current_index = index }) g g'

pub goto-Presents :
    (g : Gallery) (index : ℤ) (d : ImageData)
    → at_index g.images (clamp (length g.images) index) ≡ some d
    → IsReady (record (core g) { current_index = clamp (length g.images) index })
    → IfReturns (Presents d (clamp (length g.images) index) g) (goto g index)
unfolding goto move_to log
goto-Presents g index d e v =
    let target = clamp (length g.images) index in
    elim g.settings.on_change
      as (λ b. IfReturns (Presents d target g) (
        refresh (record (if b then log (change g.current_index target) g else g) {
          current_index = target;
          preload_start_index = target;
        }))) [
          | true ↦
              refresh-Presents
                (record (log (change g.current_index target) g) {
                  current_index = target;
                  preload_start_index = target;
                })
                d e v
          | false ↦
              refresh-Presents (record g { current_index = target; preload_start_index = target }) d
                e v
        ]
