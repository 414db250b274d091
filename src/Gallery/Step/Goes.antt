-- ===== src/Gallery/Step/Goes.antt =====
-- Wherever `goto` goes, the current image is stored or requested afterwards.
use nswall.Common.{
  ℕ, ◌≡◌, ap, ◌∙◌, true, false, some, List, [], ◌∷◌, ◌++◌, arith, length, set, Bool-cases,
  Option-cases, inl, inr, if◌then◌else◌, ◌<◌,
}
use nswall.Common.Int.{ℤ, pos, negsuc}
use nswall.Gallery.State.{Gallery, ImageData, Load, refresh_load, change}
use nswall.Gallery.Index.{at_index, clamp}
use nswall.Gallery.Index.Laws.{clamp-InRange, at_index_of_InRange}
use nswall.Gallery.Display.{
  log, place_image, build_image, update_controls, show_caption, show_loading, show_loaded,
  show_image, transition_out_callback, transition, request_image, refresh, move_to, goto,
  sync_thumbs,
}
use nswall.Gallery.Display.Transition.{Stays, sync_thumbs-Stays}
use nswall.Common.Result.{IfReturns, IfReturns-bind, IfReturns-mono}
use nswall.Gallery.Step.Asked.{is_asked, is_requested-append}

-- The current image is stored or requested.
abbrev pub IsAsked : Gallery → Type 0
IsAsked g = is_asked g.images g.current_index g.loads ≡ true

-- The data, the current index and the requests are the same.
abbrev pub Holds : Gallery → Gallery → Type 0
Holds g g' = (g'.images ≡ g.images) × (g'.current_index ≡ g.current_index) × (g'.loads ≡ g.loads)

pub Holds-IsAsked : (g g' : Gallery) → Holds g g' → IsAsked g → IsAsked g'
Holds-IsAsked g g' (a, b, c) v =
    ap (λ ds. is_asked ds g'.current_index g'.loads) a
    ∙ ap (λ i. is_asked g.images i g'.loads) b
    ∙ ap (is_asked g.images g.current_index) c
    ∙ v

module _ (g : Gallery) where
  pub build_image-Holds : (index : ℤ) → IfReturns (Holds g) (build_image g index)
  unfolding build_image place_image log
  build_image-Holds index = ground arith

  controls-Holds : IfReturns (Holds g) (update_controls g)
  unfolding update_controls
  controls-Holds = ground arith

  show_loaded-Holds : (d : ImageData) → IfReturns (Holds g) (show_loaded g d)
  unfolding show_loaded show_loading
  show_loaded-Holds d = ground (arith, build_image-Holds g.current_index)

show_image-Holds : (g : Gallery) → IfReturns (Holds g) (show_image g)
unfolding show_image show_caption
show_image-Holds g = elim (Option-cases (at_index g.images g.current_index)) [
  | inl e ↦ rw e tt
  | inr (d, e) ↦
      let with_caption = record g { view = record (g.view) { shown_caption = some d.caption } } in
      rw e
        (elim g.settings.caption_container_sel
          as (λ b. IfReturns (Holds g) (show_loaded (if b then with_caption else g) d)) [
            | true ↦ show_loaded-Holds with_caption d
            | false ↦ show_loaded-Holds g d
          ])
]

pub callback-Holds : (g : Gallery) (k : ℕ) → IfReturns (Holds g) (transition_out_callback g k)
unfolding transition_out_callback
callback-Holds g k =
    let g0 = record g { transitioning = set g.transitioning k false } in
    IfReturns-bind (Holds g0) (Holds g) (update_controls g0) show_image (controls-Holds g0)
      λ g1 (a, b, c).
        IfReturns-mono (Holds g1) (Holds g) (show_image g1) (show_image-Holds g1)
          λ g' (a', b', c'). (a' ∙ a, b' ∙ b, c' ∙ c)

transition-Holds : (g : Gallery) (k : ℕ) → IfReturns (Holds g) (transition g k)
unfolding transition log
transition-Holds g k =
    let out =
      callback-Holds (record g { view = record (g.view) { containers_visible = false } }) k in
    ground (arith, out)

requested-IsAsked :
    (g : Gallery) (d : ImageData) (k : ℕ)
    → at_index g.images g.current_index ≡ some d
    → IsAsked (request_image g d k)
unfolding request_image
requested-IsAsked g d k e = elim (Bool-cases d.image) [
  | inl y ↦ simp y (ground (arith, e, y))
  | inr z ↦ simp z (
      ground
        (arith, e, is_requested-append g.current_index g.loads (refresh_load g.current_index k)))
]

refresh-IsAsked :
    (g : Gallery) (d : ImageData)
    → at_index g.images g.current_index ≡ some d
    → IfReturns IsAsked (refresh g)
unfolding refresh
refresh-IsAsked g d e =
    let k = length g.transitioning in
    let g0 = record g { transitioning = g.transitioning ++ true ∷ [] } in
    rw (e, refresh)
      (IfReturns-bind (Holds g0) IsAsked (transition g0 k) _ (transition-Holds g0 k) λ g1 (a, b, c).
        let at : at_index g1.images g1.current_index ≡ some d =
          ap (λ ds. at_index ds g1.current_index) a ∙ ap (at_index g.images) b ∙ e in
        IfReturns-mono (Stays (request_image g1 d k)) IsAsked (sync_thumbs (request_image g1 d k))
          (sync_thumbs-Stays (request_image g1 d k))
          λ g' (l, t, o, ds, i).
            Holds-IsAsked (request_image g1 d k) g' (ds, i, l) (requested-IsAsked g1 d k at))

nonempty :
    (ds : List ImageData) (index : ℤ) (ls : List Load) → is_asked ds index ls ≡ true → 0 < length ds
unfolding at_index
nonempty [] (pos n) ls v = cc
nonempty [] (negsuc n) ls v = cc
nonempty (d ∷ ds) index ls v = omega arith

target_entry :
    (g : Gallery) (index : ℤ)
    → IsAsked g
    → (d : ImageData) × (at_index g.images (clamp (length g.images) index) ≡ some d)
target_entry g index v =
    at_index_of_InRange g.images (clamp (length g.images) index)
      (clamp-InRange (length g.images) index (nonempty g.images g.current_index g.loads v))

pub goto-IsAsked : (g : Gallery) (index : ℤ) → IsAsked g → IfReturns IsAsked (goto g index)
unfolding goto move_to log
goto-IsAsked g index v =
    let target = clamp (length g.images) index in
    let (d, e) = target_entry g index v in
    elim g.settings.on_change
      as (λ b. IfReturns IsAsked (
        refresh (record (if b then log (change g.current_index target) g else g) {
          current_index = target;
          preload_start_index = target;
        }))) [
          | true ↦
              refresh-IsAsked
                (record (log (change g.current_index target) g) {
                  current_index = target;
                  preload_start_index = target;
                })
                d e
          | false ↦
              refresh-IsAsked (record g { current_index = target; preload_start_index = target }) d
                e
        ]
