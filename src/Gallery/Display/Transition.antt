-- ===== src/Gallery/Display/Transition.antt =====
-- What the transition of `refresh` and its callback put on display, and what `syncThumbs` leaves alone.
use nswall.Common.{
  ℕ, ◌+◌, ◌≡◌, refl, ap, sym, ◌∙◌, subst, Bool, true, false, not, ◌&&◌, some, [], ◌∷◌, ◌++◌, arith,
  length, set, set-append_last, if◌then◌else◌, Bool-cases, inl, inr,
}
use nswall.Common.Int.{ℤ, pos_part, eqb_ℤ}
use nswall.Common.Result.{IfReturns, IfReturns-bind, ok, Returns, Returns-bind, Returns-mono}
use nswall.Gallery.State.{Gallery, ImageData, Displayed}
use nswall.Gallery.Index.{at_index, get_next_index, get_prev_index, page_of}
use nswall.Gallery.Index.Laws.{get_next_index-InRange, get_prev_index-InRange}
use nswall.Gallery.Layout.{Core, core, hash_at_of_InRange}
use nswall.Gallery.Pager.{rebuild_thumbs, show_page}
use nswall.Gallery.Display.{
  log, place_image, build_image, update_controls, show_caption, show_loading, show_loaded,
  show_image, transition_out_callback, transition, sync_thumbs, turn_page, update_thumbs, turned,
  page_transition_out_callback, select_current,
}
use nswall.Gallery.Display.Keeps.{IsReady}

-- The image of the entry `index`, within the link that it gets while that entry is the current one.
abbrev pub picture : Core → ℤ → Displayed
picture c index = record {
  index = index;
  advance = c.offset + pos_part (get_next_index (length c.images) c.current_index);
}

-- The requests, the transitions and the display are left alone.
abbrev pub Stays : Gallery → Gallery → Type 0
Stays g g' =
    (g'.loads ≡ g.loads)
    × (g'.transitioning ≡ g.transitioning)
    × (g'.view.displayed ≡ g.view.displayed)
    × (g'.images ≡ g.images)
    × (g'.current_index ≡ g.current_index)

module _ (g : Gallery) where
  rebuild_thumbs-Stays : IfReturns (Stays g) (rebuild_thumbs g)
  unfolding rebuild_thumbs show_page
  rebuild_thumbs-Stays = ground arith

  pub page_out-Stays : IfReturns (Stays g) (page_transition_out_callback g)
  unfolding page_transition_out_callback log
  page_out-Stays =
      IfReturns-bind (Stays g) (Stays g) (rebuild_thumbs g) _ rebuild_thumbs-Stays
        λ g1 s. ground (arith, s)

update_thumbs-Stays : (g : Gallery) → IfReturns (Stays g) (update_thumbs g)
unfolding update_thumbs log
update_thumbs-Stays g =
    let out = page_out-Stays (record g { view = record (g.view) { thumbs_visible = false } }) in
    ground (arith, out)

turn_page-Stays : (g : Gallery) → IfReturns (Stays g) (turn_page g)
unfolding turn_page
turn_page-Stays g =
    elim (eqb_ℤ (page_of g.settings.num_thumbs g.current_index) g.current_page)
      as (λ b. IfReturns (Stays g) (if b then ok g else update_thumbs (turned g))) [
        | true ↦ (refl, refl, refl, refl, refl)
        | false ↦ update_thumbs-Stays (turned g)
      ]

pub sync_thumbs-Stays : (g : Gallery) → IfReturns (Stays g) (sync_thumbs g)
unfolding sync_thumbs select_current
sync_thumbs-Stays g =
    IfReturns-bind (Stays g) (Stays g) (turn_page g) _ (turn_page-Stays g) λ g1 s. s

-- The display where the image `index` is put on it, if `b` says so.
abbrev pub Displays : Bool → ℤ → Gallery → Gallery → Type 0
Displays b index g g' = g'.view.displayed ≡ (
    if b && g.settings.image_container_sel then some (picture (core g) index) else g.view.displayed)

abbrev Frame : Gallery → Gallery → Type 0
Frame g g' = (core g' ≡ core g) × (g'.loads ≡ g.loads) × (g'.transitioning ≡ g.transitioning)

pub build_image-Displays :
    (g : Gallery) (index : ℤ)
    → IsReady (core g)
    → Returns (λ g'. Frame g g' × Displays true index g g') (build_image g index)
unfolding build_image place_image log
build_image-Displays g index v =
    let hash =
      hash_at_of_InRange g (get_next_index (length g.images) g.current_index) v.laid_out
        (get_next_index-InRange (length g.images) g.current_index v.in_range) in
    ground (arith, hash)

show_loaded-Displays :
    (g : Gallery) (d : ImageData)
    → IsReady (core g)
    → Returns (λ g'. Frame g g' × Displays d.image g.current_index g g') (show_loaded g d)
unfolding show_loaded show_loading
show_loaded-Displays g d v = elim (Bool-cases d.image) [
  | inl y ↦ simp y (build_image-Displays g g.current_index v)
  | inr z ↦ simp z (ground arith)
]

controls-Frame :
    (g : Gallery)
    → IsReady (core g)
    → Returns (λ g'. Frame g g' × (g'.view.displayed ≡ g.view.displayed)) (update_controls g)
unfolding update_controls
controls-Frame g v = ground (
  arith,
  hash_at_of_InRange g (get_next_index (length g.images) g.current_index) v.laid_out
      (get_next_index-InRange (length g.images) g.current_index v.in_range),
  hash_at_of_InRange g (get_prev_index (length g.images) g.current_index) v.laid_out
      (get_prev_index-InRange (length g.images) g.current_index v.in_range),
)

show_image-Displays :
    (g : Gallery) (d : ImageData)
    → at_index g.images g.current_index ≡ some d
    → IsReady (core g)
    → Returns (λ g'. Frame g g' × Displays d.image g.current_index g g') (show_image g)
unfolding show_image show_caption
show_image-Displays g d e v =
    rw e
      (elim g.settings.caption_container_sel
        as (λ b.
          Returns (λ g'. Frame g g' × Displays d.image g.current_index g g')
            (show_loaded
              (if b
                then record g { view = record (g.view) { shown_caption = some d.caption } }
                else g)
              d)) [
                | true ↦
                    show_loaded-Displays
                      (record g { view = record (g.view) { shown_caption = some d.caption } }) d v
                | false ↦ show_loaded-Displays g d v
              ])

Displays-after :
    (b : Bool) (index : ℤ) (g g1 g' : Gallery)
    → core g1 ≡ core g
    → g1.view.displayed ≡ g.view.displayed
    → Displays b index g1 g'
    → Displays b index g g'
Displays-after b index g g1 g' c o h =
    h
    ∙ ap
        (λ (x : Core).
          if b && x.settings.image_container_sel then some (picture x index) else g1.view.displayed)
        c
    ∙ ap (λ y. if b && g.settings.image_container_sel then some (picture (core g) index) else y) o

-- What the callback of the transition `k` leaves, where `d` is the current image's data.
abbrev pub Ends : ImageData → ℕ → Gallery → Gallery → Type 0
Ends d k g g' =
    (core g' ≡ core g)
    × (g'.loads ≡ g.loads)
    × (g'.transitioning ≡ set g.transitioning k false)
    × Displays d.image g.current_index g g'

pub callback-Ends :
    (g : Gallery) (k : ℕ) (d : ImageData)
    → at_index g.images g.current_index ≡ some d
    → IsReady (core g)
    → Returns (Ends d k g) (transition_out_callback g k)
unfolding transition_out_callback
callback-Ends g k d e v =
    let g0 = record g { transitioning = set g.transitioning k false } in
    Returns-bind (λ g1. Frame g0 g1 × (g1.view.displayed ≡ g.view.displayed)) (Ends d k g)
      (update_controls g0) show_image (controls-Frame g0 v)
      λ g1 ((c, l, t), o).
        let at_g1 : at_index g1.images g1.current_index ≡ some d =
          ap (λ (x : Core). at_index x.images x.current_index) c ∙ e in
        Returns-mono (λ g'. Frame g1 g' × Displays d.image g1.current_index g1 g') (Ends d k g)
          (show_image g1) (show_image-Displays g1 d at_g1 (subst IsReady (sym c) v))
          λ g' ((c', l', t'), h).
            let same_index : g1.current_index ≡ g.current_index =
              ap (λ (x : Core). x.current_index) c in
            (
              c' ∙ c,
              l' ∙ l,
              t' ∙ t,
              Displays-after d.image g.current_index g g1 g' c o
                  (subst (λ i. Displays d.image i g1 g') same_index h),
            )

-- The transition, before the request.
abbrev pub Begins : ImageData → Gallery → Gallery → Type 0
Begins d g g' =
    (core g' ≡ core g)
    × (g'.transitioning ≡ g.transitioning ++ g.settings.on_transition_out ∷ [])
    × (g'.loads ≡ g.loads)
    × Displays (d.image && not g.settings.on_transition_out) g.current_index g g'

pub transition-Begins :
    (g : Gallery) (d : ImageData)
    → at_index g.images g.current_index ≡ some d
    → IsReady (core g)
    → Returns (Begins d g) (
        transition
          (record g { transitioning = g.transitioning ++ true ∷ [] })
          (length g.transitioning))
unfolding transition log
transition-Begins g d e v = elim (Bool-cases g.settings.on_transition_out) [
  | inl y ↦ simp y (refl, refl, refl, ground arith)
  | inr z ↦
      let g1 = record g {
        transitioning = g.transitioning ++ true ∷ [];
        view = record (g.view) { containers_visible = false };
      } in
      let k = length g.transitioning in
      simp z (
        Returns-mono (Ends d k g1) (Begins d g) (transition_out_callback g1 k)
          (callback-Ends g1 k d e v)
          λ g' (c, l, t, h). (
            c,
            t
                ∙ set-append_last g.transitioning true false
                ∙ ap (λ b. g.transitioning ++ b ∷ []) (sym z),
            l,
            ground (arith, z, h),
          ))
]
