-- ===== src/Gallery/Display/Keeps.antt =====
-- What the display methods leave alone, and that they do not throw where the current index is valid.
use nswall.Common.{ℕ, ◌+◌, ◌≡◌, arith, length, ◌∙◌, sym, subst, set, false}
use nswall.Common.Int.{ℤ, pos_part}
use nswall.Common.Result.{Result, ok, Returns, Returns-bind, Returns-mono, ◌>>=◌}
use nswall.Gallery.State.{Gallery, ImageData}
use nswall.Gallery.Index.{get_next_index, get_prev_index, InRange}
use nswall.Gallery.Index.Laws.{get_next_index-InRange, get_prev_index-InRange, at_index_of_InRange}
use nswall.Gallery.Layout.{Core, core, IsLaidOut, hash_at_of_InRange}
use nswall.Gallery.Display.{
  place_image, build_image, update_controls, show_caption, show_loading, show_loaded, show_image,
  transition_out_callback, transition,
}

-- The gallery is laid out, and its current index is that of an image.
pub record IsReady (c : Core) : Type 0 where
  pub laid_out : IsLaidOut c
  pub in_range : InRange (length c.images) c.current_index

abbrev pub SameCore : Gallery → Gallery → Type 0
SameCore g g' = core g' ≡ core g

module _ (g : Gallery) (v : IsReady (core g)) where
  abbrev n : ℕ
  n = length g.images

  next_hash : ℕ
  next_hash = g.offset + pos_part (get_next_index (length g.images) g.current_index)

  place_image-SameCore : (index : ℤ) → Returns (SameCore g) (place_image g index)
  unfolding place_image
  place_image-SameCore index = ground (
    arith,
    hash_at_of_InRange g (get_next_index n g.current_index) v.laid_out
        (get_next_index-InRange n g.current_index v.in_range),
  )

  pub build_image-SameCore : (index : ℤ) → Returns (SameCore g) (build_image g index)
  unfolding build_image
  build_image-SameCore index =
      Returns-bind (SameCore g) (SameCore g) (place_image g index) _ (place_image-SameCore index)
        (λ g1 e. ground arith)

  update_controls-SameCore : Returns (SameCore g) (update_controls g)
  unfolding update_controls
  update_controls-SameCore = ground (
    arith,
    hash_at_of_InRange g (get_next_index n g.current_index) v.laid_out
        (get_next_index-InRange n g.current_index v.in_range),
    hash_at_of_InRange g (get_prev_index n g.current_index) v.laid_out
        (get_prev_index-InRange n g.current_index v.in_range),
  )

  show_loading-SameCore : SameCore g (show_loading g)
  unfolding show_loading
  show_loading-SameCore = ground arith

  show_caption-SameCore : (d : ImageData) → SameCore g (show_caption g d)
  unfolding show_caption
  show_caption-SameCore d = ground arith

-- Readiness goes along with the core.
IsReady-after : (g g' : Gallery) → SameCore g g' → IsReady (core g) → IsReady (core g')
IsReady-after g g' e v = subst IsReady (sym e) v

-- Two calls in a row that keep the core.
pub bind-SameCore :
    (g : Gallery) (m : Result Gallery) (f : Gallery → Result Gallery)
    → IsReady (core g)
    → Returns (SameCore g) m
    → ((g1 : Gallery) → IsReady (core g1) → Returns (SameCore g1) (f g1))
    → Returns (SameCore g) (m >>= f)
bind-SameCore g m f v h k = Returns-bind (SameCore g) (SameCore g) m f h λ g1 e.
    Returns-mono (SameCore g1) (SameCore g) (f g1) (k g1 (IsReady-after g g1 e v)) λ g2 e'. e' ∙ e

show_loaded-SameCore :
    (g : Gallery) → IsReady (core g) → (d : ImageData) → Returns (SameCore g) (show_loaded g d)
unfolding show_loaded
show_loaded-SameCore g v d =
    ground (arith, build_image-SameCore g v g.current_index, show_loading-SameCore g v)

show_image-SameCore : (g : Gallery) → IsReady (core g) → Returns (SameCore g) (show_image g)
unfolding show_image
show_image-SameCore g v =
    let (d, e) = at_index_of_InRange g.images g.current_index v.in_range in
    rw e (
      bind-SameCore g (ok (show_caption g d)) (λ g1. show_loaded g1 d) v
        (show_caption-SameCore g v d) (λ g1 v1. show_loaded-SameCore g1 v1 d))

pub transition_out_callback-SameCore :
    (g : Gallery) (k : ℕ) → IsReady (core g) → Returns (SameCore g) (transition_out_callback g k)
unfolding transition_out_callback
transition_out_callback-SameCore g k v =
    let g1 = record g { transitioning = set g.transitioning k false } in
    let v1 : IsReady (core g1) = v in
    bind-SameCore g1 (update_controls g1) show_image v1 (update_controls-SameCore g1 v1)
      show_image-SameCore

pub transition-SameCore :
    (g : Gallery) (k : ℕ) → IsReady (core g) → Returns (SameCore g) (transition g k)
unfolding transition
transition-SameCore g k v =
    let g1 = record g { view = record (g.view) { containers_visible = false } } in
    let v1 : IsReady (core g1) = v in ground (arith, transition_out_callback-SameCore g1 k v1)
