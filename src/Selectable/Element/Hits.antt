-- ===== src/Selectable/Element/Hits.antt =====
-- What the two tests of the lasso mean for the points of the page.
use nswall.Common.{◌≡◌, ◌↔◌, true, false, arith, if◌then◌else◌}
use nswall.Common.Int.{ℤ, ◌≤ℤ◌, ltb_ℤ}
use nswall.Selectable.State.{Tolerance, touch, fit, other, Box}
use nswall.Selectable.Element.{hit}

abbrev pub IsBox : Box → Type 0
IsBox b = (b.left ≤ℤ b.right) × (b.top ≤ℤ b.bottom)

-- The point is in the box, its edges included.
abbrev pub Within : ℤ → ℤ → Box → Type 0
Within x y b = ((b.left ≤ℤ x) × (x ≤ℤ b.right)) × ((b.top ≤ℤ y) × (y ≤ℤ b.bottom))

abbrev pub larger : ℤ → ℤ → ℤ
larger a b = if ltb_ℤ a b then b else a

-- With 'touch' the two boxes have a point in common; with 'fit' the corners of the item, and so all
-- its points, are within the lasso and not on an edge; no item meets the lasso with another word.
abbrev pub Meets : Tolerance → Box → Box → Type 0
Meets touch i b = (x : ℤ) × (y : ℤ) × Within x y i × Within x y b
Meets fit i b =
    (x y : ℤ)
    → Within x y i
    → (ltb_ℤ b.left x ≡ true)
      × (ltb_ℤ x b.right ≡ true)
      × (ltb_ℤ b.top y ≡ true)
      × (ltb_ℤ y b.bottom ≡ true)
Meets other i b = false ≡ true

larger_within :
    (a b c d : ℤ)
    → a ≤ℤ b
    → c ≤ℤ d
    → a ≤ℤ d
    → c ≤ℤ b
    → ((a ≤ℤ larger a c) × (larger a c ≤ℤ b)) × ((c ≤ℤ larger a c) × (larger a c ≤ℤ d))
larger_within a b c d h k l m = ground arith

hit_touch-Meets : (i b : Box) → IsBox i → IsBox b → hit touch i b ≡ true → Meets touch i b
unfolding hit
hit_touch-Meets i b v w h =
    let (p, q) =
      larger_within i.left i.right b.left b.right v.0 w.0 (ground arith) (ground arith) in
    let (r, s) =
      larger_within i.top i.bottom b.top b.bottom v.1 w.1 (ground arith) (ground arith) in
    (larger i.left b.left, larger i.top b.top, (p, r), (q, s))

touch_of_Meets : (i b : Box) (x y : ℤ) → Within x y i → Within x y b → hit touch i b ≡ true
unfolding hit
touch_of_Meets i b x y p q = ground arith

hit_fit-Meets : (i b : Box) → hit fit i b ≡ true → Meets fit i b
unfolding hit
hit_fit-Meets i b h x y p = (ground arith, ground arith, ground arith, ground arith)

fit_of_Meets : (i b : Box) → IsBox i → Meets fit i b → hit fit i b ≡ true
unfolding hit
fit_of_Meets i b (v, w) h =
    let (p, q, r, s) = h i.left i.top ((ground arith, v), (ground arith, w)) in
    let (p', q', r', s') = h i.right i.bottom ((v, ground arith), (w, ground arith)) in
    ground (arith, p, q', r, s')

-- For boxes whose corners are in order, the tests of `_mouseDrag` find that the lasso meets an item
-- exactly if it does: with 'touch' if the two have a point in common, their edges included, with 'fit' if
-- each point of the item is within the lasso and not on its edge, and else never.
pub hit-Meets : (t : Tolerance) (i b : Box) → IsBox i → IsBox b → (hit t i b ≡ true) ↔ Meets t i b
unfolding hit
hit-Meets touch i b v w = (hit_touch-Meets i b v w, λ (x, y, p, q). touch_of_Meets i b x y p q)
hit-Meets fit i b v w = (hit_fit-Meets i b, fit_of_Meets i b v)
hit-Meets other i b v w = (λ h. h, λ h. h)
