-- ===== src/Selectable/Gesture/Starts.antt =====
-- The start of a gesture, and its press.
use nswall.Common.{
  ℕ, ◌≡◌, ap, sym, ◌∙◌, subst, Bool, true, false, not, ◌&&◌, ◌||◌, Option, some, List, ◌∷◌, map,
  get_elem?, arith, if◌then◌else◌, ◌==◌, some_inj,
}
use nswall.Common.Result.{Returns}
use nswall.Selectable.State.{Item, Callback, Selectee}
use nswall.Selectable.Element.{refresh_one, start_one, press_one}
use nswall.Selectable.Element.Tracks.{resting, grabbed, start_one-resting, press_one-grabbed}
use nswall.Selectable.Gesture.{each, press}
use nswall.Selectable.Gesture.Pointwise.{Before, AllAt, AllAt-map, AllAt-each, AllAt-set, AllAt-get}

abbrev pub Resting : ℕ → Before → Selectee → Type 0
Resting k c s = s ≡ resting c.box c.was s.item s.called

abbrev pub Grabbed : Bool → (ℕ → Bool) → ℕ → Before → Selectee → Type 0
Grabbed meta pressed k c s = s ≡ grabbed c.box meta c.was (pressed k) s.called

abbrev Refreshed : ℕ → Before → Selectee → Type 0
Refreshed k c s =
    (item : Option Item) × (calls : List Callback) × (s
      ≡ refresh_one (resting c.box c.was item calls))

pub start-Grabbed :
    (meta : Bool) (cs : List Before) (ss : List Selectee)
    → AllAt Resting 0 cs ss
    → Returns (AllAt (Grabbed meta (λ _. false)) 0 cs) (each (start_one meta) (map refresh_one ss))
start-Grabbed meta cs ss v =
    AllAt-each Refreshed (Grabbed meta (λ _. false)) (start_one meta)
      (λ k c s (item, calls, e).
        subst (λ x. Returns (Grabbed meta (λ _. false) k c) (start_one meta x)) (sym e)
          (start_one-resting c.box meta c.was item calls))
      0 cs (map refresh_one ss)
      (AllAt-map Resting Refreshed refresh_one (λ k c s e. (s.item, s.called, ap refresh_one e)) 0
        cs ss v)

-- What `f` makes of an element that is as `mk` says, but for the calls of callbacks.
pub follows :
    (f : Selectee → Selectee) (mk mk' : List Callback → Selectee) (s : Selectee)
    → s ≡ mk s.called
    → ((calls : List Callback) → f (mk calls) ≡ mk' (f (mk calls)).called)
    → f s ≡ mk' (f s).called
follows f mk mk' s e h = subst (λ x. f x ≡ mk' (f x).called) (sym e) (h s.called)

pressed_item :
    (meta : Bool) (k : ℕ) (c : Before) (s : Selectee)
    → Grabbed meta (λ _. false) k c s
    → (item : Item) × (s.item ≡ some item) × Grabbed meta (λ _. true) k c (press_one meta s item)
pressed_item meta k c s e = (
  rest_item,
  ap (λ (x : Selectee). x.item) e,
  follows (λ x. press_one meta x rest_item) (grabbed c.box meta c.was false)
      (grabbed c.box meta c.was true) s e λ calls. press_one-grabbed c.box meta c.was calls,
)
  where
    rest_item : Item
    rest_item = record {
      box = c.box;
      startselected = c.was;
      selected = meta && (c.was && true) || false;
      selecting = false;
      unselecting = if c.was then if meta then false else true else not meta && false;
    }

pub press-Grabbed :
    (meta : Bool) (i : ℕ) (chain : List ℕ) (cs : List Before) (ss : List Selectee) (c : Before)
    → get_elem? cs i ≡ some c
    → AllAt (Grabbed meta (λ _. false)) 0 cs ss
    → AllAt (Grabbed meta (λ k. k == i)) 0 cs (press meta (i ∷ chain) ss)
unfolding press
press-Grabbed meta i chain cs ss c h v =
    let (s, at_i, g) = AllAt-get (Grabbed meta (λ _. false)) i i 0 cs ss c (omega arith) v h in
    let (item, has, _) = pressed_item meta i c s g in
    rw (at_i, has, press)
      (AllAt-set (Grabbed meta (λ _. false)) (Grabbed meta (λ k. k == i)) i i
        (press_one meta s item) cs ss 0 (omega arith) v
        (λ c' s' e' g'.
          let (item', has', r) =
            pressed_item meta i c' s
              (subst (Grabbed meta (λ _. false) i c') (some_inj (sym e' ∙ at_i)) g') in
          let same : true ≡ (i == i) = ground arith in
          subst
            (λ b.
              press_one meta s item ≡ grabbed c'.box meta c'.was b (press_one meta s item).called)
            same
            (subst (λ x. Grabbed meta (λ _. true) i c' (press_one meta s x))
              (some_inj (sym has' ∙ has)) r))
        (λ l c' s' ne g'. subst (λ b. s' ≡ grabbed c'.box meta c'.was b s'.called) (sym ne) g'))
