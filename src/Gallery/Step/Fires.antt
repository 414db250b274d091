-- ===== src/Gallery/Step/Fires.antt =====
-- What a load and a timer of the preloader do as events of the gallery.
use nswall.Common.{
  ℕ, zero, suc, ◌<◌, ◌≡◌, refl, ap, sym, ◌∙◌, subst, inl, inr, true, false, none, some, List, [],
  ◌∷◌, arith, length, get_elem?, set, get_elem?_of_lt, get_elem?-set_self,
}
use nswall.Common.Int.{ℤ, pos, leb_ℤ}
use nswall.Common.Result.{ok}
use nswall.Gallery.State.{Gallery, ImageData}
use nswall.Gallery.Preload.{preload_next, preload_image, preload_from, preload_recursive}
use nswall.Gallery.Slideshow.{stay}
use nswall.Gallery.Step.{
  timer_fires, image_loads, step, run_timer, run_load, remove_at, mark_loaded, staying,
}
use nswall.Gallery.Step.Valid.{mark_loaded_cases}
use nswall.Gallery.Step.Preloads.{Stored, place, due, waiting, Ahead}

Stored-set :
    (ds : List ImageData) (i j : ℕ) (d : ImageData)
    → d.image ≡ true
    → Stored ds j
    → Stored (set ds i d) j
Stored-set [] i j d k h = h
Stored-set (x ∷ ds) zero zero d k h = (d, refl, k)
Stored-set (x ∷ ds) zero (suc j) d k h = h
Stored-set (x ∷ ds) (suc i) zero d k h = h
Stored-set (x ∷ ds) (suc i) (suc j) d k h = Stored-set ds i j d k h

pub Stored-mark_loaded :
    (ds : List ImageData) (i j : ℕ) → Stored ds j → Stored (mark_loaded ds (pos i)) j
Stored-mark_loaded ds i j h = elim (mark_loaded_cases ds i) [
  | inl e ↦ subst (λ xs. Stored xs j) (sym e) h
  | inr (d, at, e) ↦
      subst (λ xs. Stored xs j) (sym e) (Stored-set ds i j (record d { image = true }) refl h)
]

-- The image at an index of the data is loaded once it is marked.
pub mark_loaded-Stored :
    (ds : List ImageData) (i : ℕ) → i < length ds → Stored (mark_loaded ds (pos i)) i
unfolding mark_loaded
mark_loaded-Stored ds i h =
    let (d, e) = get_elem?_of_lt ds i h in
    subst (λ xs. Stored xs i) (rw (e, mark_loaded) refl)
      (record d { image = true }, get_elem?-set_self ds i (record d { image = true }) h, refl)

module _ (n s : ℕ) (below : s < n) where
  pub preload_lem :
      (c : ℤ) (g : Gallery)
      → g.preload_start_index ≡ pos s
      → leb_ℤ (pos 0) g.settings.preload_ahead ≡ false
      → preload_recursive g (pos s) c ≡ preload_image g (pos s) c
  unfolding preload_recursive preload_from
  preload_lem c g e k = ground (arith, e, k)

  pub timer_step :
      (d : ℕ) (g : Gallery)
      → Ahead n s d (due n s d) [] g
      → step g (timer_fires 0)
        ≡ ok (stay (preload_image (record g { timers = [] }) (pos s) (pos (place n s d))))
  unfolding step run_timer remove_at
  timer_step d g v =
      ap
        (λ ts. elim (get_elem? ts 0) [
          | none ↦ ok (stay g)
          | some t ↦ run_timer (record g { timers = remove_at 0 ts }) t
        ])
        v.timers
      ∙ ap (λ x. ok (stay x))
          (preload_lem (pos (place n s d)) (record g { timers = [] }) v.start v.unlimited)

  pub image_step :
      (d : ℕ) (g : Gallery)
      → Ahead n s d [] (waiting n s d) g
      → step g (image_loads 0)
        ≡ ok (
            stay (
              preload_next
                (record g { loads = []; images = mark_loaded g.images (pos (place n s d)) })
                (pos s)
                (pos (place n s d))))
  unfolding step run_load remove_at
  image_step d g v =
      ap
        (λ ls. elim (get_elem? ls 0) [
          | none ↦ ok (stay g)
          | some l ↦ staying (run_load (record g { loads = remove_at 0 ls }) l)
        ])
        v.loads

  pub idle_timer : (g : Gallery) → g.timers ≡ [] → step g (timer_fires 0) ≡ ok (stay g)
  unfolding step
  idle_timer g e =
      ap
        (λ ts. elim (get_elem? ts 0) [
          | none ↦ ok (stay g)
          | some t ↦ run_timer (record g { timers = remove_at 0 ts }) t
        ])
        e

  pub idle_load : (g : Gallery) → g.loads ≡ [] → step g (image_loads 0) ≡ ok (stay g)
  unfolding step
  idle_load g e =
      ap
        (λ ls. elim (get_elem? ls 0) [
          | none ↦ ok (stay g)
          | some l ↦ staying (run_load (record g { loads = remove_at 0 ls }) l)
        ])
        e
