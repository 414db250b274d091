-- ===== src/Gallery/Step/Completes.antt =====
-- A run of the preloader by itself: loads and timers, one after the other, until it is complete.
use nswall.Common.{
  ℕ, zero, suc, ◌+◌, ◌-◌, ◌*◌, ◌<◌, ◌≤◌, ◌≡◌, refl, ap, sym, ◌∙◌, subst, ◌⊎◌, inl, inr, true, false,
  [], arith, length, dec_lt,
}
use nswall.Common.Int.{ℤ, pos, leb_ℤ, eqb_ℤ}
use nswall.Common.Result.{Result, ok, Returns, Returns-mono, Returns-bind, ◌>>=◌}
use nswall.Gallery.State.{Gallery}
use nswall.Gallery.Index.{get_next_index}
use nswall.Gallery.Preload.{preload_next, preload_image, preload_recursive, preload_init}
use nswall.Gallery.Step.{timer_fires, image_loads, step, mark_loaded}
use nswall.Gallery.Step.Valid.{length-mark_loaded}
use nswall.Gallery.Step.Preloads.{
  Stored, place, due, waiting, Ahead, Complete, After, next_lem, store_next, image_lem, place_below,
}
use nswall.Gallery.Step.Fires.{
  Stored-mark_loaded, mark_loaded-Stored, preload_lem, timer_step, image_step, idle_timer,
  idle_load,
}

-- The first image that is awaited loads, then the first timer fires.
abbrev pub round : Gallery → Result Gallery
round g = do o ← step g (image_loads 0); p ← step o.gallery (timer_fires 0); ok p.gallery

abbrev pub rounds : ℕ → Gallery → Result Gallery
rounds zero g = ok g
rounds (suc k) g = do g1 ← round g; rounds k g1

module _ (n s : ℕ) (below : s < n) where
  -- The preloader is complete, or at some place with a bound `r` on the rounds that are left.
  abbrev Stage : ℕ → ℕ → Gallery → Type 0
  Stage k r g =
      Complete n s g
      ⊎ ((d : ℕ) × (0 < d)
          × (d < n)
          × ((Ahead n s d (due n s d) [] g × (2 * (n - d) + k ≤ r))
              ⊎ (Ahead n s d [] (waiting n s d) g × (2 * (n - d) ≤ r))))

  After-Stage :
      (d k r : ℕ) (g : Gallery) → After n s (suc d) g → 2 * (n - suc d) + k ≤ r → Stage k r g
  After-Stage d k r g (inl c) h = inl c
  After-Stage d k r g (inr (l, v)) h = inr (suc d, omega arith, l, inl (v, h))

  marked :
      (d : ℕ) (g : Gallery)
      → d < n
      → Ahead n s d [] (waiting n s d) g
      → Ahead n s
          (suc d)
          []
          []
          (record g { loads = []; images = mark_loaded g.images (pos (place n s d)) })
  marked d g h v = record {
    timers = v.timers;
    loads = refl;
    images = length-mark_loaded g.images (pos (place n s d)) ∙ v.images;
    start = v.start;
    unlimited = v.unlimited;
    stored =
        store_next n s below d
          (record g { loads = []; images = mark_loaded g.images (pos (place n s d)) })
          (mark_loaded-Stored g.images (place n s d)
            (subst (place n s d <◌) (sym v.images) (place_below n s below d h)))
          (λ j p q. Stored-mark_loaded g.images (place n s d) (place n s j) (v.stored j p q));
  }

  image_event :
      (r : ℕ) (g : Gallery)
      → Stage 1 (suc r) g
      → Returns (λ o. Stage 0 r o.gallery) (step g (image_loads 0))
  image_event r g (inl c) =
      subst (Returns (λ o. Stage 0 r o.gallery)) (sym (idle_load n s below g c.1.loads)) (inl c)
  image_event r g (inr (d, p, q, inl (v, h))) =
      subst (Returns (λ o. Stage 0 r o.gallery)) (sym (idle_load n s below g v.loads))
        (inr (d, p, q, inl (v, omega (arith, h))))
  image_event r g (inr (d, p, q, inr (v, h))) =
      let g1 = record g { loads = []; images = mark_loaded g.images (pos (place n s d)) } in
      subst (Returns (λ o. Stage 0 r o.gallery)) (sym (image_step n s below d g v)) (
        After-Stage d 0 r (preload_next g1 (pos s) (pos (place n s d)))
          (next_lem n s below d g1 q (marked d g q v)) (omega (arith, h, q)))

  timer_event :
      (r : ℕ) (g : Gallery)
      → Stage 0 r g
      → Returns (λ o. Stage 1 r o.gallery) (step g (timer_fires 0))
  timer_event r g (inl c) =
      subst (Returns (λ o. Stage 1 r o.gallery)) (sym (idle_timer n s below g c.1.timers)) (inl c)
  timer_event r g (inr (d, p, q, inr (v, h))) =
      subst (Returns (λ o. Stage 1 r o.gallery)) (sym (idle_timer n s below g v.timers))
        (inr (d, p, q, inr (v, h)))
  timer_event r g (inr (d, p, q, inl (v, h))) =
      let g1 = record g { timers = [] } in
      let g2 = preload_image g1 (pos s) (pos (place n s d)) in
      subst (Returns (λ o. Stage 1 r o.gallery)) (sym (timer_step n s below d g v))
        (elim (image_lem n s below d g1 q (record {
          timers = refl;
          loads = v.loads;
          images = v.images;
          start = v.start;
          unlimited = v.unlimited;
          stored = v.stored;
        })) [
          | inl w ↦ inr (d, p, q, inr (w, omega (arith, h)))
          | inr w ↦ After-Stage d 1 r g2 w (omega (arith, h, q))
        ])

  round_event : (r : ℕ) (g : Gallery) → Stage 1 (suc r) g → Returns (Stage 1 r) (round g)
  round_event r g v =
      Returns-bind (λ o. Stage 0 r o.gallery) (Stage 1 r) (step g (image_loads 0))
        (λ o. step o.gallery (timer_fires 0) >>= λ p. ok p.gallery) (image_event r g v)
        (λ o w.
          Returns-bind (λ p. Stage 1 r p.gallery) (Stage 1 r) (step o.gallery (timer_fires 0))
            (λ p. ok p.gallery) (timer_event r o.gallery w) (λ p x. x))

  rounds_end : (r : ℕ) (g : Gallery) → Stage 1 r g → Returns (Complete n s) (rounds r g)
  rounds_end zero g (inl c) = c
  rounds_end zero g (inr (d, p, q, inl (v, h))) = absurd (omega (arith, h))
  rounds_end zero g (inr (d, p, q, inr (v, h))) = absurd (omega (arith, h, q))
  rounds_end (suc r) g v =
      Returns-bind (Stage 1 r) (Complete n s) (round g) (rounds r) (round_event r g v)
        (rounds_end r)

  -- Each image but that of the start is at some place behind it.
  place_of : (i : ℕ) → i < n → ¬ (i ≡ s) → (d : ℕ) × (0 < d) × (d < n) × (place n s d ≡ i)
  place_of i h k = elim (dec_lt s i) [
    | yes l ↦ (i - s, omega (arith, l), omega (arith, l, h), ground (arith, l, h))
    | no l ↦ (i + n - s, omega (arith, l, h), omega (arith, l, k), ground (arith, l, h))
  ]

  first_place : 1 < n → get_next_index n (pos s) ≡ pos (place n s 1)
  unfolding get_next_index
  first_place h = ground arith

-- The preloader has nothing under way in `g`, no limit, and starts at the image `s` of two or more.
pub record IsIdle (s : ℕ) (g : Gallery) : Type 0 where
  pub no_timers : g.timers ≡ []
  pub no_loads : g.loads ≡ []
  pub at_start : g.current_index ≡ pos s
  pub some_images : 1 < length g.images
  pub in_range : s < length g.images
  pub no_limit : leb_ℤ (pos 0) g.settings.preload_ahead ≡ false

unlimited_lem : (a : ℤ) → leb_ℤ (pos 0) a ≡ false → eqb_ℤ a (pos 0) ≡ false
unlimited_lem a h = ground arith

init_lem :
    (s : ℕ) (g : Gallery)
    → IsIdle s g
    → preload_init g
      ≡ preload_image
          (record g { preload_start_index = pos s })
          (pos s)
          (pos (place (length g.images) s 1))
unfolding preload_init
init_lem s g v =
    rw (unlimited_lem g.settings.preload_ahead v.no_limit, preload_init)
      (ap
        (λ x.
          preload_recursive (record g { preload_start_index = x }) x
            (get_next_index (length g.images) x))
        v.at_start)
    ∙ ap (preload_recursive (record g { preload_start_index = pos s }) (pos s))
        (first_place (length g.images) s v.in_range v.some_images)
    ∙ preload_lem (length g.images) s v.in_range (pos (place (length g.images) s 1))
        (record g { preload_start_index = pos s }) refl v.no_limit

init-Stage :
    (s : ℕ) (g : Gallery) (v : IsIdle s g)
    → Stage (length g.images) s v.in_range 1 (2 * length g.images) (preload_init g)
init-Stage s g v =
    let n = length g.images in
    let g1 = record g { preload_start_index = pos s } in
    let g2 = preload_image g1 (pos s) (pos (place n s 1)) in
    subst (Stage n s v.in_range 1 (2 * n)) (sym (init_lem s g v))
      (elim (image_lem n s v.in_range 1 g1 v.some_images (record {
        timers = v.no_timers;
        loads = v.no_loads;
        images = refl;
        start = refl;
        unlimited = v.no_limit;
        stored = λ j p q. absurd (omega (arith, p, q));
      })) [
        | inl w ↦ inr (1, omega arith, v.some_images, inr (w, omega arith))
        | inr w ↦ After-Stage n s v.in_range 1 1 (2 * n) g2 w (omega (arith, v.some_images))
      ])

-- Where the preloader has no limit and nothing under way, in a gallery of two or more images: when it is
-- started, and then as often as there are twice as many images the load that it waits for ends and its
-- timer fires, nothing throws, it is complete, and every image but the current one is loaded.
pub preload_completes :
    (s i : ℕ) (g : Gallery)
    → IsIdle s g
    → i < length g.images
    → ¬ (i ≡ s)
    → Returns
        (λ g1. (g1.is_preload_complete ≡ true) × Stored g1.images i)
        (rounds (2 * length g.images) (preload_init g))
preload_completes s i g v h k =
    let n = length g.images in
    let (d, p, q, e) = place_of n s v.in_range i h k in
    Returns-mono (Complete n s) (λ g1. (g1.is_preload_complete ≡ true) × Stored g1.images i)
      (rounds (2 * n) (preload_init g))
      (rounds_end n s v.in_range (2 * n) (preload_init g) (init-Stage s g v))
      λ g1 c. (c.0, subst (Stored g1.images) e (c.1.stored d p q))
