-- ===== src/Gallery/Step/Preloads.antt =====
-- The preloader by itself: every image is loaded in the end.
use nswall.Common.{
  ℕ, suc, ◌+◌, ◌-◌, ◌<◌, ◌≡◌, refl, ap, sym, ◌∙◌, subst, ◌⊎◌, inl, inr, true, false, some, List, [],
  ◌∷◌, ◌++◌, arith, length, get_elem?, ltb, if◌then◌else◌, dec_lt, Bool-cases, get_elem?_of_lt,
}
use nswall.Common.Int.{pos, leb_ℤ, eqb_ℤ}
use nswall.Gallery.State.{Gallery, ImageData, Timer, preload_recursive_timer, Load, preload_load}
use nswall.Gallery.Index.{get_next_index, at_index}
use nswall.Gallery.Preload.{add_timer, preload_next, preload_image}

-- The image at `i` is loaded.
abbrev pub Stored : List ImageData → ℕ → Type 0
Stored ds i = (d : ImageData) × (get_elem? ds i ≡ some d) × (d.image ≡ true)

module _ (n s : ℕ) where
  -- The image `d` places behind the start `s` of `n`.
  abbrev pub place : ℕ → ℕ
  place d = if ltb (s + d) n then s + d else s + d - n

  abbrev pub due : ℕ → List Timer
  due d = preload_recursive_timer (pos s) (pos (place d)) ∷ []

  abbrev pub waiting : ℕ → List Load
  waiting d = preload_load (pos s) (pos (place d)) ∷ []

  -- The preloader started at `s`, has no limit, and has loaded the images before the `d`-th; `ts` and
  -- `ls` are what it waits for.
  pub record Ahead (d : ℕ) (ts : List Timer) (ls : List Load) (g : Gallery) : Type 0 where
    pub timers : g.timers ≡ ts
    pub loads : g.loads ≡ ls
    pub images : length g.images ≡ n
    pub start : g.preload_start_index ≡ pos s
    pub unlimited : leb_ℤ (pos 0) g.settings.preload_ahead ≡ false
    pub stored : (j : ℕ) → 0 < j → j < d → Stored g.images (place j)

  abbrev pub Complete : Gallery → Type 0
  Complete g = (g.is_preload_complete ≡ true) × Ahead n [] [] g

  abbrev pub After : ℕ → Gallery → Type 0
  After d g = Complete g ⊎ ((d < n) × Ahead d (due d) [] g)

  module _ (below : s < n) where
    next_place : (d : ℕ) → suc d < n → get_next_index n (pos (place d)) ≡ pos (place (suc d))
    unfolding get_next_index
    next_place d h = ground arith

    next_end : (d : ℕ) → suc d ≡ n → get_next_index n (pos (place d)) ≡ pos s
    unfolding get_next_index
    next_end d h = ground arith

    place_differs : (d : ℕ) → 0 < d → d < n → eqb_ℤ (pos (place d)) (pos s) ≡ false
    place_differs d h k = ground arith

    pub place_below : (d : ℕ) → d < n → place d < n
    place_below d h = ground arith

    next_due :
        (d : ℕ) (g : Gallery)
        → suc d < n
        → length g.images ≡ n
        → preload_next g (pos s) (pos (place d)) ≡ record g { timers = g.timers ++ due (suc d) }
    unfolding preload_next add_timer
    next_due d g h e =
        let f : get_next_index (length g.images) (pos (place d)) ≡ pos (place (suc d)) =
          ap (λ m. get_next_index m (pos (place d))) e ∙ next_place d h in
        rw (f, preload_next) (rw (place_differs (suc d) (omega arith) h) refl)

    next_complete :
        (d : ℕ) (g : Gallery)
        → suc d ≡ n
        → length g.images ≡ n
        → preload_next g (pos s) (pos (place d)) ≡ record g { is_preload_complete = true }
    unfolding preload_next add_timer
    next_complete d g h e =
        let f : get_next_index (length g.images) (pos (place d)) ≡ pos s =
          ap (λ m. get_next_index m (pos (place d))) e ∙ next_end d h in
        rw (f, preload_next) (ground arith)

    pub next_lem :
        (d : ℕ) (g : Gallery)
        → d < n
        → Ahead (suc d) [] [] g
        → After (suc d) (preload_next g (pos s) (pos (place d)))
    next_lem d g h v = elim (dec_lt (suc d) n) [
      | yes k ↦ inr (
        k,
        subst (Ahead (suc d) (due (suc d)) []) (sym (next_due d g k v.images)) (record {
          timers = ap (◌++ due (suc d)) v.timers;
          loads = v.loads;
          images = v.images;
          start = v.start;
          unlimited = v.unlimited;
          stored = v.stored;
        }),
      )
      | no k ↦
          let last : suc d ≡ n = omega arith in
          inl (
            subst Complete (sym (next_complete d g last v.images)) (
              refl,
              record {
                timers = v.timers;
                loads = v.loads;
                images = v.images;
                start = v.start;
                unlimited = v.unlimited;
                stored = λ j p q. v.stored j p (omega (arith, last, q));
              },
            ))
    ]

    pub store_next :
        (d : ℕ) (g : Gallery)
        → Stored g.images (place d)
        → ((j : ℕ) → 0 < j → j < d → Stored g.images (place j))
        → (j : ℕ) → 0 < j
        → j < suc d
        → Stored g.images (place j)
    store_next d g x h j p q = elim (dec_lt j d) [
      | yes k ↦ h j p k
      | no k ↦ let same : d ≡ j = omega arith in subst (λ i. Stored g.images (place i)) same x
    ]

    image_stored :
        (d : ℕ) (g : Gallery) (x : ImageData)
        → get_elem? g.images (place d) ≡ some x
        → x.image ≡ true
        → preload_image g (pos s) (pos (place d)) ≡ preload_next g (pos s) (pos (place d))
    unfolding preload_image at_index
    image_stored d g x e k = rw (e, preload_image) (rw k refl)

    image_missing :
        (d : ℕ) (g : Gallery) (x : ImageData)
        → get_elem? g.images (place d) ≡ some x
        → x.image ≡ false
        → preload_image g (pos s) (pos (place d)) ≡ record g { loads = g.loads ++ waiting d }
    unfolding preload_image at_index
    image_missing d g x e k = rw (e, preload_image) (rw k refl)

    pub image_lem :
        (d : ℕ) (g : Gallery)
        → d < n
        → Ahead d [] [] g
        → Ahead d [] (waiting d) (preload_image g (pos s) (pos (place d)))
          ⊎ After (suc d) (preload_image g (pos s) (pos (place d)))
    image_lem d g h v =
        let (x, e) =
          get_elem?_of_lt g.images (place d)
            (subst (place d <◌) (sym v.images) (place_below d h)) in
        elim (Bool-cases x.image) [
          | inl k ↦ inr (
              subst (After (suc d)) (sym (image_stored d g x e k)) (
                next_lem d g h (record {
                  timers = v.timers;
                  loads = v.loads;
                  images = v.images;
                  start = v.start;
                  unlimited = v.unlimited;
                  stored = store_next d g (x, e, k) v.stored;
                })))
          | inr k ↦ inl (
              subst (Ahead d [] (waiting d)) (sym (image_missing d g x e k)) (record {
                timers = v.timers;
                loads = ap (◌++ waiting d) v.loads;
                images = v.images;
                start = v.start;
                unlimited = v.unlimited;
                stored = v.stored;
              }))
        ]
