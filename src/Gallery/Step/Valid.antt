-- ===== src/Gallery/Step/Valid.antt =====
-- No event of any kind makes a gallery throw, or its page and thumbnails differ from the current image's.
use nswall.Common.{
  ℕ, zero, suc, ◌≡◌, refl, ap, ◌⊎◌, not, true, some, List, [], ◌∷◌, arith, length, get_elem?, set,
  length-set, subst, sym, Option-cases, inl, inr, some_inj, ◌∙◌,
}
use nswall.Common.Int.{ℤ, pos, negsuc}
use nswall.Common.Result.{Result, ok, Returns, Returns-bind, Returns-mono}
use nswall.Gallery.State.{
  Gallery, ImageData, Timer, preload_recursive_timer, play_timer, preload_init_timer, Load,
  preload_load, refresh_load,
}
use nswall.Gallery.Layout.{Core, core, HashesFrom}
use nswall.Gallery.Display.{build_image, transition_out_callback, page_transition_out_callback}
use nswall.Gallery.Display.Keeps.{SameCore, build_image-SameCore, transition_out_callback-SameCore}
use nswall.Gallery.Display.Synced.{
  IsSynced, Updates, page-InRange, page_transition_out_callback-IsUpdated, updated-IsSynced,
}
use nswall.Gallery.Preload.{preload_next, preload_recursive, preload_init}
use nswall.Gallery.Preload.Keeps.{
  preload_next-SameCore, preload_recursive-SameCore, preload_init-SameCore,
}
use nswall.Gallery.Slideshow.{Outcome, stay}
use nswall.Gallery.Slideshow.Advances.{
  ss_advance-IsSynced, toggle_slideshow-Running, Running, Leaves, play_on, staying-IsSynced,
  click_handler-IsSynced,
}
use nswall.Gallery.Step.{
  Event, timer_fires, image_loads, interval_fires, transition_ends, page_transition_ends,
  control_clicked, link_clicked, history_goes, remove_at, mark_loaded, run_timer, run_load, staying,
  step,
}

HashesFrom-set :
    (o i : ℕ) (ds : List ImageData) (d : ImageData)
    → HashesFrom o ds
    → get_elem? ds i ≡ some d
    → HashesFrom o (set ds i (record d { image = true }))
HashesFrom-set o i [] d v e = tt
HashesFrom-set o zero (x ∷ ds) d v e =
    (sym (ap (λ (y : ImageData). y.hash) (some_inj e)) ∙ v.0, v.1)
HashesFrom-set o (suc i) (x ∷ ds) d v e = (v.0, HashesFrom-set (suc o) i ds d v.1 e)

-- Storing an image writes one entry, or nothing out of range.
pub mark_loaded_cases :
    (ds : List ImageData) (i : ℕ)
    → (mark_loaded ds (pos i) ≡ ds)
      ⊎ ((d : ImageData) × (get_elem? ds i ≡ some d)
          × (mark_loaded ds (pos i) ≡ set ds i (record d { image = true })))
unfolding mark_loaded
mark_loaded_cases ds i = elim (Option-cases (get_elem? ds i)) [
  | inl e ↦ inl (ground arith)
  | inr (d, e) ↦ inr (d, e, ground arith)
]

mark_loaded-HashesFrom :
    (o : ℕ) (ds : List ImageData) (index : ℤ)
    → HashesFrom o ds
    → HashesFrom o (mark_loaded ds index)
unfolding mark_loaded
mark_loaded-HashesFrom o ds (pos i) v = elim (mark_loaded_cases ds i) [
  | inl e ↦ subst (HashesFrom o) (sym e) v
  | inr (d, at, e) ↦ subst (HashesFrom o) (sym e) (HashesFrom-set o i ds d v at)
]
mark_loaded-HashesFrom o ds (negsuc i) v = v

pub length-mark_loaded :
    (ds : List ImageData) (index : ℤ) → length (mark_loaded ds index) ≡ length ds
unfolding mark_loaded
length-mark_loaded ds (pos i) = elim (mark_loaded_cases ds i) [
  | inl e ↦ ap length e
  | inr (d, at, e) ↦ ap length e ∙ length-set ds i (record d { image = true })
]
length-mark_loaded ds (negsuc i) = refl

-- Storing a loaded image changes nothing that the laws speak of.
pub loaded-IsSynced :
    (c : Core) (index : ℤ)
    → IsSynced c
    → IsSynced (record c { images = mark_loaded c.images index })
loaded-IsSynced c index v = record {
  ready = record {
    laid_out = record {
      thumbs_pos = v.ready.laid_out.thumbs_pos;
      hashes = mark_loaded-HashesFrom c.offset c.images index v.ready.laid_out.hashes;
      pages = rw same v.ready.laid_out.pages;
      thumbs_length = rw same v.ready.laid_out.thumbs_length;
    };
    in_range = rw same v.ready.in_range;
  };
  at_page = v.at_page;
  one_selected = v.one_selected;
  page_shown = v.page_shown;
}
  where
    same : length (mark_loaded c.images index) ≡ length c.images
    same = length-mark_loaded c.images index

abbrev OutcomeSynced : Outcome → Type 0
OutcomeSynced o = IsSynced (core o.gallery)

abbrev AfterSynced : Gallery → Type 0
AfterSynced g = IsSynced (core g)

-- A gallery with the same core is in sync too.
same_core : (g g' : Gallery) → IsSynced (core g) → core g' ≡ core g → IsSynced (core g')
same_core g g' v e = subst IsSynced (sym e) v

same-Returns :
    (g : Gallery) (m : Result Gallery)
    → IsSynced (core g)
    → Returns (SameCore g) m
    → Returns AfterSynced m
same-Returns g m v h = Returns-mono (SameCore g) AfterSynced m h λ g' e. same_core g g' v e

run_timer-IsSynced :
    (g : Gallery) (t : Timer) → IsSynced (core g) → Returns OutcomeSynced (run_timer g t)
unfolding run_timer
run_timer-IsSynced g (preload_recursive_timer s c) v =
    same_core g (preload_recursive g s c) v (preload_recursive-SameCore g s c)
run_timer-IsSynced g play_timer v =
    Returns-mono (Leaves true) OutcomeSynced _ (play_on g v) λ o l. l.0
run_timer-IsSynced g preload_init_timer v = same_core g (preload_init g) v (preload_init-SameCore g)

run_load-IsSynced :
    (g : Gallery) (l : Load) → IsSynced (core g) → Returns AfterSynced (run_load g l)
unfolding run_load
run_load-IsSynced g (preload_load s c) v =
    let g1 = record g { images = mark_loaded g.images c } in
    same_core g1 (preload_next g1 s c) (loaded-IsSynced (core g) c v) (preload_next-SameCore g1 s c)
run_load-IsSynced g (refresh_load index k) v =
    let g1 = record g { images = mark_loaded g.images index } in
    let v1 : IsSynced (core g1) = loaded-IsSynced (core g) index v in
    ground (
      arith,
      same-Returns g1 (build_image g1 index) v1 (build_image-SameCore g1 v1.ready index),
      v1,
    )

page_transition-IsSynced :
    (g : Gallery) → IsSynced (core g) → Returns AfterSynced (page_transition_out_callback g)
page_transition-IsSynced g v =
    let laid_out = v.ready.laid_out in
    let (p, at_p, l) =
      page-InRange g.settings.num_thumbs (length g.images) g.num_pages g.current_index
        laid_out.thumbs_pos v.ready.in_range laid_out.pages in
    Returns-mono (Updates g) AfterSynced (page_transition_out_callback g)
      (page_transition_out_callback-IsUpdated g p laid_out (v.at_page ∙ at_p) l)
      λ g' u. updated-IsSynced (core g) (core g') v u

stay-Returns : (m : Result Gallery) → Returns AfterSynced m → Returns OutcomeSynced (staying m)
stay-Returns m h = Returns-bind AfterSynced OutcomeSynced m (λ g. ok (stay g)) h λ g v. v

-- Whatever happens to a gallery whose page and thumbnails are those of its current image, no handler
-- throws, and that holds again afterwards.
pub step-IsSynced :
    (g : Gallery) (e : Event)
    → IsSynced (core g)
    → Returns (λ o. IsSynced (core o.gallery)) (step g e)
unfolding step
step-IsSynced g (timer_fires i) v = elim (Option-cases (get_elem? g.timers i)) [
  | inl e ↦ rw (e, step) v
  | inr (t, e) ↦ rw (e, step) (run_timer-IsSynced (record g { timers = remove_at i g.timers }) t v)
]
step-IsSynced g (image_loads i) v = elim (Option-cases (get_elem? g.loads i)) [
  | inl e ↦ rw (e, step) v
  | inr (l, e) ↦
      let g1 = record g { loads = remove_at i g.loads } in
      rw (e, step) (stay-Returns (run_load g1 l) (run_load-IsSynced g1 l v))
]
step-IsSynced g interval_fires v = ground (arith, ss_advance-IsSynced g v)
step-IsSynced g (transition_ends k) v = ground (
  arith,
  v,
  stay-Returns (transition_out_callback g k) (
      same-Returns g (transition_out_callback g k) v
        (transition_out_callback-SameCore g k v.ready)),
)
step-IsSynced g page_transition_ends v =
    ground (arith, v, stay-Returns (page_transition_out_callback g) (page_transition-IsSynced g v))
step-IsSynced g control_clicked v =
    Returns-mono (Running (not g.interval)) OutcomeSynced _ (toggle_slideshow-Running g v)
      λ o r. r.0
step-IsSynced g (link_clicked hash) v = click_handler-IsSynced g hash v
step-IsSynced g (history_goes index) v = staying-IsSynced g v index
