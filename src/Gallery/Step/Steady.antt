-- ===== src/Gallery/Step/Steady.antt =====
-- No event of any kind makes a gallery throw, or leaves it with a current image that is neither stored
-- nor requested.
use nswall.Common.{
  ℕ, ◌≡◌, refl, true, false, ◌&&◌, some, [], ◌∷◌, arith, get_elem?, length, Bool-cases,
  Option-cases, inl, inr,
}
use nswall.Common.Int.{ℤ, pos, eqb_ℤ, ◌-ℤ◌}
use nswall.Common.Result.{
  Result, ok, Returns, IfReturns, IfReturns-bind, IfReturns-mono, Returns-and,
}
use nswall.Gallery.State.{
  Gallery, Control, play_link, pause_link, Timer, preload_recursive_timer, play_timer,
  preload_init_timer, Load, preload_load, refresh_load,
}
use nswall.Gallery.Index.{get_next_index}
use nswall.Gallery.Layout.{core}
use nswall.Gallery.Display.{
  build_image, transition_out_callback, goto, page_transition_out_callback,
}
use nswall.Gallery.Display.Transition.{Stays, page_out-Stays}
use nswall.Gallery.Display.Synced.{IsSynced}
use nswall.Gallery.Preload.{
  preload_next, preload_image, preload_from, preload_recursive, preload_init, add_timer,
}
use nswall.Gallery.Slideshow.{
  Outcome, stay, ss_advance, set_control, stop_slideshow, toggle_slideshow, pause, play,
  click_handler,
}
use nswall.Gallery.Step.{
  Event, timer_fires, image_loads, interval_fires, transition_ends, page_transition_ends,
  control_clicked, link_clicked, history_goes, remove_at, mark_loaded, run_timer, run_load, staying,
  step,
}
use nswall.Gallery.Step.Valid.{step-IsSynced}
use nswall.Gallery.Step.Asked.{
  is_requested, is_requested-append, is_requested-remove_at, marked-is_asked,
}
use nswall.Gallery.Step.Goes.{
  IsAsked, Holds, Holds-IsAsked, build_image-Holds, callback-Holds, goto-IsAsked,
}

abbrev Left : Outcome → Type 0
Left o = IsAsked o.gallery

staying-IsAsked : (m : Result Gallery) → IfReturns IsAsked m → IfReturns Left (staying m)
staying-IsAsked m h = IfReturns-bind IsAsked Left m (λ g. ok (stay g)) h λ g v. v

set_control-IsAsked : (c : Control) (g : Gallery) → IsAsked g → IsAsked (set_control c g)
unfolding set_control
set_control-IsAsked c g v = ground (arith, v)

ss_advance-IsAsked : (g : Gallery) → IsAsked g → IfReturns Left (ss_advance g)
unfolding ss_advance
ss_advance-IsAsked g v =
    let next_index = get_next_index (length g.images) g.current_index in
    let go = staying-IsAsked (goto g next_index) (goto-IsAsked g next_index v) in
    ground (arith, go, v)

toggle_slideshow-IsAsked : (g : Gallery) → IsAsked g → IfReturns Left (toggle_slideshow g)
unfolding toggle_slideshow stop_slideshow
toggle_slideshow-IsAsked g v = elim (Bool-cases g.interval) [
  | inl y ↦ simp y (set_control-IsAsked play_link (record g { interval = false }) v)
  | inr z ↦ simp z (
      IfReturns-bind Left Left (ss_advance g) _ (ss_advance-IsAsked g v)
        λ o w. set_control-IsAsked pause_link (record (o.gallery) { interval = true }) w)
]

pause-IsAsked : (g : Gallery) → IsAsked g → IfReturns Left (pause g)
unfolding pause
pause-IsAsked g v = ground (arith, v, toggle_slideshow-IsAsked g v)

play-IsAsked : (g : Gallery) → IsAsked g → IfReturns Left (play g)
unfolding play
play-IsAsked g v = ground (arith, v, toggle_slideshow-IsAsked g v)

click_handler-IsAsked : (g : Gallery) (hash : ℤ) → IsAsked g → IfReturns Left (click_handler g hash)
unfolding click_handler
click_handler-IsAsked g hash v = IfReturns-bind Left Left (pause g) _ (pause-IsAsked g v) λ o w.
    let index = hash -ℤ pos g.offset in
    let go = staying-IsAsked (goto o.gallery index) (goto-IsAsked o.gallery index w) in
    ground (arith, go, w)

-- A request of the preloader's asks for nothing that was not asked for, and takes nothing away.
preload_image-IsAsked : (g : Gallery) (s c : ℤ) → IsAsked g → IsAsked (preload_image g s c)
unfolding preload_image preload_next add_timer
preload_image-IsAsked g s c v =
    let same = is_requested-append g.current_index g.loads (preload_load s c) in
    ground (arith, v, same)

preload_from-IsAsked : (g : Gallery) (s c : ℤ) → IsAsked g → IsAsked (preload_from g s c)
unfolding preload_from add_timer
preload_from-IsAsked g s c v = let out = preload_image-IsAsked g s c v in ground (arith, v, out)

preload_recursive-IsAsked : (g : Gallery) (s c : ℤ) → IsAsked g → IsAsked (preload_recursive g s c)
unfolding preload_recursive
preload_recursive-IsAsked g s c v =
    let start = g.preload_start_index in
    let here = preload_from-IsAsked g s c v in
    let there = preload_from-IsAsked g start (get_next_index (length g.images) start) v in
    ground (arith, here, there)

run_timer-IsAsked : (g : Gallery) (t : Timer) → IsAsked g → IfReturns Left (run_timer g t)
unfolding run_timer preload_init
run_timer-IsAsked g (preload_recursive_timer s c) v = preload_recursive-IsAsked g s c v
run_timer-IsAsked g play_timer v = play-IsAsked g v
run_timer-IsAsked g preload_init_timer v =
    let start = g.current_index in
    let out =
      preload_recursive-IsAsked (record g { preload_start_index = start }) start
        (get_next_index (length g.images) start) v in
    ground (arith, v, out)

-- The request that has arrived is no longer open, and its image is stored.
arrived-IsAsked :
    (g : Gallery) (i : ℕ) (l : Load) (index : ℤ)
    → get_elem? g.loads i ≡ some l
    → is_requested g.current_index (l ∷ [])
      ≡ (is_requested g.current_index (l ∷ []) && eqb_ℤ g.current_index index)
    → IsAsked g
    → IsAsked (record g { loads = remove_at i g.loads; images = mark_loaded g.images index })
arrived-IsAsked g i l index e own v =
    let split = is_requested-remove_at g.current_index i g.loads e in
    marked-is_asked g.images g.current_index index (remove_at i g.loads)
      (ground (arith, split, own, v))

run_load-IsAsked :
    (g : Gallery) (i : ℕ) (l : Load)
    → get_elem? g.loads i ≡ some l
    → IsAsked g
    → IfReturns IsAsked (run_load (record g { loads = remove_at i g.loads }) l)
unfolding run_load preload_next add_timer
run_load-IsAsked g i (preload_load s c) e v =
    let out = arrived-IsAsked g i (preload_load s c) c e refl v in ground (arith, out)
run_load-IsAsked g i (refresh_load index k) e v =
    let out = arrived-IsAsked g i (refresh_load index k) index e (ground arith) v in
    let g1 = record g { loads = remove_at i g.loads; images = mark_loaded g.images index } in
    let built =
      IfReturns-mono (Holds g1) IsAsked (build_image g1 index) (build_image-Holds g1 index)
        λ g' h. Holds-IsAsked g1 g' h out in
    ground (arith, out, built)

step-IsAsked : (g : Gallery) (e : Event) → IsAsked g → IfReturns Left (step g e)
unfolding step
step-IsAsked g (timer_fires i) v = elim (Option-cases (get_elem? g.timers i)) [
  | inl e ↦ rw (e, step) v
  | inr (t, e) ↦ rw (e, step) (run_timer-IsAsked (record g { timers = remove_at i g.timers }) t v)
]
step-IsAsked g (image_loads i) v = elim (Option-cases (get_elem? g.loads i)) [
  | inl e ↦ rw (e, step) v
  | inr (l, e) ↦
      let g1 = record g { loads = remove_at i g.loads } in
      rw (e, step) (staying-IsAsked (run_load g1 l) (run_load-IsAsked g i l e v))
]
step-IsAsked g interval_fires v = ground (arith, ss_advance-IsAsked g v, v)
step-IsAsked g (transition_ends k) v =
    let out = staying-IsAsked (transition_out_callback g k) (
      IfReturns-mono (Holds g) IsAsked (transition_out_callback g k) (callback-Holds g k)
        λ g' h. Holds-IsAsked g g' h v) in
    ground (arith, v, out)
step-IsAsked g page_transition_ends v =
    let out = staying-IsAsked (page_transition_out_callback g) (
      IfReturns-mono (Stays g) IsAsked (page_transition_out_callback g) (page_out-Stays g)
        λ g' (l, t, o, ds, i). Holds-IsAsked g g' (ds, i, l) v) in
    ground (arith, v, out)
step-IsAsked g control_clicked v = toggle_slideshow-IsAsked g v
step-IsAsked g (link_clicked hash) v = click_handler-IsAsked g hash v
step-IsAsked g (history_goes index) v = staying-IsAsked (goto g index) (goto-IsAsked g index v)

-- The page and the thumbnails are those of the current image, and it is stored or requested.
abbrev pub IsSteady : Gallery → Type 0
IsSteady g = IsSynced (core g) × IsAsked g

-- Take a gallery that is laid out and on the page of its current image, with the thumbnail of that
-- image alone selected, those of the page and no others visible unless a delegate turns the pages,
-- and the current image stored or requested. Whatever event comes, no handler throws, and all of
-- this holds again afterwards.
pub step-IsSteady :
    (g : Gallery) (e : Event) → IsSteady g → Returns (λ o. IsSteady o.gallery) (step g e)
step-IsSteady g e (v, w) =
    Returns-and (λ o. IsSynced (core o.gallery)) Left (step g e) (step-IsSynced g e v)
      (step-IsAsked g e w)
