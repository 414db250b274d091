-- ===== src/Gallery/Step.antt =====
-- One gallery as a state machine: what the page's timers, image loads, delegates and clicks make it
-- do. `step` runs one event; the environment chooses the events.
pub mod Valid
pub mod Asked
pub mod Goes
pub mod Steady
pub mod Late
pub mod Preloads
pub mod Fires
pub mod Completes
use nswall.Common.{
  ℕ, zero, suc, Bool, true, false, not, Option, none, some, List, [], ◌∷◌, ltb, ◌&&◌, if◌then◌else◌,
  length, get_elem?, set,
}
use nswall.Common.Int.{ℤ, pos, negsuc}
use nswall.Common.Result.{Result, ok, ◌>>=◌}
use nswall.Gallery.State.{
  Gallery, ImageData, Timer, preload_recursive_timer, play_timer, preload_init_timer, Load,
  preload_load, refresh_load,
}
use nswall.Gallery.Display.{
  build_image, transition_out_callback, page_transition_out_callback, goto,
}
use nswall.Gallery.Slideshow.{Outcome, stay, ss_advance, toggle_slideshow, play, click_handler}
use nswall.Gallery.Preload.{preload_next, preload_recursive, preload_init}

pub data Event : Type 0 where
  timer_fires image_loads : ℕ → Event
  interval_fires : Event
  transition_ends : ℕ → Event
  page_transition_ends : Event
  control_clicked : Event
  link_clicked : ℤ → Event
  history_goes : ℤ → Event

module _ {ℓ} {A : Type ℓ} where
  unfoldable pub remove_at : ℕ → List A → List A
  remove_at i [] = []
  remove_at zero (x ∷ xs) = xs
  remove_at (suc i) (x ∷ xs) = x ∷ remove_at i xs

-- `imageData.image = this`
unfoldable pub mark_loaded : List ImageData → ℤ → List ImageData
mark_loaded ds (pos i) = elim (get_elem? ds i) [
  | none ↦ ds
  | some d ↦ set ds i (record d { image = true })
]
mark_loaded ds (negsuc i) = ds

abbrev pub is_transitioning : Gallery → ℕ → Bool
is_transitioning g k = elim (get_elem? g.transitioning k) [ none ↦ false | some b ↦ b ]

unfoldable pub run_timer : Gallery → Timer → Result Outcome
run_timer g (preload_recursive_timer start_index current_index) =
    ok (stay (preload_recursive g start_index current_index))
run_timer g play_timer = play g
run_timer g preload_init_timer = ok (stay (preload_init g))

unfoldable pub run_load : Gallery → Load → Result Gallery
unfolding mark_loaded
run_load g (preload_load start_index current_index) =
    let g1 = record g { images = mark_loaded g.images current_index } in
    ok (preload_next g1 start_index current_index)
run_load g (refresh_load index k) =
    let g1 = record g { images = mark_loaded g.images index } in
    if not (is_transitioning g k) then build_image g1 index else ok g1

abbrev pub staying : Result Gallery → Result Outcome
staying m = do g ← m; ok (stay g)

-- An event that is not due (no such timer, no delegate that holds the callback) does nothing.
unfoldable pub step : Gallery → Event → Result Outcome
unfolding run_timer run_load remove_at
step g (timer_fires i) = elim (get_elem? g.timers i) [
  | none ↦ ok (stay g)
  | some t ↦ run_timer (record g { timers = remove_at i g.timers }) t
]
step g (image_loads i) = elim (get_elem? g.loads i) [
  | none ↦ ok (stay g)
  | some l ↦ staying (run_load (record g { loads = remove_at i g.loads }) l)
]
step g interval_fires = if g.interval then ss_advance g else ok (stay g)
step g (transition_ends k) =
    if g.settings.on_transition_out && ltb k (length g.transitioning)
    then staying (transition_out_callback g k)
    else ok (stay g)
step g page_transition_ends =
    if g.settings.on_page_transition_out
    then staying (page_transition_out_callback g)
    else ok (stay g)
step g control_clicked = toggle_slideshow g
step g (link_clicked hash) = click_handler g hash
step g (history_goes index) = staying (goto g index)
