-- ===== src/Gallery/Examples/Sites.antt =====
-- The theorems on registries, histories, slideshows and late images, at the gallery of the parent
-- module.
use nswall.Common.{
  ℕ, ◌+◌, ◌*◌, ◌-◌, ◌/◌, ◌<◌, ◌≤◌, ◌≡◌, refl, ap, true, false, Option, none, some, [], ◌∷◌, arith,
  length, get_elem?, leb, ◌&&◌, if◌then◌else◌, ◌==◌,
}
use nswall.Common.Int.{ℤ, pos}
use nswall.Common.Result.{Returns}
use nswall.Gallery.State.{Settings, Gallery, refresh_load}
use nswall.Gallery.Pager.{show_page, show_range, stop_index}
use nswall.Gallery.Pager.Visible.{shown-show_page}
use nswall.Gallery.Preload.{preload_count}
use nswall.Gallery.Preload.Window.{preload_count_lem}
use nswall.Gallery.Slideshow.{pause, play}
use nswall.Gallery.Slideshow.Advances.{pause_off, play_on, Leaves}
use nswall.Gallery.Registry.{Registry, no_galleries, register_gallery, get_gallery, get_index}
use nswall.Gallery.Registry.Laws.{
  IsPartitioned, no_galleries-IsPartitioned, register_gallery-IsPartitioned, get_gallery_of_range,
  get_gallery_total, get_gallery-none,
}
use nswall.Gallery.Init.{new_gallery}
use nswall.Gallery.Step.{run_load, mark_loaded}
use nswall.Gallery.Step.Late.{Displays, run_load-Displays}
use nswall.Common.Texts.{Text, text_eq}
use nswall.Gallery.History.{History, Site, check, history_check}
use nswall.Gallery.History.Stacks.{trail, trail-check}
use nswall.Gallery.History.Follows.{IsChecked, history_check-IsChecked}
use nswall.Gallery.Examples.{
  settings, items, sample, set_up, sample-IsSynced, sample_images, sample_settings,
}

sample_offset : sample.offset ≡ 0
unfolding new_gallery
sample_offset = set_up.2.at.same_offset

register_gallery-IsPartitioned_example : IsPartitioned (register_gallery no_galleries sample)
register_gallery-IsPartitioned_example =
    register_gallery-IsPartitioned no_galleries sample no_galleries-IsPartitioned sample_offset

-- The registry of a page with the sample gallery.
abbrev one : Registry
one = register_gallery no_galleries sample

one_first : get_elem? one.galleries 0 ≡ some sample
unfolding register_gallery
one_first = refl

one_offset : one.gallery_offset ≡ 5
unfolding register_gallery
one_offset = omega (arith, sample_images)

get_gallery_of_range_example :
    (get_gallery one (pos 3) ≡ some 0) × (get_index sample (pos 3) ≡ pos (3 - sample.offset))
get_gallery_of_range_example =
    get_gallery_of_range one 0 3 sample register_gallery-IsPartitioned_example one_first
      (omega (arith, sample_offset)) (omega (arith, sample_images))

get_gallery_total_example :
    (j : ℕ) × (g : Gallery) × (get_gallery one (pos 3) ≡ some j)
    × (get_elem? one.galleries j ≡ some g)
    × (g.offset ≤ 3)
    × (3 < g.offset + length g.images)
get_gallery_total_example =
    get_gallery_total one 3 register_gallery-IsPartitioned_example (omega (arith, one_offset))

get_gallery-none_example : get_gallery one (pos 7) ≡ none
get_gallery-none_example =
    get_gallery-none one 7 register_gallery-IsPartitioned_example (omega (arith, one_offset))

abbrev decimal_from : ℕ → Text → Option ℤ
decimal_from n [] = some (pos n)
decimal_from n (c ∷ s) =
    let rest = decimal_from (n * 10 + (c - 48)) s in if leb 48 c && leb c 57 then rest else none

abbrev decimal : Text → Option ℤ
decimal s = decimal_from 0 s

abbrev at_hash : History
at_hash = record {
  safari = false;
  msie = false;
  location_hash = b'#' ∷ b'4' ∷ [];
  history_length = 2;
  is_initialized = true;
  dont_check = false;
  is_first = false;
  current_hash = b'#' ∷ b'1' ∷ [];
  back = [];
  forward = [];
}

abbrev site : Site
site = record { registry = one; history = at_hash }

history_check-IsChecked_example :
    Returns
      (IsChecked decimal site register_gallery-IsPartitioned_example 0 sample 4)
      (history_check decimal site)
unfolding text_eq
history_check-IsChecked_example =
    history_check-IsChecked decimal site register_gallery-IsPartitioned_example (b'4' ∷ []) 0 4
      sample refl refl refl (refl, tt) refl one_first (omega (arith, sample_offset))
      (omega (arith, sample_images)) sample-IsSynced

abbrev went_back : History
went_back = record at_hash {
  safari = true;
  history_length = 1;
  back = some (b'2' ∷ []) ∷ some (b'1' ∷ []) ∷ none ∷ [];
  forward = some (b'3' ∷ []) ∷ [];
}

trail-check_example : trail (check went_back).0 ≡ trail went_back
trail-check_example = trail-check went_back refl refl (omega arith)

preload_count_lem_example : preload_count 5 (pos 3) (pos 0) ≡ pos 1
preload_count_lem_example = preload_count_lem 5 3 2 (omega arith) (omega arith)

-- The sample gallery at its fourth image, with the first transition over.
abbrev arrived : Gallery
arrived = record sample { transitioning = false ∷ [] }

run_load-Displays_example :
    Returns
      (Displays (record arrived { images = mark_loaded sample.images (pos 0) }) (pos 0))
      (run_load arrived (refresh_load (pos 0) 0))
run_load-Displays_example =
    run_load-Displays arrived (pos 0) 0
      (ap (λ (s : Settings). s.image_container_sel) sample_settings) refl sample-IsSynced

abbrev auto_settings : Settings
auto_settings = record settings { auto_start = true }

pause_off_example : Returns (Leaves false) (pause sample)
pause_off_example = pause_off sample sample-IsSynced

play_on_example : Returns (Leaves true) (play sample)
play_on_example = play_on sample sample-IsSynced

first_page_of : Gallery
unfolding new_gallery
first_page_of = record (new_gallery settings 0 items) { current_page = pos 1 }

shown-show_page_example : true ≡ (3 / 2 == 1)
unfolding first_page_of show_page show_range stop_index new_gallery
shown-show_page_example =
    shown-show_page first_page_of 1 3 [] [] (record { shown = true; selected = false })
      (omega arith) refl (omega arith) refl
