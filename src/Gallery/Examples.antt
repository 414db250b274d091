-- ===== src/Gallery/Examples.antt =====
-- Tests of the gallery, and its theorems at concrete inputs: a gallery of five images, two to a page.
pub mod Sites
mod Preloads
use Prim.Native.String.{String}
use nswall.Common.{
  ◌+◌, ◌%◌, ◌≡◌, refl, ap, ◌∙◌, Bool, true, false, none, List, [], ◌∷◌, arith, length, map, not,
}
use nswall.Common.Int.{ℤ, pos, ◌-ℤ◌, ◌*ℤ◌}
use nswall.Common.Result.{Result, ok, type_error, Returns, Returns-ok}
use nswall.Gallery.State.{
  Settings, defaults, ImageData, Gallery, Thumb, prev_page, current, page_index, next_page,
}
use nswall.Gallery.Index.{get_next_index, get_prev_index, iterate, clamp, at_index, page_of}
use nswall.Gallery.Index.Laws.{prev-next, iterate-get_next_index}
use nswall.Gallery.Layout.{core, IsLaidOut}
use nswall.Gallery.Pager.{
  hash_at, build_pager, rebuild_pager, first_page, show_range, show_page, rebuild_thumbs,
  stop_index,
}
use nswall.Gallery.Pager.Links.{All, Leads, build_pager-Leads}
use nswall.Gallery.Display.{goto}
use nswall.Gallery.Display.Synced.{IsSynced}
use nswall.Gallery.Slideshow.{ss_advance, toggle_slideshow}
use nswall.Gallery.Slideshow.Advances.{Running, next_of, ss_advance-Shows, toggle_slideshow-Running}
use nswall.Gallery.Registry.{Registry, no_galleries}
use nswall.Gallery.Init.{Item, new_gallery, galleriffic}
use nswall.Gallery.Init.Valid.{IsSetUp}
use nswall.Gallery.Init.Starts.{galleriffic-IsSetUp, named}
use nswall.Gallery.Step.{step, control_clicked}
use nswall.Gallery.Step.Asked.{is_asked}
use nswall.Gallery.Step.Goes.{IsAsked}
use nswall.Gallery.Step.Steady.{IsSteady, step-IsSteady}
use nswall.Gallery.Registry.Laws.{no_galleries-IsPartitioned}

abbrev pub settings : Settings
settings = record defaults {
  num_thumbs = 2;
  image_container_sel = true;
  controls_container_sel = true;
}

abbrev item : String → Item
item name = record {
  title = name;
  href = name;
  caption = name;
  thumb = record { shown = true; selected = false };
}

abbrev pub items : List Item
items = item "a" ∷ item "b" ∷ item "c" ∷ item "d" ∷ item "e" ∷ []

abbrev start : ℤ
start = named 0 5 (pos 3)

galleriffic-IsSetUp_example :
    Returns
      (IsSetUp no_galleries settings items start)
      (galleriffic no_galleries settings items (pos 3))
galleriffic-IsSetUp_example =
    galleriffic-IsSetUp no_galleries settings items no_galleries-IsPartitioned (pos 3) (omega arith)
      (omega arith)

pub set_up :
    (r : Registry) × (galleriffic no_galleries settings items (pos 3) ≡ ok r)
    × IsSetUp no_galleries settings items start r
set_up =
    Returns-ok (IsSetUp no_galleries settings items start)
      (galleriffic no_galleries settings items (pos 3))
      (galleriffic-IsSetUp no_galleries settings items no_galleries-IsPartitioned (pos 3)
        (omega arith) (omega arith))

-- The gallery that is set up for an address that names its fourth image.
abbrev pub sample : Gallery
sample = set_up.2.gallery

pub sample-IsSynced : IsSynced (core sample)
sample-IsSynced = set_up.2.showing

pub sample_settings : sample.settings ≡ settings
unfolding new_gallery
sample_settings = set_up.2.at.same_settings

pub sample_images : length sample.images ≡ 5
unfolding new_gallery
sample_images = ap (λ (ds : List ImageData). length ds) set_up.2.at.same_images

sample-IsAsked : IsAsked sample
unfolding new_gallery at_index
sample-IsAsked =
    ap (λ ds. is_asked ds sample.current_index sample.loads) set_up.2.at.same_images
    ∙ ap (λ i. is_asked (new_gallery settings 0 items).images i sample.loads) set_up.2.at.at_index
    ∙ ap (is_asked (new_gallery settings 0 items).images start) set_up.2.requested
    ∙ refl

step-IsSteady_example : Returns (λ o. IsSteady o.gallery) (step sample control_clicked)
step-IsSteady_example = step-IsSteady sample control_clicked (sample-IsSynced, sample-IsAsked)

toggle_slideshow-Running_example : Returns (Running (not sample.interval)) (toggle_slideshow sample)
toggle_slideshow-Running_example = toggle_slideshow-Running sample sample-IsSynced

iterate-get_next_index_example : iterate 7 (get_next_index 5) (pos 3) ≡ pos ((3 + 7) % 5)
iterate-get_next_index_example = iterate-get_next_index 5 3 7 (omega arith)

paged : Gallery
unfolding new_gallery
paged = record (new_gallery settings 0 items) { current_page = pos 1 }

paged-IsLaidOut : IsLaidOut (core paged)
unfolding paged new_gallery
paged-IsLaidOut = record {
  thumbs_pos = omega arith;
  hashes = omega arith;
  pages = refl;
  thumbs_length = refl;
}

build_pager-Leads_example : Returns (All (Leads paged 1)) (build_pager paged)
unfolding paged new_gallery
build_pager-Leads_example = build_pager-Leads paged 1 paged-IsLaidOut refl (omega arith)

build_pager_runs :
    build_pager paged
    ≡ ok (
        prev_page 0
        ∷ page_index 0 (pos 1)
        ∷ current (pos 2)
        ∷ page_index 4 (pos 3)
        ∷ next_page 4
        ∷ [])
unfolding paged new_gallery build_pager hash_at at_index ◌-ℤ◌ ◌*ℤ◌
build_pager_runs = refl

abbrev shown_thumbs : Result Gallery → List Bool
shown_thumbs (ok g) = map (λ (t : Thumb). t.shown) g.view.thumbs
shown_thumbs type_error = []

-- The visible thumbnails of the gallery at its third page.
goto_runs :
    shown_thumbs (goto (new_gallery settings 0 items) (pos 4))
    ≡ false ∷ false ∷ false ∷ false ∷ true ∷ []
unfolding new_gallery goto at_index hash_at rebuild_thumbs rebuild_pager first_page show_page
    stop_index show_range clamp page_of get_next_index get_prev_index build_pager ◌-ℤ◌ ◌*ℤ◌
goto_runs = refl
