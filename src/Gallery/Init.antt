-- ===== src/Gallery/Init.antt =====
-- The set-up of a gallery: `initializeThumbs` and the body of `$.fn.galleriffic`.
pub mod Valid
pub mod Starts
use Prim.Native.String.{String}
use nswall.Common.{
  ℕ, zero, suc, ◌+◌, ◌-◌, ◌/◌, Bool, true, false, ◌&&◌, Option, none, some, List, [], ◌∷◌, ◌++◌,
  map, ◌==◌, if◌then◌else◌, length, set,
}
use nswall.Common.Int.{ℤ, pos, negsuc, ◌-ℤ◌, leb_ℤ}
use nswall.Common.Result.{Result, ok, ◌>>=◌}
use nswall.Gallery.State.{
  Settings, ImageData, Thumb, Control, play_link, pause_link, View, Timer, play_timer,
  preload_init_timer, Gallery,
}
use nswall.Gallery.Display.{goto}
use nswall.Gallery.Preload.{add_timer}
use nswall.Gallery.Registry.{Registry, register_gallery, get_gallery}

-- An `li` of the thumbnails, with what the plugin reads of it.
pub record Item : Type 0 where
  pub title : String
  pub href : String
  pub caption : String
  pub thumb : Thumb

-- `initializeThumbs`, from the hash `hash` on.
unfoldable pub initialize_thumbs : ℕ → List Item → List ImageData
initialize_thumbs hash [] = []
initialize_thumbs hash (item ∷ items) =
    record {
      title = item.title;
      slide_url = item.href;
      caption = item.caption;
      hash = hash;
      image = false;
    }
    ∷ initialize_thumbs (suc hash) items

-- `Math.ceil(n / k)`, for `k` above 0.
unfoldable pub ceil_div : ℕ → ℕ → ℕ
ceil_div n k = (n + k - 1) / k

unfoldable pub initial_control : Settings → Option Control
initial_control s =
    if s.controls_container_sel && s.render_ss_controls
    then some (if s.auto_start then pause_link else play_link)
    else none

-- The page before the first `goto`: the loading container is hidden, the thumbnails and the other
-- containers are shown, and there are no pagers yet.
unfoldable pub initial_view : Settings → List Item → View
unfolding initial_control
initial_view s items = record {
  thumbs_visible = true;
  thumbs = map (λ (item : Item). item.thumb) items;
  top_pager = [];
  bottom_pager = [];
  containers_visible = true;
  displayed = none;
  shown_caption = none;
  loading_visible = false;
  control = initial_control s;
  prev_link = none;
  next_link = none;
}

-- The gallery object before the first `goto`. `preloadStartIndex` is not set before `goto` sets it,
-- and nothing reads it in between.
unfoldable pub new_gallery : Settings → ℕ → List Item → Gallery
unfolding initialize_thumbs ceil_div initial_view
new_gallery s offset items = record {
  settings = s;
  offset = offset;
  images = initialize_thumbs offset items;
  num_pages = ceil_div (length items) s.num_thumbs;
  current_page = negsuc 0;
  current_index = pos 0;
  interval = false;
  preload_start_index = pos 0;
  is_preload_complete = false;
  transitioning = [];
  timers = [];
  loads = [];
  delegates = [];
  view = initial_view s items;
}

-- `gotoIndex`, for the hash of the page's address.
unfoldable pub goto_index : Registry → ℕ → ℕ → ℤ → ℤ
unfolding ◌-ℤ◌
goto_index r self offset hash = elim (get_gallery r hash) [
  | none ↦ pos 0
  | some j ↦ if leb_ℤ (pos 0) hash && j == self then hash -ℤ pos offset else pos 0
]

unfoldable pub start_timers : Gallery → Gallery
unfolding add_timer
start_timers g =
    let g1 = if g.settings.auto_start then add_timer play_timer g else g in
    add_timer preload_init_timer g1

-- The call of the plugin for one gallery: it is registered, goes to the image that the address
-- names, and starts its timers.
unfoldable pub galleriffic : Registry → Settings → List Item → ℤ → Result Registry
unfolding new_gallery goto_index start_timers
galleriffic r s items hash = do
  let self = length r.galleries
  let g = new_gallery s r.gallery_offset items
  let registered = register_gallery r g
  g1 ← goto g (goto_index registered self g.offset hash)
  ok (record registered { galleries = set registered.galleries self (start_timers g1) })
