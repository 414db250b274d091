-- ===== src/Gallery/State.antt =====
-- The state of one gallery of photo_gallery.js: its settings, the properties of the gallery object,
-- and the part of the page that its methods write.
use Prim.Native.String.{String}
use nswall.Common.{ℕ, Bool, true, false, Option, List}
use nswall.Common.Int.{ℤ, pos}

-- A selector setting says whether the element is there; a delegate, whether it is given.
pub record Settings : Type 0 where
  pub delay : ℕ
  pub num_thumbs : ℕ
  pub preload_ahead : ℤ
  pub enable_top_pager : Bool
  pub enable_bottom_pager : Bool
  pub image_container_sel : Bool
  pub caption_container_sel : Bool
  pub controls_container_sel : Bool
  pub loading_container_sel : Bool
  pub render_ss_controls : Bool
  pub render_nav_controls : Bool
  pub enable_history : Bool
  pub auto_start : Bool
  pub on_change : Bool
  pub on_transition_out : Bool
  pub on_transition_in : Bool
  pub on_page_transition_out : Bool
  pub on_page_transition_in : Bool

abbrev pub defaults : Settings
defaults = record {
  delay = 3000;
  num_thumbs = 20;
  preload_ahead = pos 40;
  enable_top_pager = false;
  enable_bottom_pager = true;
  image_container_sel = false;
  caption_container_sel = false;
  controls_container_sel = false;
  loading_container_sel = false;
  render_ss_controls = true;
  render_nav_controls = true;
  enable_history = false;
  auto_start = false;
  on_change = false;
  on_transition_out = false;
  on_transition_in = false;
  on_page_transition_out = false;
  on_page_transition_in = false;
}

-- An entry of `data`. `image` says whether the loaded image is stored in it.
pub record ImageData : Type 0 where
  pub title : String
  pub slide_url : String
  pub caption : String
  pub hash : ℕ
  pub image : Bool

-- A thumbnail's `li`: whether it is shown, and whether it has the class `selected`.
pub record Thumb : Type 0 where
  pub shown : Bool
  pub selected : Bool

-- What a pager holds, from left to right; a link names the hash that it leads to.
pub data PagerItem : Type 0 where
  prev_page : ℕ → PagerItem
  current : ℤ → PagerItem
  page_index : ℕ → ℤ → PagerItem
  next_page : ℕ → PagerItem

-- The link of the slideshow control: what it offers.
pub data Control : Type 0 where
  play_link pause_link : Control

-- The image on display: its place in `data`, and the hash of the link around it.
pub record Displayed : Type 0 where
  pub index : ℤ
  pub advance : ℕ

pub record View : Type 0 where
  pub thumbs_visible : Bool
  pub thumbs : List Thumb
  pub top_pager : List PagerItem
  pub bottom_pager : List PagerItem
  pub containers_visible : Bool
  pub displayed : Option Displayed
  pub shown_caption : Option String
  pub loading_visible : Bool
  pub control : Option Control
  pub prev_link : Option ℕ
  pub next_link : Option ℕ

-- A call that `setTimeout` holds back.
pub data Timer : Type 0 where
  preload_recursive_timer : ℤ → ℤ → Timer
  play_timer preload_init_timer : Timer

-- An image whose `onload` has not run: from `preloadRecursive startIndex currentIndex`, or for the
-- entry `index` from the call of `refresh` whose flag `isTransitioning` has the given number.
pub data Load : Type 0 where
  preload_load : ℤ → ℤ → Load
  refresh_load : ℤ → ℕ → Load

-- A call made to a delegate of the settings. The two `out` delegates take a callback, which the
-- environment runs later: `on_transition_out` for the flag of that number.
pub data Delegate : Type 0 where
  change : ℤ → ℤ → Delegate
  transition_out : ℕ → Delegate
  transition_in page_transition_out page_transition_in : Delegate

pub record Gallery : Type 0 where
  pub settings : Settings
  pub offset : ℕ
  pub images : List ImageData  -- `data`
  pub num_pages : ℕ
  pub current_page : ℤ
  pub current_index : ℤ
  pub interval : Bool
  pub preload_start_index : ℤ
  pub is_preload_complete : Bool
  pub transitioning : List Bool
  pub timers : List Timer
  pub loads : List Load
  pub delegates : List Delegate
  pub view : View
