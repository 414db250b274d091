-- ===== src/Gallery/Examples/Preloads.antt =====
-- The preloader of a gallery of three images that starts at the second one.
use nswall.Common.{ℕ, ◌≡◌, refl, Bool, true, false, [], ◌∷◌, arith}
use nswall.Common.Int.{pos, negsuc}
use nswall.Common.Result.{Returns}
use nswall.Gallery.State.{Gallery, ImageData}
use nswall.Gallery.Preload.{preload_init}
use nswall.Gallery.Step.Preloads.{Stored}
use nswall.Gallery.Step.Completes.{rounds, IsIdle, preload_completes}
use nswall.Gallery.Examples.{settings, sample}

abbrev entry : ℕ → Bool → ImageData
entry hash image = record { title = ""; slide_url = ""; caption = ""; hash = hash; image = image }

abbrev idle : Gallery
idle = record sample {
  settings = record settings { preload_ahead = negsuc 0 };
  images = entry 0 false ∷ entry 1 true ∷ entry 2 false ∷ [];
  current_index = pos 1;
  timers = [];
  loads = [];
}

idle-IsIdle : IsIdle 1 idle
idle-IsIdle = record {
  no_timers = refl;
  no_loads = refl;
  at_start = refl;
  some_images = omega arith;
  in_range = omega arith;
  no_limit = refl;
}

preload_completes_example :
    Returns (λ g. (g.is_preload_complete ≡ true) × Stored g.images 0) (rounds 6 (preload_init idle))
preload_completes_example = preload_completes 1 0 idle idle-IsIdle (omega arith) (omega arith)
