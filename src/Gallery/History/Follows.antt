-- ===== src/Gallery/History/Follows.antt =====
-- The history moves the galleries: a new address makes the gallery that it belongs to go to its image.
use nswall.Common.{
  ℕ, ◌+◌, ◌-◌, ◌≤◌, ◌<◌, ◌≡◌, refl, ap, sym, ◌∙◌, subst, false, Option, some, [], ◌∷◌, arith,
  length, get_elem?, set, ◌==◌,
}
use nswall.Common.Int.{ℤ, pos}
use nswall.Common.Result.{ok, Returns, Returns-bind, ◌>>=◌}
use nswall.Gallery.State.{Gallery}
use nswall.Gallery.Index.{InRange}
use nswall.Gallery.Index.Laws.{clamp_of_InRange}
use nswall.Gallery.Layout.{core}
use nswall.Gallery.Display.{goto}
use nswall.Gallery.Display.Synced.{IsSynced}
use nswall.Gallery.Display.Goto.{Shows}
use nswall.Gallery.Slideshow.Advances.{goto-IsSynced}
use nswall.Gallery.Registry.{Registry}
use nswall.Gallery.Registry.Laws.{IsPartitioned, get_gallery_of_range}
use nswall.Common.Texts.{Text, text_eq}
use nswall.Gallery.History.{
  after_hash, after_hash_from, Site, check, get_hash_from_string, history_callback, history_check,
}

-- The text has no `#`.
abbrev pub HasNoHash : Text → Type 0
HasNoHash [] = Unit {0}
HasNoHash (c ∷ s) = ((c == b'#') ≡ false) × HasNoHash s

after_hash_from_plain : (acc s : Text) → HasNoHash s → after_hash_from acc s ≡ acc
unfolding after_hash_from
after_hash_from_plain acc [] h = refl
after_hash_from_plain acc (c ∷ s) (a, b) = rw a (after_hash_from_plain acc s b)

-- What follows the `#` of an address.
after_hash_of_address : (s : Text) → HasNoHash s → after_hash (b'#' ∷ s) ≡ s
unfolding after_hash after_hash_from
after_hash_of_address s h = after_hash_from_plain s s h

module _ (to_number : Text → Option ℤ) (r : Registry) (v : IsPartitioned r) where
  -- The site's registry with the gallery at `j` gone to the image of the hash `h`.
  pub record IsFollowed (j : ℕ) (g : Gallery) (h : ℕ) (r' : Registry) : Type 0 where
    pub gallery : Gallery
    pub replaced : r' ≡ record r { galleries = set r.galleries j gallery }
    pub shows : Shows g (pos (h - g.offset)) gallery

  pub history_callback-IsFollowed :
      (t : Text) (j h : ℕ) (g : Gallery)
      → get_hash_from_string to_number t ≡ pos h
      → get_elem? r.galleries j ≡ some g
      → g.offset ≤ h
      → h < g.offset + length g.images
      → IsSynced (core g)
      → Returns (IsFollowed j g h) (history_callback to_number r t)
  unfolding history_callback
  history_callback-IsFollowed t j h g e at_j low high shows =
      let (found, at_h) = get_gallery_of_range r j h g v at_j low high in
      let step : history_callback to_number r t ≡ (do
        g1 ← goto g (pos (h - g.offset))
        ok (record r { galleries = set r.galleries j g1 })) =
        ground (arith, e, found, at_j, at_h) in
      subst (Returns (IsFollowed j g h)) (sym step) (
        Returns-bind (Shows g (pos (h - g.offset))) (IsFollowed j g h) (goto g (pos (h - g.offset)))
          _ shown λ g1 s. record { gallery = g1; replaced = refl; shows = s })
    where
      in_range : InRange (length g.images) (pos (h - g.offset))
      in_range = record { nonneg = refl; below = omega arith }

      shown : Returns (Shows g (pos (h - g.offset))) (goto g (pos (h - g.offset)))
      shown =
          subst (λ i. Returns (Shows g i) (goto g (pos (h - g.offset))))
            (clamp_of_InRange (length g.images) (pos (h - g.offset)) in_range)
            (goto-IsSynced g (pos (h - g.offset)) shows)

hash_of_address :
    (to_number : Text → Option ℤ) (t : Text) (h : ℕ)
    → HasNoHash t
    → to_number t ≡ some (pos h)
    → get_hash_from_string to_number (b'#' ∷ t) ≡ pos h
unfolding get_hash_from_string
hash_of_address to_number t h plain number = ground (arith, after_hash_of_address t plain)

-- What a check leaves: the address is the one that the history knows, and the gallery at `j` has
-- gone to the image of the hash `h`.
pub record IsChecked (to_number : Text → Option ℤ) (s : Site) (v : IsPartitioned s.registry) (j : ℕ)
    (g : Gallery) (h : ℕ) (s' : Site) : Type 0 where
  pub followed : IsFollowed to_number s.registry v j g h s'.registry
  pub known : s'.history.current_hash ≡ s.history.location_hash

-- Where the ranges of the galleries are consecutive, a check in a browser that tells its address,
-- which is `#t` and is not the one that the history knows, does not throw. If `t`, which has no
-- `#`, is the number of a hash in the range of a gallery whose page and thumbnails are those of its
-- current image (`IsSynced`), the image of the hash becomes the current one of that gallery, with
-- its page and thumbnails in the same sense; if it is stored, it is put on display in the container
-- for it, unless a delegate takes the transition, and if it is not, it is requested. No other
-- gallery changes, and the history knows the address.
pub history_check-IsChecked :
    (to_number : Text → Option ℤ) (s : Site) (v : IsPartitioned s.registry) (t : Text) (j h : ℕ)
    (g : Gallery)
    → s.history.safari ≡ false
    → s.history.location_hash ≡ b'#' ∷ t
    → text_eq s.history.location_hash s.history.current_hash ≡ false
    → HasNoHash t
    → to_number t ≡ some (pos h)
    → get_elem? s.registry.galleries j ≡ some g
    → g.offset ≤ h
    → h < g.offset + length g.images
    → IsSynced (core g)
    → Returns (IsChecked to_number s v j g h) (history_check to_number s)
unfolding history_check check
history_check-IsChecked to_number s v t j h g z e new plain number at_j low high shows =
    subst (Returns (IsChecked to_number s v j g h)) (sym called) (
      Returns-bind (IsFollowed to_number s.registry v j g h) (IsChecked to_number s v j g h)
        (history_callback to_number s.registry s.history.location_hash) _
        (history_callback-IsFollowed to_number s.registry v s.history.location_hash j h g
          (ap (get_hash_from_string to_number) e ∙ hash_of_address to_number t h plain number) at_j
          low high shows)
        λ r f. record { followed = f; known = refl })
  where
    called : history_check to_number s ≡ (do
      r ← history_callback to_number s.registry s.history.location_hash
      ok (record {
        registry = r;
        history = record (s.history) { current_hash = s.history.location_hash };
      }))
    called = ground arith
