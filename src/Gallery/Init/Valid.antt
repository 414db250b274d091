-- ===== src/Gallery/Init/Valid.antt =====
-- A gallery that the plugin sets up goes to one image, and requests it.
use nswall.Common.{
  ℕ, zero, suc, ◌+◌, ◌-◌, ◌/◌, ◌<◌, some, some_inj, false, get_elem?, if◌then◌else◌, ◌≡◌, refl, ap,
  sym, ◌∙◌, subst, List, [], ◌∷◌, ◌++◌, arith, length, set, length-map, set-append_last,
}
use nswall.Common.Int.{ℤ, pos, negsuc}
use nswall.Common.Result.{Returns, Returns-bind}
use nswall.Gallery.State.{Settings, Gallery, ImageData, refresh_load}
use nswall.Gallery.Index.{clamp, page_of, at_index}
use nswall.Gallery.Layout.{Core, core, HashesFrom, IsLaidOut}
use nswall.Gallery.Display.{goto}
use nswall.Gallery.Display.Synced.{IsSynced, IsAt}
use nswall.Gallery.Display.Goto.{Shows, IsPresented, goto-Shows}
use nswall.Gallery.Display.Transition.{Stays}
use nswall.Gallery.Registry.{Registry, register_gallery}
use nswall.Gallery.Init.{
  Item, initialize_thumbs, new_gallery, goto_index, start_timers, galleriffic,
}

initialize_thumbs-HashesFrom :
    (o : ℕ) (items : List Item) → HashesFrom o (initialize_thumbs o items)
unfolding initialize_thumbs
initialize_thumbs-HashesFrom o [] = tt
initialize_thumbs-HashesFrom o (x ∷ items) = (refl, initialize_thumbs-HashesFrom (suc o) items)

pub length-initialize_thumbs :
    (o : ℕ) (items : List Item) → length (initialize_thumbs o items) ≡ length items
unfolding initialize_thumbs
length-initialize_thumbs o [] = refl
length-initialize_thumbs o (x ∷ items) = ap suc (length-initialize_thumbs (suc o) items)

new_gallery-IsLaidOut :
    (s : Settings) (o : ℕ) (items : List Item)
    → 0 < s.num_thumbs
    → IsLaidOut (core (new_gallery s o items))
unfolding new_gallery
new_gallery-IsLaidOut s o items h = record {
  thumbs_pos = h;
  hashes = initialize_thumbs-HashesFrom o items;
  pages =
      ap (λ (n : ℕ). (n + s.num_thumbs - 1) / s.num_thumbs)
        (sym (length-initialize_thumbs o items));
  thumbs_length =
      length-map items (λ (item : Item). item.thumb) ∙ sym (length-initialize_thumbs o items);
}

-- The page -1 is that of no index to which `goto` goes.
page_of-clamp : (k n : ℕ) (index : ℤ) → 0 < n → negsuc 0 ≡ page_of k (clamp n index) → ⊥
unfolding page_of clamp
page_of-clamp k n index h e = ground arith

start_timers-SameCore : (g : Gallery) → core (start_timers g) ≡ core g
unfolding start_timers
start_timers-SameCore g = ground arith

start_timers-Stays : (g : Gallery) → Stays g (start_timers g)
unfolding start_timers
start_timers-Stays g = ground arith

-- No image is stored yet.
not_stored :
    (o i : ℕ) (items : List Item) {d : ImageData}
    → get_elem? (initialize_thumbs o items) i ≡ some d
    → d.image ≡ false
unfolding initialize_thumbs
not_stored o i [] e = cc
not_stored o zero (x ∷ items) e = sym (ap (λ (d : ImageData). d.image) (some_inj e))
not_stored o (suc i) (x ∷ items) e = not_stored (suc o) i items e

not_stored_at :
    (s : Settings) (o : ℕ) (items : List Item) (index : ℤ) (d : ImageData)
    → at_index (new_gallery s o items).images index ≡ some d
    → d.image ≡ false
unfolding new_gallery at_index
not_stored_at s o items (pos i) d e = not_stored o i items e
not_stored_at s o items (negsuc i) d e = cc

-- The registry `r'` is `r` with one more gallery, which starts at the global offset of `r`, has the
-- data of `items`, and is at the image `index`, with its page and thumbnails; that image is requested, by
-- the first transition, which only a delegate for it holds up.
pub record IsSetUp (r : Registry) (s : Settings) (items : List Item) (index : ℤ) (r' : Registry)
    : Type 0 where
  pub gallery : Gallery
  pub registered : r' ≡ register_gallery r gallery
  pub showing : IsSynced (core gallery)
  pub at : IsAt (core (new_gallery s r.gallery_offset items)) index (core gallery)
  pub requested : gallery.loads ≡ refresh_load index 0 ∷ []
  pub transition : gallery.transitioning ≡ s.on_transition_out ∷ []

abbrev pub start_index : Registry → Settings → List Item → ℤ → ℤ
start_index r s items hash =
    let g = new_gallery s r.gallery_offset items in
    clamp (length items) (goto_index (register_gallery r g) (length r.galleries) g.offset hash)

module _ (r : Registry) (s : Settings) (items : List Item) (hash : ℤ)
    (thumbs_pos : 0 < s.num_thumbs) (nonempty : 0 < length items) where
  abbrev new : Gallery
  new = new_gallery s r.gallery_offset items

  abbrev target : ℤ
  target = goto_index (register_gallery r new) (length r.galleries) new.offset hash

  length-new : length new.images ≡ length items
  unfolding new_gallery
  length-new = length-initialize_thumbs r.gallery_offset items

  goto-new : Returns (Shows new (clamp (length new.images) target)) (goto new target)
  unfolding new_gallery
  goto-new =
      goto-Shows new target (new_gallery-IsLaidOut s r.gallery_offset items thumbs_pos) some_image
        (λ z at. absurd (page_of-clamp s.num_thumbs (length new.images) target some_image at))
    where
      some_image : 0 < length new.images
      some_image = omega (arith, length-new)

  set_up :
      (g1 : Gallery)
      → Shows new (clamp (length new.images) target) g1
      → IsSetUp r s items (start_index r s items hash) (record (register_gallery r new) {
        galleries = set (r.galleries ++ new ∷ []) (length r.galleries) (start_timers g1);
      })
  unfolding register_gallery new_gallery
  set_up g1 v = record {
    gallery = start_timers g1;
    registered = λ i. record {
      galleries = set-append_last r.galleries new (start_timers g1) i;
      gallery_offset = r.gallery_offset + length (images_same i);
    };
    showing = subst IsSynced (sym (start_timers-SameCore g1)) v.0;
    at =
        subst (IsAt (core new) (start_index r s items hash)) (sym (start_timers-SameCore g1))
          (subst (λ n. IsAt (core new) (clamp n target) (core g1)) length-new v.1);
    requested =
        (start_timers-Stays g1).0
        ∙ subst (λ n. g1.loads ≡ refresh_load (clamp n target) 0 ∷ []) length-new asked;
    transition = (start_timers-Stays g1).1 ∙ presented.2.0;
  }
    where
      presented : IsPresented new (clamp (length new.images) target) g1
      presented = v.2

      asked : g1.loads ≡ refresh_load (clamp (length new.images) target) 0 ∷ []
      asked =
          let (d, e, p) = presented in
          p.1
          ∙ ap (λ b. if b then [] else refresh_load (clamp (length new.images) target) 0 ∷ [])
              (not_stored_at s r.gallery_offset items (clamp (length new.images) target) d e)

      images_same : new.images ≡ (start_timers g1).images
      images_same = sym (ap (λ (c : Core). c.images) (start_timers-SameCore g1) ∙ v.1.same_images)

  pub galleriffic-SetUp :
      Returns (IsSetUp r s items (start_index r s items hash)) (galleriffic r s items hash)
  unfolding galleriffic register_gallery
  galleriffic-SetUp =
      Returns-bind (Shows new (clamp (length new.images) target))
        (IsSetUp r s items (start_index r s items hash)) (goto new target) _ goto-new set_up
