-- ===== src/Gallery/Layout.antt =====
-- What holds of a gallery once it is set up, and is not changed afterwards.
use nswall.Common.{
  ℕ, zero, suc, ◌+◌, ◌-◌, ◌*◌, ◌/◌, ◌<◌, ◌≡◌, ap, some, List, [], ◌∷◌, arith, length, get_elem?,
  some_inj, get_elem?_of_lt,
}
use nswall.Common.Int.{ℤ, pos, negsuc, pos_part}
use nswall.Common.Result.{ok}
use nswall.Gallery.State.{Settings, Gallery, ImageData, Thumb}
use nswall.Gallery.Index.{at_index, InRange}
use nswall.Gallery.Pager.{hash_at}

-- The hashes count on from the offset of the gallery.
abbrev pub HashesFrom : ℕ → List ImageData → Type 0
HashesFrom o [] = Unit {0}
HashesFrom o (d ∷ ds) = (d.hash ≡ o) × HashesFrom (suc o) ds

-- The part of a gallery that its laws speak of.
pub record Core : Type 0 where
  pub settings : Settings
  pub offset : ℕ
  pub images : List ImageData
  pub num_pages : ℕ
  pub current_page : ℤ
  pub current_index : ℤ
  pub thumbs : List Thumb

abbrev pub core : Gallery → Core
core g = record {
  settings = g.settings;
  offset = g.offset;
  images = g.images;
  num_pages = g.num_pages;
  current_page = g.current_page;
  current_index = g.current_index;
  thumbs = g.view.thumbs;
}

pub record IsLaidOut (c : Core) : Type 0 where
  pub thumbs_pos : 0 < c.settings.num_thumbs
  pub hashes : HashesFrom c.offset c.images
  pub pages : c.num_pages ≡ (length c.images + c.settings.num_thumbs - 1) / c.settings.num_thumbs
  pub thumbs_length : length c.thumbs ≡ length c.images

hash-HashesFrom :
    (o i : ℕ) (ds : List ImageData) {d : ImageData}
    → HashesFrom o ds
    → get_elem? ds i ≡ some d
    → d.hash ≡ o + i
hash-HashesFrom o i [] v h = cc
hash-HashesFrom o zero (e ∷ ds) {d} v h =
    omega (arith, v.0, ap (λ (x : ImageData). x.hash) (some_inj h))
hash-HashesFrom o (suc i) (d ∷ ds) v h = omega (arith, hash-HashesFrom (suc o) i ds v.1 h)

-- A page has a first image exactly if it is one of the `numPages` pages.
pub page_start : (n k q : ℕ) → 0 < k → q < (n + k - 1) / k → q * k < n
page_start n k q h l = grind arith

pub page_of_start : (n k q : ℕ) → 0 < k → q * k < n → q < (n + k - 1) / k
page_of_start n k q h l = grind arith

-- `data[i].hash` is the offset and `i`, and reading it does not throw.
pub hash_at_lem :
    (g : Gallery) (i : ℕ)
    → IsLaidOut (core g)
    → i < length g.images
    → hash_at g (pos i) ≡ ok (g.offset + i)
unfolding hash_at at_index
hash_at_lem g i v l =
    let (d, e) = get_elem?_of_lt g.images i l in
    rw e (ap ok (hash-HashesFrom g.offset i g.images v.hashes e))

pub hash_at_of_InRange :
    (g : Gallery) (index : ℤ)
    → IsLaidOut (core g)
    → InRange (length g.images) index
    → hash_at g index ≡ ok (g.offset + pos_part index)
hash_at_of_InRange g (pos i) v r = hash_at_lem g i v r.below
hash_at_of_InRange g (negsuc i) v r = absurd (omega (arith, r.nonneg))
