-- ===== src/Gallery/Pager/Links.antt =====
-- Where the links of a pager lead.
use nswall.Common.{
  ℕ, zero, suc, ◌+◌, ◌-◌, ◌*◌, ◌/◌, ◌≤◌, ◌<◌, ◌≡◌, ◌≢◌, List, [], ◌∷◌, ◌++◌, arith, length, ◌==◌,
  ltb, if◌then◌else◌,
}
use nswall.Common.Int.{ℤ, pos, negsuc, ◌≤ℤ◌, ◌*ℤ◌, pos-*ℤ, ◌+ℤ◌, ◌-ℤ◌, int_laws}
use nswall.Common.Result.{ok, Returns, Returns-bind}
use nswall.Gallery.State.{Gallery, PagerItem, prev_page, current, page_index, next_page}
use nswall.Gallery.Layout.{core, IsLaidOut, hash_at_lem, page_start, page_of_start}
use nswall.Gallery.Pager.{
  hash_at, page_index_link, page_index_links, prev_page_link, next_page_link, build_pager,
}

abbrev pub All {ℓ} : {A : Type ℓ} → (A → Type 0) → List A → Type 0
All P [] = Unit {0}
All P (x ∷ xs) = P x × All P xs

All-append {ℓ} :
    {A : Type ℓ} (P : A → Type 0) (xs ys : List A) → All P xs → All P ys → All P (xs ++ ys)
All-append P [] ys hx hy = hy
All-append P (x ∷ xs) ys hx hy = (hx.0, All-append P xs ys hx.1 hy)

-- The link of `prevPage` on page `p`.
abbrev LeadsBack : Gallery → ℕ → ℕ → Type 0
LeadsBack g zero hash = ⊥
LeadsBack g (suc q) hash = hash ≡ g.offset + q * g.settings.num_thumbs

-- The link with the text `n` on page `p`.
abbrev LeadsTo : Gallery → ℕ → ℕ → ℤ → Type 0
LeadsTo g p hash (pos (suc q)) =
    (q < g.num_pages)
    × (q ≢ p)
    × (q ≤ p + 3)
    × (p ≤ q + 3)
    × (hash ≡ g.offset + q * g.settings.num_thumbs)
LeadsTo g p hash _ = ⊥

-- What an item of the pager of page `p` is: the mark of that page, or a link whose hash is that of
-- the first image of the page that it names, which is another one, at most three away.
abbrev pub Leads : Gallery → ℕ → PagerItem → Type 0
Leads g p (prev_page hash) = LeadsBack g p hash
Leads g p (current n) = n ≡ pos (suc p)
Leads g p (page_index hash n) = LeadsTo g p hash n
Leads g p (next_page hash) =
    (suc p < g.num_pages) × (hash ≡ g.offset + suc p * g.settings.num_thumbs)

module _ (g : Gallery) (p : ℕ) (v : IsLaidOut (core g)) (at_p : g.current_page ≡ pos p) where
  hash_of_page :
      (q : ℕ)
      → q < g.num_pages
      → hash_at g (pos q *ℤ pos g.settings.num_thumbs) ≡ ok (g.offset + q * g.settings.num_thumbs)
  hash_of_page q l =
      let l' : q < (length g.images + g.settings.num_thumbs - 1) / g.settings.num_thumbs =
        rw (← v.pages) l in
      rw (pos-*ℤ q g.settings.num_thumbs) (
        hash_at_lem g (q * g.settings.num_thumbs) v
          (page_start (length g.images) g.settings.num_thumbs q v.thumbs_pos l'))

  link_of_page :
      (q : ℕ)
      → page_index_link g (pos q) ≡ (
          if q == p
          then ok (current (pos (suc p)) ∷ [])
          else if ltb q g.num_pages
          then ok (page_index (g.offset + q * g.settings.num_thumbs) (pos (suc q)) ∷ [])
          else ok [])
  unfolding page_index_link ◌+ℤ◌
  link_of_page q = rw at_p (ground (arith, hash_of_page q))

  no_link : (i : ℕ) → page_index_link g (negsuc i) ≡ ok []
  unfolding page_index_link
  no_link i = rw at_p (ground arith)

  page_index_link-Leads :
      (i : ℤ)
      → pos p ≤ℤ i +ℤ pos 3
      → i ≤ℤ pos (p + 3)
      → Returns (All (Leads g p)) (page_index_link g i)
  unfolding ◌+ℤ◌
  page_index_link-Leads (negsuc i) a b = rw (no_link i) tt
  page_index_link-Leads (pos q) a b = ground (arith, link_of_page q)

  page_index_links-Leads :
      (rounds : ℕ) (i : ℤ)
      → pos p ≤ℤ i +ℤ pos 3
      → i +ℤ pos rounds ≤ℤ pos (p + 4)
      → Returns (All (Leads g p)) (page_index_links g rounds i)
  unfolding page_index_links
  page_index_links-Leads zero i a b = tt
  page_index_links-Leads (suc rounds) i a b =
      Returns-bind (All (Leads g p)) (All (Leads g p)) (page_index_link g i) _
        (page_index_link-Leads i a (omega int_laws))
        (λ link hl.
          Returns-bind (All (Leads g p)) (All (Leads g p)) (page_index_links g rounds (i +ℤ pos 1))
            _ (page_index_links-Leads rounds (i +ℤ pos 1) (omega int_laws) (omega int_laws))
            (λ rest hr. All-append (Leads g p) link rest hl hr))

  next_page_link-Leads : Returns (All (Leads g p)) (next_page_link g)
  unfolding next_page_link ◌+ℤ◌
  next_page_link-Leads =
      rw (at_p, pos-*ℤ p g.settings.num_thumbs)
        (ground (
          arith,
          hash_at_lem g (p * g.settings.num_thumbs + g.settings.num_thumbs) v,
          v.pages,
          v.thumbs_pos,
          page_of_start (length g.images) g.settings.num_thumbs (suc p),
        ))

prev_page_link-Leads :
    (g : Gallery) (p : ℕ)
    → IsLaidOut (core g)
    → g.current_page ≡ pos p
    → p < g.num_pages
    → Returns (All (Leads g p)) (prev_page_link g)
unfolding prev_page_link
prev_page_link-Leads g zero v at_p l = rw at_p (ground arith)
prev_page_link-Leads g (suc q) v at_p l =
    simp (at_p, back q g.settings.num_thumbs, hash_at_lem g (q * g.settings.num_thumbs) v start)
      (ground arith)
  where
    start : q * g.settings.num_thumbs < length g.images
    start =
        page_start (length g.images) g.settings.num_thumbs q v.thumbs_pos (omega (arith, v.pages))

    back : (q k : ℕ) → pos (suc q) *ℤ pos k -ℤ pos k ≡ pos (q * k)
    back q k = rw (pos-*ℤ (suc q) k) (omega int_laws)

-- On each page of a gallery that is laid out, making a pager does not throw, and every item of it
-- leads where `Leads` says.
pub build_pager-Leads :
    (g : Gallery) (p : ℕ)
    → IsLaidOut (core g)
    → g.current_page ≡ pos p
    → p < g.num_pages
    → Returns (All (Leads g p)) (build_pager g)
unfolding build_pager
build_pager-Leads g p v at_p l =
    Returns-bind P P (prev_page_link g) _ (prev_page_link-Leads g p v at_p l) λ prev h1.
      Returns-bind P P (page_index_links g 7 (g.current_page -ℤ pos 3)) _
        (page_index_links-Leads g p v at_p 7 (g.current_page -ℤ pos 3) low high)
        λ pages h2.
          Returns-bind P P (next_page_link g) _ (next_page_link-Leads g p v at_p) λ next h3.
            All-append (Leads g p) (prev ++ pages) next (All-append (Leads g p) prev pages h1 h2) h3
  where
    P : List PagerItem → Type 0
    P = All (Leads g p)

    low : pos p ≤ℤ g.current_page -ℤ pos 3 +ℤ pos 3
    low = rw at_p (omega int_laws)

    high : g.current_page -ℤ pos 3 +ℤ pos 7 ≤ℤ pos (p + 4)
    high = rw at_p (omega int_laws)
