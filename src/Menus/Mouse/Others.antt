-- ===== src/Menus/Mouse/Others.antt =====
-- What the events of one menu leave alone in another.
use nswall.Common.{
  ℕ, ◌≡◌, ◌∙◌, subst, true, false, not, ◌&&◌, ◌==◌, some, List, [], ◌∷◌, arith, if◌then◌else◌,
  get_elem?, Option-cases, Bool-cases, inl, inr,
}
use nswall.Menus.State.{Menu, Menus, update}
use nswall.Menus.Indices.{get_elem?-update_self, get_elem?-update_other}
use nswall.Menus.Step.{
  Event, entered, left, focused, blurred, timer_fires, step, over, out, close, show_path,
  forget_retain, hide_superfish_ul, is_within_hovered, is_empty, has_ul_at, items_around,
}
use nswall.Menus.Mouse.{menu_of}

-- The menu `u` is menu `m` of `w`, but for its flag.
pub record Alike (m : ℕ) (u : Menu) (w : Menus) : Type 0 where
  pub menu : Menu
  pub at : get_elem? w.menus m ≡ some menu
  pub entries : menu.entries ≡ u.entries
  pub path : menu.path ≡ u.path
  pub pending : menu.pending ≡ u.pending

-- Where the current options forget to retain the path, no menu changes but in its flag.
pub forget_lem :
    (m : ℕ) (u : Menu) (w : Menus)
    → Alike m u w
    → Alike m u (record w { menus = update w.op forget_retain w.menus })
forget_lem m u w v = elim (Bool-cases (m == w.op)) [
  | inl h ↦ record {
    menu = forget_retain v.menu;
    at =
        subst (λ o. get_elem? (update o forget_retain w.menus) m ≡ some (forget_retain v.menu))
          (ground (arith, h)) (get_elem?-update_self m forget_retain w.menus v.at);
    entries = v.entries;
    path = v.path;
    pending = v.pending;
  }
  | inr h ↦ record {
    menu = v.menu;
    at = get_elem?-update_other w.op m forget_retain w.menus h ∙ v.at;
    entries = v.entries;
    path = v.path;
    pending = v.pending;
  }
]

module _ (m k : ℕ) (u : Menu) (other : (m == k) ≡ false) where
  update_other :
      (w : Menus) (f : Menu → Menu) (op : ℕ)
      → Alike m u w
      → Alike m u (record { menus = update k f w.menus; op = op })
  update_other w f op v = record {
    menu = v.menu;
    at = get_elem?-update_other k m f w.menus other ∙ v.at;
    entries = v.entries;
    path = v.path;
    pending = v.pending;
  }

  hide-Alike : (ts : List ℕ) (w : Menus) → Alike m u w → Alike m u (hide_superfish_ul k ts w)
  unfolding hide_superfish_ul
  hide-Alike ts w v =
      update_other (record w { menus = update w.op forget_retain w.menus }) _ w.op
        (forget_lem m u w v)

  over-Alike : (items : List ℕ) (w : Menus) → Alike m u w → Alike m u (over k items w)
  unfolding over
  over-Alike items w v = elim (Option-cases (get_elem? w.menus k)) [
    | inl h ↦ rw (h, over) v
    | inr (x, h) ↦ rw (h, over) (hide-Alike _ _ (update_other w _ k v))
  ]

  out-Alike : (items : List ℕ) (w : Menus) → Alike m u w → Alike m u (out k items w)
  unfolding out
  out-Alike items w v = update_other w _ k v

  show_path-Alike : (items : List ℕ) (w : Menus) → Alike m u w → Alike m u (show_path k items w)
  unfolding show_path
  show_path-Alike items w v = elim (Option-cases (get_elem? w.menus k)) [
    | inl h ↦ rw (h, show_path) v
    | inr (x, h) ↦
        rw (h, show_path)
          (elim (not (is_empty x.path) && not (is_within_hovered x.entries items))
            as (λ b. Alike m u (if b then over k x.path w else w)) [
              | true ↦ over-Alike x.path w v
              | false ↦ v
            ])
  ]

  close-Alike : (items : List ℕ) (w : Menus) → Alike m u w → Alike m u (close k items w)
  unfolding close
  close-Alike items w v = show_path-Alike items _ (hide-Alike items _ (update_other w _ w.op v))

-- An event of another menu changes nothing of menu `m` but its flag.
pub step-Alike :
    (m : ℕ) (u : Menu) (ev : Event) (w : Menus)
    → (m == menu_of ev) ≡ false
    → Alike m u w
    → Alike m u (step ev w)
unfolding step
step-Alike m u (entered k i) w h v =
    elim (has_ul_at k i w) as (λ b. Alike m u (if b then over k (i ∷ []) w else w)) [
      | true ↦ over-Alike m k u h (i ∷ []) w v
      | false ↦ v
    ]
step-Alike m u (left k i) w h v =
    elim (has_ul_at k i w) as (λ b. Alike m u (if b then out k (i ∷ []) w else w)) [
      | true ↦ out-Alike m k u h (i ∷ []) w v
      | false ↦ v
    ]
step-Alike m u (focused k i) w h v = over-Alike m k u h (items_around k i w) w v
step-Alike m u (blurred k i) w h v = out-Alike m k u h (items_around k i w) w v
step-Alike m u (timer_fires k) w h v = elim (Option-cases (get_elem? w.menus k)) [
  | inl e ↦ rw (e, step) v
  | inr (x, e) ↦ elim (Option-cases x.pending) [
    | inl q ↦ rw (e, step) (rw q v)
    | inr (items, q) ↦ rw (e, step) (rw q (close-Alike m k u h items w v))
  ]
]
