-- ===== src/Menus/Step/Agrees.antt =====
-- What is displayed agrees with the hover class.
use nswall.Common.{
  ℕ, zero, suc, ◌≡◌, ◌&&◌, none, some, List, [], ◌∷◌, arith, get_elem?, Option-cases, inl, inr,
}
use nswall.Common.Every.{Every, Every-get_elem?}
use nswall.Menus.State.{Entry, Menu, Menus, update, each_at, indices_from}
use nswall.Menus.Create.{hide_one}
use nswall.Menus.Step.{
  show_one, is_sibling, kept_path, forget_retain, hide_superfish_ul, over, out, is_first_of,
  show_path, close, Event, entered, left, focused, blurred, timer_fires, items_around, step,
}

module _ {ℓ} {A : Type ℓ} (P : A → Type 0) where
  Every-update :
      (i : ℕ) (f : A → A) (xs : List A)
      → ((x : A) → P x → P (f x))
      → Every P xs
      → Every P (update i f xs)
  Every-update i f [] h v = tt
  Every-update zero f (x ∷ xs) h v = (h x v.0, v.1)
  Every-update (suc i) f (x ∷ xs) h v = (v.0, Every-update i f xs h v.1)

  Every-each_at :
      (f : ℕ → A → A) (k : ℕ) (xs : List A)
      → ((i : ℕ) (x : A) → P x → P (f i x))
      → Every P xs
      → Every P (each_at f k xs)
  Every-each_at f k [] h v = tt
  Every-each_at f k (x ∷ xs) h v = (h k x v.0, Every-each_at f (suc k) xs h v.1)

-- The `ul` of an item is displayed exactly if the item has one and the hover class.
abbrev pub Agrees : Entry → Type 0
Agrees e = e.shown ≡ (e.hover && e.has_ul)

abbrev pub MenuAgrees : Menu → Type 0
MenuAgrees u = Every Agrees u.entries

abbrev pub AllAgree : Menus → Type 0
AllAgree w = Every MenuAgrees w.menus

show_one-Agrees : (items : List ℕ) (i : ℕ) (e : Entry) → Agrees e → Agrees (show_one items i e)
unfolding show_one
show_one-Agrees items i e h = ground (arith, h)

hide_one-Agrees : (ts ks : List ℕ) (i : ℕ) (e : Entry) → Agrees e → Agrees (hide_one ts ks i e)
unfolding hide_one
hide_one-Agrees ts ks i e h = ground (arith, h)

hide-AllAgree : (m : ℕ) (ts : List ℕ) (w : Menus) → AllAgree w → AllAgree (hide_superfish_ul m ts w)
unfolding hide_superfish_ul
hide-AllAgree m ts w v =
    Every-update MenuAgrees m
      (λ u. record u { entries = each_at (hide_one ts (kept_path m w)) 0 u.entries })
      (update w.op forget_retain w.menus)
      (λ u p.
        Every-each_at Agrees (hide_one ts (kept_path m w)) 0 u.entries
          (hide_one-Agrees ts (kept_path m w)) p)
      (Every-update MenuAgrees w.op forget_retain w.menus (λ u p. p) v)

over-AllAgree : (m : ℕ) (items : List ℕ) (w : Menus) → AllAgree w → AllAgree (over m items w)
unfolding over
over-AllAgree m items w v = elim (Option-cases (get_elem? w.menus m)) [
  | inl r ↦ rw (r, over) v
  | inr (u, r) ↦
      let es = each_at (show_one items) 0 u.entries in
      rw (r, over)
        (hide-AllAgree m (indices_from (is_sibling u.entries items) 0 u.entries)
          (record w {
            op = m;
            menus = update m (λ u. record u { pending = none; entries = es }) w.menus;
          })
          (Every-update MenuAgrees m (λ u. record u { pending = none; entries = es }) w.menus
            (λ x p.
              Every-each_at Agrees (show_one items) 0 u.entries (show_one-Agrees items)
                (Every-get_elem? MenuAgrees w.menus m u v r))
            v))
]

out-AllAgree : (m : ℕ) (items : List ℕ) (w : Menus) → AllAgree w → AllAgree (out m items w)
unfolding out
out-AllAgree m items w v =
    Every-update MenuAgrees m (λ u. record u { pending = some items }) w.menus (λ u p. p) v

show_path-AllAgree :
    (m : ℕ) (items : List ℕ) (w : Menus) → AllAgree w → AllAgree (show_path m items w)
unfolding show_path
show_path-AllAgree m items w v = elim (Option-cases (get_elem? w.menus m)) [
  | inl r ↦ rw (r, show_path) v
  | inr (u, r) ↦ rw (r, show_path) (ground (arith, v, over-AllAgree m u.path w v))
]

close-AllAgree : (m : ℕ) (items : List ℕ) (w : Menus) → AllAgree w → AllAgree (close m items w)
unfolding close
close-AllAgree m items w v =
    let change : Menu → Menu =
      λ u. record u { pending = none; retain_path = is_first_of items u.path } in
    let w1 = record w { menus = update m change w.menus } in
    show_path-AllAgree m items (hide_superfish_ul m items w1)
      (hide-AllAgree m items w1 (Every-update MenuAgrees m change w.menus (λ u p. p) v))

-- If in every menu the lists on display are those of the items with the hover class, they are so
-- after any event of the mouse, the focus or a timer.
pub step-AllAgree : (ev : Event) (w : Menus) → AllAgree w → AllAgree (step ev w)
unfolding step
step-AllAgree (entered m i) w v = ground (arith, v, over-AllAgree m (i ∷ []) w v)
step-AllAgree (left m i) w v = ground (arith, v, out-AllAgree m (i ∷ []) w v)
step-AllAgree (focused m i) w v = over-AllAgree m (items_around m i w) w v
step-AllAgree (blurred m i) w v = out-AllAgree m (items_around m i w) w v
step-AllAgree (timer_fires m) w v = elim (Option-cases (get_elem? w.menus m)) [
  | inl r ↦ rw (r, step) v
  | inr (u, r) ↦ elim (Option-cases u.pending) [
    | inl q ↦ rw (r, step) (rw q v)
    | inr (items, q) ↦ rw (r, step) (rw q (close-AllAgree m items w v))
  ]
]
