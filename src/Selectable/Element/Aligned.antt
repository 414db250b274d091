-- ===== src/Selectable/Element/Aligned.antt =====
-- The data of an element agree with its passing classes, through each step of the handlers.
use nswall.Common.{
  ◌≡◌, refl, sym, ap, subst, ◌∙◌, Bool, true, false, not, ◌&&◌, ◌||◌, none, some, if◌then◌else◌,
}
use nswall.Common.Result.{Returns}
use nswall.Selectable.State.{Tolerance, Box, Item, Selectee, on_unselecting}
use nswall.Selectable.Element.{
  refresh_one, start_one, press_one, drag_one, hit, drag_item, leave_selected, leave_unselecting,
  become_selecting, leave_selecting, drop_selected, stop_unselecting, stop_selecting, with, call,
  on_item,
}

-- The data of an element agree with its passing classes.
abbrev Agrees : Selectee → Item → Type 0
Agrees s x = (x.selecting ≡ s.ui_selecting) × (x.unselecting ≡ s.ui_unselecting)

abbrev pub IsAligned : Selectee → Type 0
IsAligned s = (x : Item) × (s.item ≡ some x) × Agrees s x

-- Before the press: no element is being selected.
abbrev pub IsReady : Selectee → Type 0
IsReady s = (x : Item) × (s.item ≡ some x) × Agrees s x × (s.ui_selecting ≡ false)

-- After the first loop of the release.
abbrev pub IsHalf : Selectee → Type 0
IsHalf s = (x : Item) × (s.item ≡ some x) × Agrees s x × (s.ui_unselecting ≡ false)

-- The element has data, and neither these nor its classes say that a gesture is under way.
abbrev pub IsSettled : Selectee → Type 0
IsSettled s =
    (x : Item) × (s.item ≡ some x)
    × Agrees s x
    × (s.ui_selecting ≡ false)
    × (s.ui_unselecting ≡ false)

-- A proof on an element that has data may take these from the element.
on_data : (P : Selectee → Type 0) (s : Selectee) (x : Item) → s.item ≡ some x → P (with s x) → P s
on_data P s x e h = subst (λ o. P (record s { item = o })) (sym e) h

pub refresh-IsSettled : (s : Selectee) → IsSettled s → IsSettled (refresh_one s)
unfolding refresh_one
refresh-IsSettled s (x, e, a, b, c) = (
  record {
    box = s.shown;
    startselected = false;
    selected = s.ui_selected;
    selecting = s.ui_selecting;
    unselecting = s.ui_unselecting;
  },
  refl,
  (refl, refl),
  b,
  c,
)

start_with :
    (meta : Bool) (s : Selectee) (x : Item)
    → Agrees s x
    → s.ui_selecting ≡ false
    → (u : Bool) → s.ui_selected ≡ u
    → Returns IsReady (start_one meta (with s x))
unfolding start_one
start_with meta s x (a, b) c false u = rw (u, start_one) (x, refl, (a, b), c)
start_with true s x (a, b) c true u =
    rw (u, start_one) (record x { startselected = true }, refl, (a, b), c)
start_with false s x (a, b) c true u =
    rw (u, start_one)
      (record x { startselected = true; selected = false; unselecting = true }, refl, (a, refl), c)

pub start-IsReady : (meta : Bool) (s : Selectee) → IsSettled s → Returns IsReady (start_one meta s)
start-IsReady meta s (x, e, a, b, c) =
    on_data (λ y. Returns IsReady (start_one meta y)) s x e
      (start_with meta s x a b s.ui_selected refl)

pub press_one-IsAligned :
    (meta : Bool) (s : Selectee) (x : Item)
    → Agrees s x
    → s.ui_selecting ≡ false
    → IsAligned (press_one meta s x)
unfolding press_one
press_one-IsAligned meta s x a c = on (not meta || not s.ui_selected) refl
  where
    on : (b : Bool) → (not meta || not s.ui_selected) ≡ b → IsAligned (press_one meta s x)
    on true h =
        rw (h, press_one)
          (record x { unselecting = false; selecting = true; selected = true }, refl, (refl, refl))
    on false h =
        rw (h, press_one)
          (
            record x { unselecting = true; selecting = false; selected = false },
            refl,
            (sym c, refl),
          )

if-IsAligned :
    (b : Bool) (y z : Selectee)
    → (b ≡ true → IsAligned y)
    → (b ≡ false → IsAligned z)
    → IsAligned (if b then y else z)
if-IsAligned true y z h k = h refl
if-IsAligned false y z h k = k refl

-- Each step of a drag keeps the data in agreement with the classes.
abbrev Keeps : (Selectee → Item → Selectee) → Type 0
Keeps f = (s : Selectee) (x : Item) → Agrees s x → IsAligned (f s x)

leave_selected-Keeps : Keeps leave_selected
unfolding leave_selected
leave_selected-Keeps s x a =
    if-IsAligned x.selected _ _ (λ h. (record x { selected = false }, refl, a)) λ h. (x, refl, a)

leave_unselecting-Keeps : Keeps leave_unselecting
unfolding leave_unselecting
leave_unselecting-Keeps s x a =
    if-IsAligned x.unselecting _ _ (λ h. (record x { unselecting = false }, refl, (a.0, refl)))
      λ h. (x, refl, a)

become_selecting-Keeps : Keeps become_selecting
unfolding become_selecting
become_selecting-Keeps s x a =
    if-IsAligned (not x.selecting) _ _ (λ h. (record x { selecting = true }, refl, (refl, a.1)))
      λ h. (x, refl, a)

leave_selecting-Keeps : (meta : Bool) → Keeps (leave_selecting meta)
unfolding leave_selecting
leave_selecting-Keeps meta s x a =
    let given_up =
      if x.startselected
      then with (record s { ui_selecting = false; ui_unselecting = true })
          (record x { selecting = false; unselecting = true })
      else with (record s { ui_selecting = false }) (record x { selecting = false }) in
    let aligned : IsAligned given_up =
      if-IsAligned x.startselected _ _
        (λ l. (record x { selecting = false; unselecting = true }, refl, (refl, refl)))
        (λ l. (record x { selecting = false }, refl, (refl, a.1))) in
    if-IsAligned x.selecting _ _
      (λ h.
        if-IsAligned (meta && x.startselected) _ (call on_unselecting given_up)
          (λ k. (record x { selecting = false; selected = true }, refl, (refl, a.1)))
          (λ k. aligned))
      λ h. (x, refl, a)

drop_selected-Keeps : (meta : Bool) → Keeps (drop_selected meta)
unfolding drop_selected
drop_selected-Keeps meta s x a =
    if-IsAligned (x.selected && (not meta && not x.startselected)) _ _
      (λ h. (record x { selected = false; unselecting = true }, refl, (a.0, refl)))
      λ h. (x, refl, a)

on_item-IsAligned :
    (f : Selectee → Item → Selectee) (s : Selectee)
    → Keeps f
    → IsAligned s
    → IsAligned (on_item f s)
on_item-IsAligned f s k (x, e, a) =
    subst IsAligned (sym (ap (λ o. elim o [ none ↦ s | some y ↦ f s y ]) e)) (k s x a)

drag_item-Keeps : (meta is_hit : Bool) → Keeps (drag_item meta is_hit)
unfolding drag_item
drag_item-Keeps meta true s x a =
    on_item-IsAligned become_selecting (on_item leave_unselecting (leave_selected s x))
      become_selecting-Keeps
      (on_item-IsAligned leave_unselecting (leave_selected s x) leave_unselecting-Keeps
        (leave_selected-Keeps s x a))
drag_item-Keeps meta false s x a =
    on_item-IsAligned (drop_selected meta) (leave_selecting meta s x) (drop_selected-Keeps meta)
      (leave_selecting-Keeps meta s x a)

pub drag_one-IsAligned :
    (t : Tolerance) (meta : Bool) (b : Box) (s : Selectee)
    → IsAligned s
    → IsAligned (drag_one t meta b s)
unfolding drag_one
drag_one-IsAligned t meta b s (x, e, a) =
    subst IsAligned
      (sym (
        ap
          (λ o. elim o [
            | none ↦ s
            | some y ↦ if s.is_widget then s else drag_item meta (hit t y.box b) s y
          ])
          e))
      (if-IsAligned s.is_widget s (drag_item meta (hit t x.box b) s x) (λ h. (x, e, a))
        λ h. drag_item-Keeps meta (hit t x.box b) s x a)

unselect_with :
    (s : Selectee) (x : Item)
    → Agrees s x
    → (u : Bool) → s.ui_unselecting ≡ u
    → Returns IsHalf (stop_unselecting (with s x))
unfolding stop_unselecting
unselect_with s x a false u = rw (u, stop_unselecting) (x, refl, (a.0, a.1 ∙ u), refl)
unselect_with s x a true u =
    rw (u, stop_unselecting)
      (record x { unselecting = false; startselected = false }, refl, (a.0, refl), refl)

pub stop_unselecting-IsHalf : (s : Selectee) → IsAligned s → Returns IsHalf (stop_unselecting s)
stop_unselecting-IsHalf s (x, e, a) =
    on_data (λ y. Returns IsHalf (stop_unselecting y)) s x e
      (unselect_with s x a s.ui_unselecting refl)

select_with :
    (s : Selectee) (x : Item)
    → Agrees s x
    → s.ui_unselecting ≡ false
    → (u : Bool) → s.ui_selecting ≡ u
    → Returns IsSettled (stop_selecting (with s x))
unfolding stop_selecting
select_with s x a c false u = rw (u, stop_selecting) (x, refl, (a.0 ∙ u, a.1), refl, c)
select_with s x a c true u =
    rw (u, stop_selecting)
      (
        record x { selecting = false; selected = true; startselected = true },
        refl,
        (refl, a.1),
        refl,
        c,
      )

pub stop_selecting-IsSettled : (s : Selectee) → IsHalf s → Returns IsSettled (stop_selecting s)
stop_selecting-IsSettled s (x, e, a, c) =
    on_data (λ y. Returns IsSettled (stop_selecting y)) s x e
      (select_with s x a c s.ui_selecting refl)

pub settled-IsAligned : (s : Selectee) → IsSettled s → IsAligned s
settled-IsAligned s (x, e, a, b, c) = (x, e, a)
