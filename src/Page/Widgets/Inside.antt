-- ===== src/Page/Widgets/Inside.antt =====
-- The elements that the mouse has come over and has not left since, by the events alone.
use nswall.Common.{
  ℕ, ◌≡◌, refl, ap, ◌∙◌, Bool, true, false, not, ◌&&◌, ◌||◌, ◌==◌, ==_iff, List, [], ◌∷◌,
  if◌then◌else◌, arith, Bool-cases, inl, inr,
}
use nswall.Menus.State.{contains}
use nswall.Page.Widgets.{
  HoverTarget, navigation_item, state_widget, portlet_header, drop_item, WidgetEvent, mouse_over,
  mouse_out, menu_timer,
}

abbrev pub same : HoverTarget → HoverTarget → Bool
same (navigation_item i) (navigation_item j) = i == j
same (state_widget i) (state_widget j) = i == j
same (portlet_header i) (portlet_header j) = i == j
same (drop_item i) (drop_item j) = i == j
same _ _ = false

abbrev pub has : HoverTarget → List HoverTarget → Bool
has t [] = false
has t (u ∷ us) = same t u || has t us

abbrev pub without : HoverTarget → List HoverTarget → List HoverTarget
without t [] = []
without t (u ∷ us) = let rest = without t us in if same u t then rest else u ∷ rest

abbrev pub inside_after : WidgetEvent → List HoverTarget → List HoverTarget
inside_after (mouse_over t) ts = t ∷ ts
inside_after (mouse_out t) ts = without t ts
inside_after menu_timer ts = ts

-- The first event comes first.
abbrev pub inside_from : List HoverTarget → List WidgetEvent → List HoverTarget
inside_from ts [] = ts
inside_from ts (ev ∷ evs) = inside_from (inside_after ev ts) evs

-- An item of `around` is among the targets.
abbrev pub any_inside : List ℕ → List HoverTarget → Bool
any_inside [] ts = false
any_inside (i ∷ is) ts = has (drop_item i) ts || any_inside is ts

pub same_eq : (t u : HoverTarget) → same t u ≡ true → t ≡ u
same_eq (navigation_item i) (navigation_item j) h = ap navigation_item ((==_iff i j).0 h)
same_eq (state_widget i) (state_widget j) h = ap state_widget ((==_iff i j).0 h)
same_eq (portlet_header i) (portlet_header j) h = ap portlet_header ((==_iff i j).0 h)
same_eq (drop_item i) (drop_item j) h = ap drop_item ((==_iff i j).0 h)
same_eq _ _ h = cc

pub has-without :
    (u t : HoverTarget) (ts : List HoverTarget)
    → has u (without t ts) ≡ (has u ts && not (same u t))
has-without u t [] = refl
has-without u t (x ∷ ts) =
    let ih = has-without u t ts in
    elim (Bool-cases (same x t)) [
      | inl h ↦
          let at : same u x ≡ same u t = ap (same u) (same_eq x t h) in ground (arith, h, ih, at)
      | inr h ↦ elim (Bool-cases (same u x)) [
        | inl k ↦
            let off : same u t ≡ false = ap (λ y. same y t) (same_eq u x k) ∙ h in
            ground (arith, h, ih, k, off)
        | inr k ↦ ground (arith, h, ih, k)
      ]
    ]

-- What is around a list and inside stays so where the targets do.
pub any_inside_mono :
    (around : List ℕ) (ts us : List HoverTarget)
    → ((j : ℕ)
        → contains j around ≡ true
        → has (drop_item j) ts ≡ true
        → has (drop_item j) us ≡ true)
    → any_inside around ts ≡ true
    → any_inside around us ≡ true
any_inside_mono [] ts us f h = h
any_inside_mono (i ∷ is) ts us f h =
    let ih = any_inside_mono is ts us (λ j c. f j (ground (arith, c))) in
    let here = f i (ground arith) in ground (arith, h, ih, here)

pub any_inside_over :
    (around : List ℕ) (i : ℕ) (ts : List HoverTarget)
    → contains i around ≡ true
    → any_inside around (drop_item i ∷ ts) ≡ true
any_inside_over [] i ts h = cc
any_inside_over (j ∷ js) i ts h = let ih = any_inside_over js i ts in ground (arith, h, ih)
