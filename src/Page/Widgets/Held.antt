-- ===== src/Page/Widgets/Held.antt =====
-- The lists on display are in items that the mouse is in.
use nswall.Common.{
  ℕ, ◌≡◌, refl, ap, ◌∙◌, true, false, not, ◌||◌, ◌==◌, ==_iff, List, ◌∷◌, arith, Bool-cases, inl,
  inr,
}
use nswall.Common.Every.{Every, Every-map_to, Every-weaken}
use nswall.Menus.State.{contains}
use nswall.Page.Widgets.{
  HoverTarget, navigation_item, state_widget, portlet_header, drop_item, WidgetEvent, mouse_over,
  mouse_out, menu_timer, DropList, Widgets, mark_target, slide, enter_target, leave_target,
  step_widgets,
}
use nswall.Page.Widgets.Inside.{
  same, has-without, without, inside_after, any_inside, any_inside_mono, any_inside_over,
}

-- Each list on display is in an item of `ts`.
abbrev pub IsHeld : List HoverTarget → DropList → Type 0
IsHeld ts l = (not l.displayed || any_inside l.around ts) ≡ true

over-IsHeld :
    (t : HoverTarget) (ts : List HoverTarget) (l : DropList) → IsHeld ts l → IsHeld (t ∷ ts) l
over-IsHeld t ts l h =
    let more = any_inside_mono l.around ts (t ∷ ts) (λ j c k. ground (arith, k)) in
    elim (Bool-cases l.displayed) [
      | inr d ↦ ground (arith, d)
      | inl d ↦ let k = more (ground (arith, d, h)) in ground (arith, d, k)
    ]

slid_over-IsHeld :
    (i : ℕ) (ts : List HoverTarget) (l : DropList)
    → IsHeld ts l
    → IsHeld (drop_item i ∷ ts) (slide i true l)
unfolding slide
slid_over-IsHeld i ts l h = elim (Bool-cases (contains i l.around)) [
  | inl c ↦ let k = any_inside_over l.around i ts c in ground (arith, c, k)
  | inr c ↦ rw (c, slide) (over-IsHeld (drop_item i) ts l h)
]

out-IsHeld :
    (t : HoverTarget) (ts : List HoverTarget) (l : DropList)
    → ((j : ℕ) → contains j l.around ≡ true → same (drop_item j) t ≡ false)
    → IsHeld ts l
    → IsHeld (without t ts) l
out-IsHeld t ts l f h =
    let rest =
      any_inside_mono l.around ts (without t ts)
        (λ j c k. has-without (drop_item j) t ts ∙ ground (arith, k, f j c)) in
    elim (Bool-cases l.displayed) [
      | inr d ↦ ground (arith, d)
      | inl d ↦ let k = rest (ground (arith, d, h)) in ground (arith, d, k)
    ]

slid_out-IsHeld :
    (i : ℕ) (ts : List HoverTarget) (l : DropList)
    → IsHeld ts l
    → IsHeld (without (drop_item i) ts) (slide i false l)
unfolding slide
slid_out-IsHeld i ts l h = elim (Bool-cases (contains i l.around)) [
  | inl c ↦ ground (arith, c)
  | inr c ↦
      rw (c, slide)
        (out-IsHeld (drop_item i) ts l
          (λ j k. elim (Bool-cases (j == i)) [
            | inr q ↦ q
            | inl q ↦
                let both : contains j l.around ≡ contains i l.around =
                  ap (λ x. contains x l.around) ((==_iff j i).0 q) in
                cc
          ])
          h)
]

abbrev pub AllHeld : List HoverTarget → Widgets → Type 0
AllHeld ts w = Every (IsHeld ts) w.drop_lists

pub step-AllHeld :
    (ev : WidgetEvent) (ts : List HoverTarget) (w : Widgets)
    → AllHeld ts w
    → AllHeld (inside_after ev ts) (step_widgets ev w)
unfolding step_widgets enter_target leave_target mark_target
step-AllHeld (mouse_over (drop_item i)) ts w v =
    Every-map_to (IsHeld ts) (IsHeld (drop_item i ∷ ts)) (slide i true) w.drop_lists
      (slid_over-IsHeld i ts) v
step-AllHeld (mouse_over (navigation_item i)) ts w v =
    Every-weaken (IsHeld ts) (IsHeld (navigation_item i ∷ ts)) w.drop_lists
      (over-IsHeld (navigation_item i) ts) v
step-AllHeld (mouse_over (state_widget i)) ts w v =
    Every-weaken (IsHeld ts) (IsHeld (state_widget i ∷ ts)) w.drop_lists
      (over-IsHeld (state_widget i) ts) v
step-AllHeld (mouse_over (portlet_header i)) ts w v =
    Every-weaken (IsHeld ts) (IsHeld (portlet_header i ∷ ts)) w.drop_lists
      (over-IsHeld (portlet_header i) ts) v
step-AllHeld (mouse_out (drop_item i)) ts w v =
    Every-map_to (IsHeld ts) (IsHeld (without (drop_item i) ts)) (slide i false) w.drop_lists
      (slid_out-IsHeld i ts) v
step-AllHeld (mouse_out (navigation_item i)) ts w v =
    Every-weaken (IsHeld ts) (IsHeld (without (navigation_item i) ts)) w.drop_lists
      (λ l. out-IsHeld (navigation_item i) ts l (λ j c. refl)) v
step-AllHeld (mouse_out (state_widget i)) ts w v =
    Every-weaken (IsHeld ts) (IsHeld (without (state_widget i) ts)) w.drop_lists
      (λ l. out-IsHeld (state_widget i) ts l (λ j c. refl)) v
step-AllHeld (mouse_out (portlet_header i)) ts w v =
    Every-weaken (IsHeld ts) (IsHeld (without (portlet_header i) ts)) w.drop_lists
      (λ l. out-IsHeld (portlet_header i) ts l (λ j c. refl)) v
step-AllHeld menu_timer ts w v = v
