-- ===== src/Page/Widgets/Follows.antt =====
-- The classes and the lists on display follow the mouse.
use nswall.Common.{
  ℕ, zero, suc, ◌≡◌, refl, ap, sym, ◌∙◌, Bool, true, false, not, ◌||◌, ◌==◌, Option, none, some,
  some_inj, List, [], ◌∷◌, arith, inl, inr, ◌⊎◌, get_elem?, set, replicate, length,
}
use nswall.Common.Every.{Every, Every-weaken}
use nswall.Menus.State.{Menus}
use nswall.Menus.Step.{entered, left, timer_fires, step}
use nswall.Page.Widgets.{
  HoverTarget, navigation_item, state_widget, portlet_header, drop_item, WidgetEvent, mouse_over,
  mouse_out, menu_timer, Parts, Widgets, ready_widgets, mark_target, enter_target, leave_target,
  step_widgets, run_widgets,
}
use nswall.Page.Widgets.Held.{IsHeld, AllHeld, step-AllHeld}
use nswall.Page.Widgets.Inside.{same, has, has-without, inside_after, inside_from, any_inside}

-- Whether an element has the class for hovered ones, if there is such an element and class.
abbrev pub flag : HoverTarget → Widgets → Option Bool
flag (navigation_item i) w = get_elem? w.navigation i
flag (state_widget i) w = get_elem? w.states i
flag (portlet_header i) w = get_elem? w.headers i
flag (drop_item i) w = none

abbrev override : Bool → Bool → Option Bool → Option Bool
override false b o = o
override true b none = none
override true b (some c) = some b

override-set :
    (bs : List Bool) (i j : ℕ) (b : Bool)
    → get_elem? (set bs j b) i ≡ override (i == j) b (get_elem? bs i)
override-set [] i j b = ground arith
override-set (x ∷ xs) zero zero b = refl
override-set (x ∷ xs) zero (suc j) b = ground arith
override-set (x ∷ xs) (suc i) zero b = ground arith
override-set (x ∷ xs) (suc i) (suc j) b =
    override-set xs i j b ∙ ap (λ c. override c b (get_elem? xs i)) (ground arith)

override-none : (c b : Bool) → override c b none ≡ none
override-none false b = refl
override-none true b = refl

flag-mark :
    (u t : HoverTarget) (b : Bool) (w : Widgets)
    → flag u (mark_target t b w) ≡ override (same u t) b (flag u w)
unfolding mark_target
flag-mark (navigation_item i) (navigation_item j) b w = override-set w.navigation i j b
flag-mark (state_widget i) (state_widget j) b w = override-set w.states i j b
flag-mark (portlet_header i) (portlet_header j) b w = override-set w.headers i j b
flag-mark (drop_item i) (drop_item j) b w = sym (override-none (i == j) b)
flag-mark _ _ b w = refl

flag_menus :
    (u : HoverTarget) (m : Menus) (w : Widgets) → flag u (record w { menus = m }) ≡ flag u w
flag_menus (navigation_item i) m w = refl
flag_menus (state_widget i) m w = refl
flag_menus (portlet_header i) m w = refl
flag_menus (drop_item i) m w = refl

flag-enter :
    (u t : HoverTarget) (w : Widgets)
    → flag u (enter_target t w) ≡ override (same u t) true (flag u w)
unfolding enter_target
flag-enter u (navigation_item j) w =
    let m = step (entered 0 j) w.menus in
    flag-mark u (navigation_item j) true (record w { menus = m })
    ∙ ap (override (same u (navigation_item j)) true) (flag_menus u m w)
flag-enter (navigation_item i) (drop_item j) w = refl
flag-enter (state_widget i) (drop_item j) w = refl
flag-enter (portlet_header i) (drop_item j) w = refl
flag-enter (drop_item i) (drop_item j) w = sym (override-none (i == j) true)
flag-enter u (state_widget j) w = flag-mark u (state_widget j) true w
flag-enter u (portlet_header j) w = flag-mark u (portlet_header j) true w

flag-leave :
    (u t : HoverTarget) (w : Widgets)
    → flag u (leave_target t w) ≡ override (same u t) false (flag u w)
unfolding leave_target
flag-leave u (navigation_item j) w =
    let m = step (left 0 j) w.menus in
    flag-mark u (navigation_item j) false (record w { menus = m })
    ∙ ap (override (same u (navigation_item j)) false) (flag_menus u m w)
flag-leave (navigation_item i) (drop_item j) w = refl
flag-leave (state_widget i) (drop_item j) w = refl
flag-leave (portlet_header i) (drop_item j) w = refl
flag-leave (drop_item i) (drop_item j) w = sym (override-none (i == j) false)
flag-leave u (state_widget j) w = flag-mark u (state_widget j) false w
flag-leave u (portlet_header j) w = flag-mark u (portlet_header j) false w

-- The classes are those of the elements in `ts`.
abbrev pub Flagged : List HoverTarget → Widgets → Type 0
Flagged ts w = (u : HoverTarget) (b : Bool) → flag u w ≡ some b → b ≡ has u ts

overridden :
    (c b d : Bool) (o : Option Bool)
    → override c b o ≡ some d
    → (c ≡ true) × (d ≡ b) ⊎ (c ≡ false) × (o ≡ some d)
overridden false b d o h = inr (refl, h)
overridden true b d none h = cc
overridden true b d (some x) h = inl (refl, sym (some_inj h))

pub step-Flagged :
    (ev : WidgetEvent) (ts : List HoverTarget) (w : Widgets)
    → Flagged ts w
    → Flagged (inside_after ev ts) (step_widgets ev w)
unfolding step_widgets
step-Flagged (mouse_over t) ts w v u b h =
    elim (overridden (same u t) true b (flag u w) (sym (flag-enter u t w) ∙ h)) [
      | inl (c, q) ↦ ground (arith, c, q)
      | inr (c, q) ↦ let ih = v u b q in ground (arith, c, ih)
    ]
step-Flagged (mouse_out t) ts w v u b h =
    elim (overridden (same u t) false b (flag u w) (sym (flag-leave u t w) ∙ h)) [
      | inl (c, q) ↦ ground (arith, c, q, has-without u t ts)
      | inr (c, q) ↦ let ih = v u b q in ground (arith, c, ih, has-without u t ts)
    ]
step-Flagged menu_timer ts w v u b h =
    v u b (sym (flag_menus u (step (timer_fires 0) w.menus) w) ∙ h)

run-Flagged :
    (evs : List WidgetEvent) (ts : List HoverTarget) (w : Widgets)
    → Flagged ts w
    → Flagged (inside_from ts evs) (run_widgets evs w)
unfolding run_widgets
run-Flagged [] ts w v = v
run-Flagged (ev ∷ evs) ts w v =
    run-Flagged evs (inside_after ev ts) (step_widgets ev w) (step-Flagged ev ts w v)

run-AllHeld :
    (evs : List WidgetEvent) (ts : List HoverTarget) (w : Widgets)
    → AllHeld ts w
    → AllHeld (inside_from ts evs) (run_widgets evs w)
unfolding run_widgets
run-AllHeld [] ts w v = v
run-AllHeld (ev ∷ evs) ts w v =
    run-AllHeld evs (inside_after ev ts) (step_widgets ev w) (step-AllHeld ev ts w v)

none_replicated : (n i : ℕ) (b : Bool) → get_elem? (replicate n false) i ≡ some b → b ≡ false
none_replicated zero i b h = cc
none_replicated (suc n) zero b h = sym (some_inj h)
none_replicated (suc n) (suc i) b h = none_replicated n i b h

pub ready-Flagged : (p : Parts) → Flagged [] (ready_widgets p)
unfolding ready_widgets
ready-Flagged p (navigation_item i) b h = none_replicated (length p.entries) i b h
ready-Flagged p (state_widget i) b h = none_replicated p.states i b h
ready-Flagged p (portlet_header i) b h = none_replicated p.headers i b h
ready-Flagged p (drop_item i) b h = cc

-- Whatever the mouse has done since the page was ready: a navigation item, a widget or the header of a
-- portlet has its class for hovered ones exactly if the mouse has come over it and not left it since. If
-- the server sends the lists of the drop down menu hidden, each one on display is in such an item.
pub widgets_follow :
    (p : Parts) (evs : List WidgetEvent) (t : HoverTarget) (b : Bool)
    → Every (λ l. l.displayed ≡ false) p.drop_lists
    → flag t (run_widgets evs (ready_widgets p)) ≡ some b
    → (b ≡ has t (inside_from [] evs))
      × Every
          (λ l. (not l.displayed || any_inside l.around (inside_from [] evs)) ≡ true)
          (run_widgets evs (ready_widgets p)).drop_lists
unfolding ready_widgets
widgets_follow p evs t b v h = (
  run-Flagged evs [] (ready_widgets p) (ready-Flagged p) t b h,
  run-AllHeld evs [] (ready_widgets p) (
      Every-weaken (λ l. l.displayed ≡ false) (IsHeld []) p.drop_lists (λ l d. ground (arith, d))
        v),
)
