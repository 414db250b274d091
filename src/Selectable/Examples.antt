-- ===== src/Selectable/Examples.antt =====
-- A gesture over three elements in a row, of which the first is selected before.
use nswall.Common.{ℕ, ◌≡◌, ◌↔◌, arith, refl, Bool, true, false, List, [], ◌∷◌, none, map}
use nswall.Common.Int.{pos}
use nswall.Common.Result.{Result, ok, type_error, Returns}
use nswall.Selectable.State.{Options, touch, Box, Selectee, Mouse, Selectable}
use nswall.Selectable.Element.{
  refresh_one, start_one, press_one, drag_one, hit, drag_item, leave_selected, leave_unselecting,
  become_selecting, leave_selecting, drop_selected, stop_unselecting, stop_selecting,
}
use nswall.Selectable.Element.Hits.{Meets, hit-Meets}
use nswall.Selectable.Element.Tracks.{resting}
use nswall.Selectable.Gesture.{
  gesture, mouse_start, mouse_drag, mouse_stop, drags, lasso, each, press,
}
use nswall.Selectable.Gesture.Pointwise.{Before}
use nswall.Selectable.Gesture.Settles.{AllSettled, gesture-AllSettled}
use nswall.Selectable.Gesture.Click.{Clicked, gesture-Clicked}
use nswall.Selectable.Gesture.Whole.{Lassoed, gesture-Selected}

abbrev row : ℕ → ℕ → Box
row top bottom = record { left = pos 0; top = pos top; right = pos 50; bottom = pos bottom }

abbrev before : List Before
before =
    record { box = row 0 10; was = true }
    ∷ record { box = row 20 30; was = false }
    ∷ record { box = row 40 50; was = false }
    ∷ []

abbrev options : Options
options = record { disabled = false; auto_refresh = true; tolerance = touch }

abbrev widget : Selectable
widget = record {
  options = options;
  opos_x = pos 0;
  opos_y = pos 0;
  dragged = false;
  helper = none;
  selectees = map (λ (c : Before). resting c.box c.was none []) before;
}

abbrev at : ℕ → Mouse
at y = record {
  page_x = pos 5;
  page_y = pos y;
  client_x = pos 5;
  client_y = pos y;
  meta_key = true;
}

-- A press on the second element with the meta key, a drag over the third, and one back.
gesture-Selected_example :
    Returns
      (Lassoed (at 22) 1 [] widget before (at 45 ∷ at 25 ∷ []))
      (gesture (at 22) (1 ∷ []) (at 45 ∷ at 25 ∷ []) widget)
gesture-Selected_example =
    gesture-Selected (at 22) 1 [] widget before (at 45) (at 25 ∷ [])
      (record { box = row 20 30; was = false }) refl refl (refl, (refl, tt))
      (refl, (refl, (refl, tt))) refl

-- A click on the first element with the meta key.
gesture-Clicked_example :
    Returns (Clicked (at 5) 0 [] widget before) (gesture (at 5) (0 ∷ []) [] widget)
gesture-Clicked_example =
    gesture-Clicked (at 5) 0 [] widget before (record { box = row 0 10; was = true }) refl refl
      (refl, (refl, (refl, tt))) refl

abbrev selected_of : Result Selectable → List Bool
selected_of (ok w) = map (λ (s : Selectee). s.ui_selected) w.selectees
selected_of type_error = []

gesture_runs :
    selected_of (gesture (at 22) (1 ∷ []) (at 45 ∷ at 25 ∷ []) widget) ≡ true ∷ true ∷ false ∷ []
unfolding gesture mouse_start mouse_drag mouse_stop drags lasso each press refresh_one start_one
    press_one drag_one hit drag_item leave_selected leave_unselecting become_selecting
    leave_selecting drop_selected stop_unselecting stop_selecting
gesture_runs = refl

-- An item and a lasso that begins on its edge.
hit-Meets_example : (hit touch (row 0 10) (row 10 30) ≡ true) ↔ Meets touch (row 0 10) (row 10 30)
hit-Meets_example =
    hit-Meets touch (row 0 10) (row 10 30) (omega arith, omega arith) (omega arith, omega arith)

-- The elements have been refreshed; the meta key is released on the way.
abbrev refreshed : Selectable
refreshed = record widget { selectees = map refresh_one widget.selectees }

abbrev without_meta : ℕ → Mouse
without_meta y = record (at y) { meta_key = false }

gesture-AllSettled_example :
    Returns AllSettled (gesture (at 22) (1 ∷ []) (at 45 ∷ without_meta 25 ∷ []) refreshed)
unfolding refresh_one
gesture-AllSettled_example =
    gesture-AllSettled (at 22) (1 ∷ []) (at 45 ∷ without_meta 25 ∷ []) refreshed (
      (_, refl, (refl, refl), refl, refl),
      ((_, refl, (refl, refl), refl, refl), ((_, refl, (refl, refl), refl, refl), tt)),
    )
