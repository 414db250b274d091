-- ===== src/Selectable/Gesture.antt =====
-- The handlers of the mouse, and a gesture: a press, drags, and the release.
pub mod Pointwise
pub mod Starts
pub mod Selects
pub mod Whole
pub mod Click
pub mod Settles
use nswall.Common.{
  ℕ, zero, suc, Bool, true, false, not, Option, none, some, List, [], ◌∷◌, if◌then◌else◌, map,
  get_elem?, set,
}
use nswall.Common.Int.{ℤ, pos, ltb_ℤ}
use nswall.Common.Result.{Result, ok, type_error, ◌>>=◌, defined}
use nswall.Selectable.State.{Options, Tolerance, Box, Item, Selectee, Mouse, Selectable}
use nswall.Selectable.Element.{
  refresh_one, start_one, press_one, drag_one, stop_unselecting, stop_selecting,
}

-- A loop over elements, whose body may throw.
unfoldable pub each : (Selectee → Result Selectee) → List Selectee → Result (List Selectee)
each f [] = ok []
each f (s ∷ ss) = do s1 ← f s; ss1 ← each f ss; ok (s1 ∷ ss1)

-- The press meets the first element with data among those with the indices `chain`: the elements
-- around the place of the press, the outermost first.
unfoldable pub press : Bool → List ℕ → List Selectee → List Selectee
press meta [] ss = ss
press meta (i ∷ chain) ss =
    let rest = press meta chain ss in
    elim (get_elem? ss i) [
      | none ↦ rest
      | some s ↦ elim s.item [ none ↦ rest | some item ↦ set ss i (press_one meta s item) ]
    ]

unfoldable pub mouse_start : Mouse → List ℕ → Selectable → Result Selectable
unfolding each press
mouse_start e chain w =
    let w1 = record w { opos_x = e.page_x; opos_y = e.page_y } in
    if w.options.disabled then ok w1 else (do
      let box : Box = record {
        left = e.client_x;
        top = e.client_y;
        right = e.client_x;
        bottom = e.client_y;
      }
      let refreshed = if w.options.auto_refresh then map refresh_one w.selectees else w.selectees
      started ← each (start_one e.meta_key) refreshed
      ok (record w1 { helper = some box; selectees = press e.meta_key chain started }))

-- The lasso between the place of the press and the mouse.
unfoldable pub lasso : Selectable → Mouse → Box
lasso w e = record {
  left = if ltb_ℤ e.page_x w.opos_x then e.page_x else w.opos_x;
  right = if ltb_ℤ e.page_x w.opos_x then w.opos_x else e.page_x;
  top = if ltb_ℤ e.page_y w.opos_y then e.page_y else w.opos_y;
  bottom = if ltb_ℤ e.page_y w.opos_y then w.opos_y else e.page_y;
}

unfoldable pub mouse_drag : Mouse → Selectable → Selectable
unfolding lasso
mouse_drag e w =
    let w1 = record w { dragged = true } in
    if w.options.disabled then w1 else record w1 {
      helper = elim w.helper [ none ↦ none | some _ ↦ some (lasso w e) ];
      selectees = map (drag_one w.options.tolerance e.meta_key (lasso w e)) w.selectees;
    }

unfoldable pub mouse_stop : Selectable → Result Selectable
unfolding each
mouse_stop w = do
  unselected ← each stop_unselecting w.selectees
  selected ← each stop_selecting unselected
  ok (record w { dragged = false; helper = none; selectees = selected })

unfoldable pub drags : List Mouse → Selectable → Selectable
unfolding mouse_drag
drags [] w = w
drags (e ∷ es) w = drags es (mouse_drag e w)

unfoldable pub gesture : Mouse → List ℕ → List Mouse → Selectable → Result Selectable
unfolding mouse_start drags mouse_stop
gesture e chain es w = do w1 ← mouse_start e chain w; mouse_stop (drags es w1)
