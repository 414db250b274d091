-- ===== src/Selectable/Element.antt =====
-- What the handlers of the mouse do with one element.
pub mod Tracks
pub mod Stops
pub mod Hits
pub mod Aligned
use nswall.Common.{
  Bool, true, false, not, ◌&&◌, ◌||◌, Option, none, some, List, [], ◌∷◌, if◌then◌else◌,
}
use nswall.Common.Int.{ℤ, ltb_ℤ}
use nswall.Common.Result.{Result, ok, type_error, ◌>>=◌, defined}
use nswall.Selectable.State.{
  Tolerance, touch, fit, other, Box, Item, Callback, on_selecting, on_unselecting, on_selected,
  on_unselected, Selectee,
}

abbrev pub with : Selectee → Item → Selectee
with s item = record s { item = some item }

abbrev pub call : Callback → Selectee → Selectee
call c s = record s { called = c ∷ s.called }

-- The body of the loop of `refresh`.
unfoldable pub refresh_one : Selectee → Selectee
refresh_one s = record s {
  item = some (record {
    box = s.shown;
    startselected = false;
    selected = s.ui_selected;
    selecting = s.ui_selecting;
    unselecting = s.ui_unselecting;
  });
}

-- The body of the loop over the elements with the class `ui-selected`, in `_mouseStart`.
unfoldable pub start_one : Bool → Selectee → Result Selectee
start_one meta s =
    if s.ui_selected
    then (do
      item ← defined s.item
      ok (
          if not meta
          then call on_unselecting (record s {
            ui_selected = false;
            ui_unselecting = true;
            item =
                some (record item { startselected = true; selected = false; unselecting = true });
          })
          else with s (record item { startselected = true })))
    else ok s

-- What the press does with the element that it meets.
unfoldable pub press_one : Bool → Selectee → Item → Selectee
press_one meta s item =
    let do_select = not meta || not s.ui_selected in
    let flagged = record item {
      unselecting = not do_select;
      selecting = do_select;
      selected = do_select;
    } in
    if do_select
    then call on_selecting
        (record s { ui_unselecting = false; ui_selecting = true; item = some flagged })
    else call on_unselecting
        (record s { ui_selected = false; ui_unselecting = true; item = some flagged })

-- Whether the lasso between the corners of `b` meets an item.
unfoldable pub hit : Tolerance → Box → Box → Bool
hit touch i b = not (
    ltb_ℤ b.right i.left
    || (ltb_ℤ i.right b.left || (ltb_ℤ b.bottom i.top || ltb_ℤ i.bottom b.top)))
hit fit i b =
    ltb_ℤ b.left i.left && (ltb_ℤ i.right b.right && (ltb_ℤ b.top i.top && ltb_ℤ i.bottom b.bottom))
hit other i b = false

-- The branch of `_mouseDrag` for an element that the lasso meets: three steps.
unfoldable pub leave_selected : Selectee → Item → Selectee
leave_selected s item =
    if item.selected
    then with (record s { ui_selected = false }) (record item { selected = false })
    else with s item

unfoldable pub leave_unselecting : Selectee → Item → Selectee
leave_unselecting s item =
    if item.unselecting
    then with (record s { ui_unselecting = false }) (record item { unselecting = false })
    else with s item

unfoldable pub become_selecting : Selectee → Item → Selectee
become_selecting s item =
    if not item.selecting
    then call on_selecting
        (with (record s { ui_selecting = true }) (record item { selecting = true }))
    else with s item

-- The branch for one that it does not meet: two steps.
unfoldable pub leave_selecting : Bool → Selectee → Item → Selectee
leave_selecting meta s item =
    if item.selecting
    then (if meta && item.startselected
        then with (record s { ui_selecting = false; ui_selected = true })
            (record item { selecting = false; selected = true })
        else call on_unselecting (
            if item.startselected
            then with (record s { ui_selecting = false; ui_unselecting = true })
                (record item { selecting = false; unselecting = true })
            else with (record s { ui_selecting = false }) (record item { selecting = false })))
    else with s item

unfoldable pub drop_selected : Bool → Selectee → Item → Selectee
drop_selected meta s item =
    if item.selected && (not meta && not item.startselected)
    then call on_unselecting (
        with (record s { ui_selected = false; ui_unselecting = true })
          (record item { selected = false; unselecting = true }))
    else with s item

-- A step on an element with data, and none on one without.
abbrev pub on_item : (Selectee → Item → Selectee) → Selectee → Selectee
on_item f s = elim s.item [ none ↦ s | some item ↦ f s item ]

-- The two branches, for whether the lasso meets the element.
unfoldable pub drag_item : Bool → Bool → Selectee → Item → Selectee
unfolding leave_selected leave_unselecting become_selecting leave_selecting drop_selected
drag_item meta true s item =
    on_item become_selecting (on_item leave_unselecting (leave_selected s item))
drag_item meta false s item = on_item (drop_selected meta) (leave_selecting meta s item)

-- The body of the loop of `_mouseDrag`.
unfoldable pub drag_one : Tolerance → Bool → Box → Selectee → Selectee
drag_one t meta b s = elim s.item [
  | none ↦ s
  | some item ↦ if s.is_widget then s else drag_item meta (hit t item.box b) s item
]

-- The bodies of the two loops of `_mouseStop`.
unfoldable pub stop_unselecting : Selectee → Result Selectee
stop_unselecting s =
    if s.ui_unselecting
    then (do
      item ← defined s.item
      ok (
          call on_unselected (
            with (record s { ui_unselecting = false })
              (record item { unselecting = false; startselected = false }))))
    else ok s

unfoldable pub stop_selecting : Selectee → Result Selectee
stop_selecting s =
    if s.ui_selecting
    then (do
      item ← defined s.item
      ok (
          call on_selected (
            with (record s { ui_selecting = false; ui_selected = true })
              (record item { selecting = false; selected = true; startselected = true }))))
    else ok s
