-- ===== src/Selectable/Element/Tracks.antt =====
-- What a gesture makes of one element: its classes and its data, after each of its events.
use nswall.Common.{
  ◌≡◌, Bool, true, false, not, ◌&&◌, ◌||◌, Option, some, List, arith, if◌then◌else◌,
}
use nswall.Common.Result.{Returns}
use nswall.Selectable.State.{Tolerance, Box, Item, Selectee, Callback}
use nswall.Selectable.Element.{
  refresh_one, start_one, press_one, on_item, hit, drag_item, drag_one, leave_selected,
  leave_unselecting, become_selecting, leave_selecting, drop_selected,
}

-- How an element stands, shown in `box`, after a start with or without the meta key (`meta`), which
-- found it selected or not (`was`), a press on it or not (`pressed`), and drags that have met it or
-- not (`ever`), the last of them in particular (`last`). `calls` are the callbacks so far.
abbrev pub tracked : Box → Bool → Bool → Bool → Bool → Bool → List Callback → Selectee
tracked box meta was pressed ever last calls =
    let held = not last && (meta && (was && (not pressed || ever))) in
    let stale = not last && (not ever && (pressed && not (meta && was) && (meta || was))) in
    let leaving =
      not last
      && (if was
          then (if meta then pressed && not ever else true)
          else not meta && (pressed && not ever)) in
    record {
      is_widget = false;
      shown = box;
      ui_selected = held;
      ui_selecting = last;
      ui_unselecting = leaving;
      item = some (record {
        box = box;
        startselected = was;
        selected = held || stale;
        selecting = last;
        unselecting = leaving;
      });
      called = calls;
    }

-- A drag, after which `ever` and `last` say whether the lasso met the element.
pub drag_one-tracked :
    (t : Tolerance) (b box : Box) (meta was pressed ever last : Bool) (calls : List Callback)
    (h : Bool)
    → (last && not ever) ≡ false
    → hit t box b ≡ h
    → drag_one t meta b (tracked box meta was pressed ever last calls)
      ≡ tracked box meta was pressed
          (ever || h)
          h
          (drag_one t meta b (tracked box meta was pressed ever last calls)).called
unfolding drag_one drag_item leave_selected leave_unselecting become_selecting leave_selecting
    drop_selected
drag_one-tracked t b box meta was pressed ever last calls true l e = ground arith
drag_one-tracked t b box meta was pressed ever last calls false l e = ground arith

-- An element that no gesture has touched: it has none of the two passing classes.
abbrev pub resting : Box → Bool → Option Item → List Callback → Selectee
resting box was item calls = record {
  is_widget = false;
  shown = box;
  ui_selected = was;
  ui_selecting = false;
  ui_unselecting = false;
  item = item;
  called = calls;
}

-- An element after the start and, where `pressed` says so, the press.
abbrev pub grabbed : Box → Bool → Bool → Bool → List Callback → Selectee
grabbed box meta was pressed calls =
    let marked = pressed && (not meta || not was) in
    let s = tracked box meta was pressed false false calls in
    if marked
    then record s {
      ui_selected = false;
      ui_selecting = true;
      ui_unselecting = false;
      item = some (record {
        box = box;
        startselected = was;
        selected = true;
        selecting = true;
        unselecting = false;
      });
    }
    else s

pub start_one-resting :
    (box : Box) (meta was : Bool) (item : Option Item) (calls : List Callback)
    → Returns
        (λ s. s ≡ grabbed box meta was false s.called)
        (start_one meta (refresh_one (resting box was item calls)))
unfolding start_one refresh_one
start_one-resting box meta was item calls = ground arith

pub press_one-grabbed :
    (box : Box) (meta was : Bool) (calls : List Callback)
    → on_item (press_one meta) (grabbed box meta was false calls)
      ≡ grabbed box meta was true
          (on_item (press_one meta) (grabbed box meta was false calls)).called
unfolding press_one
press_one-grabbed box meta was calls = ground arith

-- The first drag.
pub drag_one-grabbed :
    (t : Tolerance) (b box : Box) (meta was pressed : Bool) (calls : List Callback) (h : Bool)
    → hit t box b ≡ h
    → drag_one t meta b (grabbed box meta was pressed calls)
      ≡ tracked box meta was pressed h h
          (drag_one t meta b (grabbed box meta was pressed calls)).called
unfolding drag_one drag_item leave_selected leave_unselecting become_selecting leave_selecting
    drop_selected
drag_one-grabbed t b box meta was pressed calls true e = ground arith
drag_one-grabbed t b box meta was pressed calls false e = ground arith
