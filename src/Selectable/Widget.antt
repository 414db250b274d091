-- ===== src/Selectable/Widget.antt =====
-- The making of the widget and its end: `_create` and `destroy`.
use nswall.Common.{◌≡◌, refl, ap, Bool, true, false, none, List, [], ◌∷◌, map}
use nswall.Selectable.State.{Selectee, Selectable}
use nswall.Selectable.Element.{refresh_one}

-- The widget with the classes of its element, whether its events and those of the mouse are bound, and
-- which of its elements have the class `ui-selectee`.
pub record Widget : Type 0 where
  pub ui_selectable : Bool
  pub ui_selectable_disabled : Bool
  pub is_bound : Bool
  pub ui_selectee : List Bool
  pub selectable : Selectable

-- The elements of the argument are those that the filter finds.
unfoldable pub create : Widget → Widget
create w = record w {
  ui_selectable = true;
  is_bound = true;
  ui_selectee = map (λ s. true) w.selectable.selectees;
  selectable = record (w.selectable) {
    dragged = false;
    helper = none;
    selectees = map refresh_one w.selectable.selectees;
  };
}

abbrev pub remove_data : Selectee → Selectee
remove_data s = record s { item = none }

unfoldable pub destroy : Widget → Widget
destroy w = record w {
  ui_selectable = false;
  ui_selectable_disabled = false;
  is_bound = false;
  ui_selectee = map (λ s. false) w.selectable.selectees;
  selectable = record (w.selectable) { selectees = map remove_data w.selectable.selectees };
}

refreshed_again :
    (ss : List Selectee)
    → map refresh_one (map remove_data (map refresh_one ss)) ≡ map refresh_one ss
unfolding refresh_one
refreshed_again [] = refl
refreshed_again (s ∷ ss) = ap (refresh_one s ∷◌) (refreshed_again ss)

-- A widget that is destroyed and made again is as it was when it was made first.
pub create-destroy : (w : Widget) → (create (destroy (create w))).selectable ≡ (create w).selectable
unfolding create destroy
create-destroy w =
    ap (λ ss. record (w.selectable) { dragged = false; helper = none; selectees = ss })
      (refreshed_again w.selectable.selectees)
