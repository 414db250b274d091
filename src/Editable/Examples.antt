-- ===== src/Editable/Examples.antt =====
-- The theorems on the editing in place at concrete elements.
use nswall.Common.{List, false, map, ◌≡◌, refl, true, none, some, [], ◌∷◌}
use nswall.Common.Texts.{Text, text_eq}
use nswall.Editable.State.{select_input, Choice, pixels, html, callback_with, sends, Editable}
use nswall.Editable.Settings.{Settings}
use nswall.Editable.Types.{InputType, plain_field, select_properties}
use nswall.Editable.Begin.{returned, is_placeholder}
use nswall.Editable.Finish.{fields_of}
use nswall.Editable.Fields.{property, property-fields_of}
use nswall.Editable.Sound.{IsSound, IsPlain}
use nswall.Editable.Step.{
  edit_asked, key_pressed, blurred, submitted, save_succeeds, save_fails, timer_fires, step,
}
use nswall.Editable.Step.Sound.{step-IsSound}
use nswall.Editable.Step.Cancels.{Shows, typing, IsReady, InEdit, escape_restores}
use nswall.Editable.Spec.{phase_of, May}
use nswall.Editable.Step.Refines.{step-May}
use nswall.Editable.Group.{Group, run_group, step_group}
use nswall.Editable.Group.Sticks.{zero_width_sticks}
use nswall.Editable.Step.Saves.{MaySubmit, save_takes_answer, answer_ends}
use nswall.Editable.Step.Late.{reset_outlives}
use nswall.Editable.Step.Stuck.{unreadable_load_sticks}
use nswall.Editable.Samples.{
  library, settings, text_type, select_type, resting, form, edited, measured,
}

ready : (t : InputType) (s : Settings) → s.onedit resting ≡ true → IsReady library s t resting
ready t s h = record { is_bound = refl; enabled = refl; at_rest = refl; allowed = h }

plain_type : IsPlain text_type
plain_type = record { no_plugin = refl; no_buttons = refl; no_reset = refl }

abbrev may_submit : MaySubmit library settings text_type edited
may_submit = record {
  form = form;
  holds = refl;
  editing = refl;
  passes = λ e. refl;
  type_passes = refl;
}

abbrev in_edit : InEdit (b'a' ∷ b'b' ∷ []) edited
in_edit = record { editing = refl; reverts = refl; form = form; holds = refl }

step-IsSound_example :
    IsSound (step library settings text_type (edit_asked measured none) resting).editable
step-IsSound_example =
    step-IsSound library settings text_type plain_type (edit_asked measured none) resting refl refl
      tt

escape_restores_example :
    Shows
      (b'a' ∷ b'b' ∷ [])
      (step library settings text_type (key_pressed 27) (
        typing library settings text_type
          ((b'x' ∷ []) ∷ [])
          (step library settings text_type (edit_asked measured none) resting).editable)).editable
unfolding text_eq is_placeholder
escape_restores_example =
    escape_restores library settings text_type measured none ((b'x' ∷ []) ∷ []) resting
      (b'a' ∷ b'b' ∷ []) refl refl (λ e. refl) refl (ready text_type settings refl)

save_takes_answer_example :
    let e1 = (step library settings text_type submitted edited).editable in
    let e2 = (step library settings text_type (save_succeeds (b'c' ∷ [])) e1).editable in
    Shows (b'c' ∷ []) e2
    × (e2.requests ≡ 0)
    × (e2.called ≡ callback_with (b'c' ∷ []) ∷ sends (fields_of settings (b'c' ∷ []) edited) ∷ [])
unfolding text_eq
save_takes_answer_example =
    save_takes_answer library settings text_type (b'u' ∷ []) (b'c' ∷ []) edited may_submit refl refl

answer_ends_example :
    let e1 = (step library settings text_type submitted edited).editable in
    Shows (b'?' ∷ []) (step library settings text_type (save_succeeds []) e1).editable
    × Shows (b'a' ∷ b'b' ∷ []) (step library settings text_type save_fails e1).editable
unfolding text_eq
answer_ends_example =
    answer_ends library settings text_type (b'u' ∷ []) [] edited may_submit refl refl refl refl
      λ e. refl

reset_outlives_example :
    let e1 = (step library settings text_type blurred edited).editable in
    let e2 = (step library settings text_type (key_pressed 27) e1).editable in
    let e3 =
      typing library settings text_type
        ((b'x' ∷ []) ∷ [])
        (step library settings text_type (edit_asked measured none) e2).editable in
    InEdit (b'a' ∷ b'b' ∷ []) e3
    × Shows (b'a' ∷ b'b' ∷ []) (step library settings text_type (timer_fires 0) e3).editable
unfolding text_eq is_placeholder
reset_outlives_example =
    reset_outlives library settings text_type measured none ((b'x' ∷ []) ∷ []) (b'a' ∷ b'b' ∷ [])
      edited refl refl refl (λ e. refl) (λ e. refl) refl refl in_edit

abbrev loading_settings : Settings
loading_settings = record settings { load_url = true }

unreadable_load_sticks_example :
    let o = step library loading_settings select_type (edit_asked measured none) resting in
    (o.threw ≡ true)
    × (o.editable.content ≡ html [])
    × (step library loading_settings select_type (edit_asked measured none) o.editable
        ≡ returned o.editable)
unreadable_load_sticks_example =
    unreadable_load_sticks library loading_settings select_type measured none resting
      (edit_asked measured none) refl refl tt (ready select_type loading_settings refl) refl

property-fields_of_example :
    property "_method" (fields_of settings (b'c' ∷ []) edited) ≡ some (b'p' ∷ b'u' ∷ b't' ∷ [])
property-fields_of_example = property-fields_of settings (b'c' ∷ []) edited "_method"

abbrev saving : Editable
saving = record edited { requests = 1 }

step-May_example :
    May library settings (save_succeeds (b'c' ∷ [])) (phase_of library saving) (
      phase_of library
        (step library settings text_type (save_succeeds (b'c' ∷ [])) saving).editable)
step-May_example =
    step-May library settings text_type plain_type (save_succeeds (b'c' ∷ [])) saving refl refl refl
      (refl, refl)

abbrev fixed_settings : Settings
fixed_settings = record settings { width = pixels 100; height = pixels 20 }

-- Two elements of one call; the first has no width when it is edited, the second has one.
abbrev group : Group
group = record { width = pixels 100; height = pixels 20; elements = resting ∷ resting ∷ [] }

zero_width_sticks_example :
    let g1 =
      run_group library fixed_settings text_type
        ((1, edit_asked measured none) ∷ (0, key_pressed 27) ∷ [])
        (step_group library fixed_settings text_type 0
          (edit_asked (record { width = 0; height = 0 }) none)
          group) in
    (g1.width ≡ pixels 40) × (g1.height ≡ pixels 10)
zero_width_sticks_example =
    zero_width_sticks library fixed_settings text_type plain_type 0
      (record { width = 0; height = 0 }) none
      ((1, edit_asked measured none) ∷ (0, key_pressed 27) ∷ []) group resting refl refl
      (record { is_bound = refl; enabled = refl; at_rest = refl; allowed = refl }) refl refl refl
      (refl, (refl, tt))

abbrev choices_given : List (Text × Text)
choices_given = (b'a' ∷ [], b'X' ∷ []) ∷ (b'b' ∷ [], b'Y' ∷ []) ∷ (b'c' ∷ [], b'Y' ∷ []) ∷ []

-- Of the options with the text of before, the last one is selected; with none, the first.
select_runs :
    (map
        (λ (c : Choice). c.is_selected)
        (select_properties library
          (record resting { revert = b'Y' ∷ [] })
          choices_given
          (plain_field select_input)).choices
      ≡ false ∷ false ∷ true ∷ [])
    × ((select_properties library
          (record resting { revert = b'Z' ∷ [] })
          choices_given
          (plain_field select_input)).value
        ≡ b'a' ∷ [])
unfolding select_properties text_eq
select_runs = (refl, refl)
