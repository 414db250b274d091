-- ===== src/Editable/Step.antt =====
-- An element between its calls: events of its form, timers, answers of the server, and the calls that
-- enable, disable and destroy it. The environment chooses the events.
pub mod Sound
pub mod Returns
pub mod Cancels
pub mod Saves
pub mod Late
pub mod Stuck
pub mod Phases
pub mod Fires
pub mod Answers
pub mod Refines
use Prim.Native.String.{String}
use nswall.Common.{
  ℕ, zero, suc, Bool, true, false, not, ◌==◌, Option, none, some, List, [], ◌∷◌, ◌++◌,
  if◌then◌else◌, get_elem?,
}
use nswall.Common.Texts.{Text, text_eq, is_text, is_given}
use nswall.Common.Result.{Result, ok, type_error}
use nswall.Editable.State.{
  Size, auto_size, Field, Form, Content, html, in_form, TimerKind, loading, resetting, submitting,
  Timer, Call, blurred_with, Editable,
}
use nswall.Editable.Settings.{
  Payload, plain, Library, OnBlur, cancel, submit, ignore, call, Settings,
}
use nswall.Editable.Types.{InputType, Table, find_type, fill_of}
use nswall.Editable.Begin.{Outcome, returned, thrown, Measured, edit}
use nswall.Editable.Finish.{show_placeholder, reset_of, clear_timer, submit_form, succeed, fail}

pub data Event : Type 0 where
  edit_asked : Measured → Option Text → Event
  typed : Text → Event
  key_pressed : ℕ → Event
  blurred submitted cancelled : Event
  timer_fires : ℕ → Event
  save_succeeds : Text → Event
  save_fails : Event
  disabled enabled destroyed : Event

unfoldable pub set_timer : TimerKind → Editable → Editable
set_timer k e = record e {
  timer = some e.next_timer;
  next_timer = suc e.next_timer;
  timers = e.timers ++ record { id = e.next_timer; session = e.sessions; kind = k } ∷ [];
}

-- The handler of the input's blur.
unfoldable pub blur : Settings → Text → Editable → Editable
unfolding set_timer
blur s value e = elim s.on_blur [
  | cancel ↦ set_timer resetting e
  | submit ↦ set_timer submitting e
  | ignore ↦ e
  | call ↦ record e { called = blurred_with value ∷ e.called }
]

unfoldable pub type_text : Text → Form → Form
type_text t f = record f { input = record (f.input) { value = t } }

-- The calls `editable('disable')`, `editable('enable')` and `editable('destroy')`.
unfoldable pub disable : Editable → Editable
disable e = record e { is_disabled = true }

unfoldable pub enable : Editable → Editable
enable e = record e { is_disabled = false }

unfoldable pub destroy : Editable → Editable
destroy e = record e { is_bound = false; is_disabled = false }

module _ (lib : Library) (s : Settings) where
  -- The call of the plugin for an element, which measures `w` times `h`; an unknown type throws.
  unfoldable pub make_editable : Table → ℕ → ℕ → Editable → Result Editable
  unfolding show_placeholder
  make_editable types w h e = elim (find_type s.input_type types) [
    | none ↦ type_error
    | some t ↦ ok (
        show_placeholder lib s (record e {
          title = if is_given s.tooltip then s.tooltip else e.title;
          width = s.width;
          height = s.height;
          saved_width = w;
          saved_height = h;
          is_bound = true;
        }))
  ]

  module _ (t : InputType) where
    -- The handlers of the form run only while it is in the element.
    abbrev pub with_form : (Form → Editable) → Editable → Outcome
    with_form f e = elim e.content [ html h ↦ returned e | in_form form ↦ returned (f form) ]

    -- The timer that shows the text for loading, in the form of its edit.
    unfoldable pub show_loading_text : ℕ → Editable → Outcome
    show_loading_text session e = elim e.content [
      | html h ↦ returned e
      | in_form f ↦
          if f.session == session
          then elim (fill_of t lib s e (some (plain s.load_text)) f.input) [
            | type_error ↦ thrown e
            | ok input ↦ returned (record e { content = in_form (record f { input = input }) })
          ]
          else returned e
    ]

    -- The timer to submit submits its own form, if that is in the element still.
    unfoldable pub submit_late : ℕ → Editable → Outcome
    submit_late session e = elim e.content [
      | html h ↦ returned e
      | in_form f ↦
          if f.session == session
          then returned (submit_form lib s t f.input.value e)
          else returned e
    ]

    unfoldable pub fire : Timer → Editable → Outcome
    unfolding show_loading_text submit_late
    fire timer e = elim timer.kind [
      | loading ↦ show_loading_text timer.session e
      | resetting ↦ returned (reset_of lib s t e)
      | submitting ↦ submit_late timer.session e
    ]

    unfoldable pub step : Event → Editable → Outcome
    unfolding fire blur type_text disable enable destroy
    step (edit_asked m answer) e = edit lib s t m answer e
    step (typed text) e = with_form (λ f. record e { content = in_form (type_text text f) }) e
    step (key_pressed code) e = with_form (λ f. if code == 27 then reset_of lib s t e else e) e
    step blurred e = with_form (λ f. blur s f.input.value e) e
    step submitted e = with_form (λ f. submit_form lib s t f.input.value e) e
    step cancelled e =
        with_form (λ f. elim f.cancel_button [ none ↦ e | some b ↦ reset_of lib s t e ]) e
    step (timer_fires i) e = elim (get_elem? e.timers i) [
      | none ↦ returned e
      | some timer ↦ fire timer (record e { timers = clear_timer timer.id e.timers })
    ]
    step (save_succeeds result) e = elim e.requests [
      | zero ↦ returned e
      | suc n ↦ returned (succeed lib s result (record e { requests = n }))
    ]
    step save_fails e = elim e.requests [
      | zero ↦ returned e
      | suc n ↦ returned (fail lib s t (record e { requests = n }))
    ]
    step disabled e = returned (disable e)
    step enabled e = returned (enable e)
    step destroyed e = returned (destroy e)
