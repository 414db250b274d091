-- ===== src/Editable/Spec.antt =====
-- What a user is promised of an element that is edited in place, without its form, timers and requests.
use nswall.Common.{Option, ◌≡◌, Bool, true, false, if◌then◌else◌}
use nswall.Common.Texts.{Text}
use nswall.Editable.State.{Editable}
use nswall.Editable.Settings.{Library, function, Settings}
use nswall.Editable.Begin.{Measured, html_of}
use nswall.Editable.Step.{
  Event, edit_asked, key_pressed, submitted, cancelled, timer_fires, save_succeeds, save_fails,
}
use nswall.Editable.Step.Cancels.{shown, kept}

-- The element rests and shows a text, or it is edited and can go back to one.
pub data Phase : Type 0 where
  resting edited : Text → Phase

abbrev pub phase_of : Library → Editable → Phase
phase_of lib e = if e.editing then edited e.revert else resting (html_of lib e)

-- The events by which an edit can be given up.
abbrev pub can_cancel : Event → Bool
can_cancel (key_pressed code) = true
can_cancel cancelled = true
can_cancel (timer_fires i) = true
can_cancel save_fails = true
can_cancel _ = false

-- The events that can submit the form.
abbrev pub can_submit : Event → Bool
can_submit submitted = true
can_submit (timer_fires i) = true
can_submit _ = false

-- What an event may do: nothing; begin an edit, which can go back to the text of before; go back to that;
-- show what the server answers to a save; or show what the target makes of a text, if it is a function.
pub data May (lib : Library) (s : Settings) : Event → Phase → Phase → Type 0 where
  stays : (ev : Event) (p : Phase) → May lib s ev p p
  begins :
      (m : Measured) (a : Option Text) (x : Text)
      → May lib s (edit_asked m a) (resting x) (edited (kept lib s x))
  goes_back :
      (ev : Event) (r : Text)
      → can_cancel ev ≡ true
      → May lib s ev (edited r) (resting (shown lib s r))
  answered : (r : Text) (p : Phase) → May lib s (save_succeeds r) p (resting (shown lib s r))
  computed :
      (ev : Event) (f : Text → Text) (x r : Text)
      → s.target ≡ function f
      → can_submit ev ≡ true
      → May lib s ev (edited r) (resting (shown lib s (f x)))
