-- ===== src/Editable/Step/Late.antt =====
-- What the timers of an edit do that is over.
use nswall.Common.{
  ℕ, ◌≡◌, refl, ap, sym, ◌∙◌, subst, true, false, Option, none, some, List, [], ◌∷◌, arith,
  get_elem?, length, get_elem?-append_left, get_elem?-append_last, if◌then◌else◌, ◌==◌,
}
use nswall.Common.Texts.{Text}
use nswall.Common.Result.{Result, ok, type_error}
use nswall.Editable.State.{Field, loading, resetting, Timer, Editable}
use nswall.Editable.Settings.{cancel, Library, Settings}
use nswall.Editable.Types.{InputType, element_of, fill_of}
use nswall.Editable.Begin.{
  returned, Measured, edit, measure, take_text, open_form, bare_form, ask_content, request_content,
  content_of,
}
use nswall.Editable.Finish.{show_placeholder, show_tooltip, reset_element, reset_of, clear_timer}
use nswall.Editable.Step.{
  edit_asked, typed, key_pressed, blurred, timer_fires, set_timer, blur, fire, step,
}
use nswall.Editable.Step.Cancels.{
  InEdit, Shows, shown, kept, reset_element-Shows, typing, IsReady, edit-InEdit, typing-InEdit,
  reset_of-Shows, edit_opens, with_form_lem,
}

-- The timer at `i` is one to reset, of whichever edit.
abbrev pub HasReset : ℕ → Editable → Type 0
HasReset i e = (x : Timer) × (get_elem? e.timers i ≡ some x) × (x.kind ≡ resetting)

module _ (lib : Library) (s : Settings) (t : InputType) where
  reset_fires :
      (i : ℕ) (r : Text) (e : Editable)
      → t.reset ≡ none
      → ((x : Editable) → s.onreset x ≡ true)
      → HasReset i e
      → InEdit r e
      → Shows (shown lib s r) (step lib s t (timer_fires i) e).editable
  unfolding step fire
  reset_fires i r e n y (x, h, k) v =
      rw (h, step)
        (rw (k, fire)
          (reset_of-Shows lib s t r (record e { timers = clear_timer x.id e.timers }) n (y _)
            (record { editing = v.editing; reverts = v.reverts; form = v.form; holds = v.holds })))

  reset_element_parts :
      (e : Editable)
      → ((reset_element lib s e).timers ≡ e.timers)
        × ((reset_element lib s e).is_bound ≡ e.is_bound)
        × ((reset_element lib s e).is_disabled ≡ e.is_disabled)
  unfolding reset_element show_placeholder show_tooltip
  reset_element_parts e = ground arith

  ask_content-HasReset :
      (i : ℕ) (a : Option Text) (e : Editable) → HasReset i e → HasReset i (ask_content s a e)
  unfolding ask_content request_content
  ask_content-HasReset i a e (x, h, k) =
      let late : Timer = record { id = e.next_timer; session = e.sessions; kind = loading } in
      (x, ground (arith, h, get_elem?-append_left e.timers (late ∷ []) i h), k)

  open_form-HasReset :
      (i : ℕ) (a : Option Text) (e : Editable)
      → HasReset i e
      → HasReset i (open_form lib s t a e).editable
  unfolding open_form
  open_form-HasReset i a e h =
      on
        (fill_of t lib s (ask_content s a e) (content_of s a (ask_content s a e))
          (bare_form s e (element_of t s e)).input)
        refl
    where
      on :
          (r : Result Field)
          → fill_of t lib s
              (ask_content s a e)
              (content_of s a (ask_content s a e))
              (bare_form s e (element_of t s e)).input
            ≡ r
          → HasReset i (open_form lib s t a e).editable
      on type_error r = rw (r, open_form) (ask_content-HasReset i a e h)
      on (ok g) r = rw (r, open_form) (ask_content-HasReset i a e h)

  typing-HasReset :
      (i : ℕ) (xs : List Text) (e : Editable) → HasReset i e → HasReset i (typing lib s t xs e)
  unfolding step
  typing-HasReset i [] e h = h
  typing-HasReset i (x ∷ xs) e (y, h, k) =
      typing-HasReset i xs (step lib s t (typed x) e).editable (y, ground (arith, h), k)

  -- The blur and the escape key of an edit, with 'cancel' for the blur.
  leave_lem :
      (r : Text) (e : Editable)
      → InEdit r e
      → s.on_blur ≡ cancel
      → t.reset ≡ none
      → (step lib s t (key_pressed 27) (step lib s t blurred e).editable).editable
        ≡ reset_element lib s (set_timer resetting e)
  unfolding step blur set_timer reset_of
  leave_lem r e v b n =
      ap (λ o. (step lib s t (key_pressed 27) o.editable).editable)
        {y = returned (set_timer resetting e)}
        (with_form_lem lib s t (λ f. blur s f.input.value e) e v.form v.holds
          ∙ ap returned (rw (b, blur) refl))
      ∙ ap (λ o. o.editable)
          (with_form_lem lib s t
            (λ f.
              if 27 == 27 then reset_of lib s t (set_timer resetting e) else set_timer resetting e)
            (set_timer resetting e) v.form v.holds)
      ∙ rw (n, reset_of) refl

  -- With 'cancel' for the blur, a type that fills and resets by default, and hooks that let edits
  -- and resets pass, in an element that is bound, enabled and edited: the blur's timer of one edit
  -- is not cleared when the escape key ends that edit. The element is then edited again and any
  -- texts are typed; if the timer fires, it ends this edit too, and the element shows the text of
  -- before it.
  pub reset_outlives :
      (m : Measured) (a : Option Text) (xs : List Text) (r : Text) (e : Editable)
      → t.fill ≡ none
      → t.reset ≡ none
      → s.on_blur ≡ cancel
      → ((x : Editable) → s.onreset x ≡ true)
      → ((x : Editable) → s.onedit x ≡ true)
      → e.is_bound ≡ true
      → e.is_disabled ≡ false
      → InEdit r e
      → let e2 = (step lib s t (key_pressed 27) (step lib s t blurred e).editable).editable in
        let e3 = typing lib s t xs (step lib s t (edit_asked m a) e2).editable in
        InEdit (kept lib s (shown lib s r)) e3
        × Shows
            (shown lib s (kept lib s (shown lib s r)))
            (step lib s t (timer_fires (length e.timers)) e3).editable
  unfolding step set_timer take_text measure
  reset_outlives m a xs r e d n b y z p q v =
      subst
        (λ x.
          let e3 = typing lib s t xs (step lib s t (edit_asked m a) x).editable in
          InEdit (kept lib s (shown lib s r)) e3
          × Shows (shown lib s (kept lib s (shown lib s r)))
              (step lib s t (timer_fires (length e.timers)) e3).editable)
        (sym (leave_lem r e v b n)) (done, fired)
    where
      i : ℕ
      i = length e.timers

      timer : Timer
      timer = record { id = e.next_timer; session = e.sessions; kind = resetting }

      e1 : Editable
      e1 = set_timer resetting e

      e2 : Editable
      e2 = reset_element lib s e1

      parts :
          (e2.timers ≡ e1.timers) × (e2.is_bound ≡ e1.is_bound) × (e2.is_disabled ≡ e1.is_disabled)
      parts = reset_element_parts e1

      rest : Shows (shown lib s r) e2
      rest =
          subst (λ x. Shows (shown lib s x) e2) v.reverts
            (reset_element-Shows lib s e1 v.editing (y e1))

      ready : IsReady lib s t e2
      ready = record {
        is_bound = parts.1 ∙ p;
        enabled = parts.2 ∙ q;
        at_rest = rest.1;
        allowed = z e2;
      }

      late : HasReset i (edit lib s t m a e2).editable
      late =
          subst (λ o. HasReset i o.editable) (sym (edit_opens lib s t m a e2 ready))
            (open_form-HasReset i a (take_text lib s (measure s m e2)) (
              timer,
              ap (λ ts. get_elem? ts i) parts.0 ∙ get_elem?-append_last e.timers timer,
              refl,
            ))

      done : InEdit (kept lib s (shown lib s r)) (typing lib s t xs (edit lib s t m a e2).editable)
      done =
          typing-InEdit lib s t (kept lib s (shown lib s r)) xs (edit lib s t m a e2).editable
            (edit-InEdit lib s t m a e2 (shown lib s r) d rest.0 ready)

      fired :
          Shows
            (shown lib s (kept lib s (shown lib s r)))
            (step lib s t
              (timer_fires i)
              (typing lib s t xs (edit lib s t m a e2).editable)).editable
      fired =
          reset_fires i (kept lib s (shown lib s r))
            (typing lib s t xs (edit lib s t m a e2).editable) n y
            (typing-HasReset i xs (edit lib s t m a e2).editable late) done
