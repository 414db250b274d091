-- ===== src/Editable/Step/Answers.antt =====
-- The answers of the server and the timers do what the promise to the user allows.
use nswall.Common.{
  ℕ, zero, suc, ◌≡◌, refl, ap, sym, subst, true, Option, none, some, [], arith, get_elem?,
}
use nswall.Common.Texts.{Text}
use nswall.Editable.State.{Timer, Editable}
use nswall.Editable.Settings.{Library, Settings}
use nswall.Editable.Types.{InputType}
use nswall.Editable.Begin.{Outcome, returned, html_of}
use nswall.Editable.Finish.{reset_of, clear_timer, succeed, fail}
use nswall.Editable.Sound.{IsSound, IsPlain}
use nswall.Editable.Step.{Event, timer_fires, save_succeeds, save_fails, fire, step}
use nswall.Editable.Step.Cancels.{shown}
use nswall.Editable.Step.Saves.{succeed_lem}
use nswall.Editable.Spec.{phase_of, May, answered}
use nswall.Editable.Step.Phases.{Shows-resting}
use nswall.Editable.Step.Saves.{succeeds_lem, fails_lem}
use nswall.Editable.Step.Fires.{same-May, reset_of-May, fire-May}

module _ (lib : Library) (s : Settings) (t : InputType) (v : IsPlain t) where
  abbrev Done : Event → Editable → Outcome → Type 0
  Done ev e o = May lib s ev (phase_of lib e) (phase_of lib o.editable)

  unanswered :
      (r : Text) (e : Editable)
      → e.requests ≡ 0
      → (step lib s t (save_succeeds r) e ≡ returned e) × (step lib s t save_fails e ≡ returned e)
  unfolding step
  unanswered r e h = (
    ap
        (λ k. elim k [
          | zero ↦ returned e
          | suc j ↦ returned (succeed lib s r (record e { requests = j }))
        ])
        h,
    ap
        (λ k. elim k [
          | zero ↦ returned e
          | suc j ↦ returned (fail lib s t (record e { requests = j }))
        ])
        h,
  )

  stays-Done : (ev : Event) (e : Editable) (o : Outcome) → o ≡ returned e → Done ev e o
  stays-Done ev e o h = same-May lib s t v ev e o.editable (ap (λ x. phase_of lib x.editable) h)

  pub answer-May :
      (r : Text) (e : Editable)
      → s.data_type_html ≡ true
      → Done (save_succeeds r) e (step lib s t (save_succeeds r) e)
  answer-May r e y = on e.requests refl
    where
      on : (n : ℕ) → e.requests ≡ n → Done (save_succeeds r) e (step lib s t (save_succeeds r) e)
      on zero h =
          stays-Done (save_succeeds r) e (step lib s t (save_succeeds r) e) (unanswered r e h).0
      on (suc n) h =
          let e1 = record e { requests = n } in
          let shows =
            Shows-resting lib s (shown lib s r) (succeed lib s r e1)
              (succeed_lem lib s t r e1 y).0 in
          subst (Done (save_succeeds r) e) (sym (succeeds_lem lib s t r n e h)) (
            subst (May lib s (save_succeeds r) (phase_of lib e)) (sym shows)
              (answered r (phase_of lib e)))

  plain_fail : (e : Editable) → s.onerror ≡ none → fail lib s t e ≡ reset_of lib s t e
  unfolding fail
  plain_fail e n = ground (arith, n)

  pub error-May : (e : Editable) → s.onerror ≡ none → Done save_fails e (step lib s t save_fails e)
  unfolding html_of
  error-May e n = on e.requests refl
    where
      on : (k : ℕ) → e.requests ≡ k → Done save_fails e (step lib s t save_fails e)
      on zero h = stays-Done save_fails e (step lib s t save_fails e) (unanswered [] e h).1
      on (suc k) h = subst (Done save_fails e) (sym (fails_lem lib s t k e h)) (
          subst (λ x. Done save_fails e (returned x))
            (sym (plain_fail (record e { requests = k }) n))
            (reset_of-May lib s t v save_fails (record e { requests = k }) refl))

  pub timer-May :
      (i : ℕ) (e : Editable) → IsSound e → Done (timer_fires i) e (step lib s t (timer_fires i) e)
  unfolding step html_of
  timer-May i e w = on (get_elem? e.timers i) refl
    where
      run : Option Timer → Outcome
      run o = elim o [
        | none ↦ returned e
        | some timer ↦ fire lib s t timer (record e { timers = clear_timer timer.id e.timers })
      ]

      on :
          (o : Option Timer)
          → get_elem? e.timers i ≡ o
          → Done (timer_fires i) e (step lib s t (timer_fires i) e)
      on none q = stays-Done (timer_fires i) e (step lib s t (timer_fires i) e) (ap run q)
      on (some timer) q =
          subst (Done (timer_fires i) e) (sym (ap run q))
            (fire-May lib s t v i timer (record e { timers = clear_timer timer.id e.timers }) w)
