-- ===== src/Editable/Group/Sticks.antt =====
-- The sizes of an element without a width stay in the settings of all elements.
use nswall.Common.{
  ℕ, ◌≡◌, refl, ap, sym, subst, ◌∙◌, true, false, ◌==◌, none, some, Option, List, [], ◌∷◌, arith,
  get_elem?, Option-cases, inl, inr,
}
use nswall.Common.Every.{Every}
use nswall.Common.Texts.{Text}
use nswall.Editable.State.{Editable, Size, pixels}
use nswall.Editable.Settings.{Library, Settings}
use nswall.Editable.Types.{InputType}
use nswall.Editable.Begin.{Measured, edit, measure, new_size, is_auto, take_text}
use nswall.Editable.Sound.{IsPlain}
use nswall.Editable.Step.{Event, edit_asked, step}
use nswall.Editable.Step.Cancels.{IsReady, edit_opens}
use nswall.Editable.Group.{Group, with_sizes, put_back, step_group, run_group}
use nswall.Editable.Group.Sizes.{is_wide, step-Keeps, open_form-Keeps}

module _ (lib : Library) (s : Settings) (t : InputType) where
  -- The sizes of the group.
  abbrev HasSizes : Size → Size → Group → Type 0
  HasSizes w h g = (g.width ≡ w) × (g.height ≡ h)

  group_lem :
      (i : ℕ) (ev : Event) (g : Group) (e : Editable)
      → get_elem? g.elements i ≡ some e
      → step_group lib s t i ev g ≡ put_back i g (step lib s t ev (with_sizes g e)).editable
  unfolding step_group
  group_lem i ev g e h =
      ap
        (λ o. elim o [
          | none ↦ g
          | some x ↦ put_back i g (step lib s t ev (with_sizes g x)).editable
        ])
        h

  missing_lem :
      (i : ℕ) (ev : Event) (g : Group)
      → get_elem? g.elements i ≡ none
      → step_group lib s t i ev g ≡ g
  unfolding step_group
  missing_lem i ev g h =
      ap
        (λ o. elim o [
          | none ↦ g
          | some x ↦ put_back i g (step lib s t ev (with_sizes g x)).editable
        ])
        h

  module _ (v : IsPlain t) where
    zero_edit :
        (m : Measured) (a : Option Text) (e : Editable)
        → (m.width == 0) ≡ true
        → IsReady lib s t e
        → ((edit lib s t m a e).editable.width ≡ pixels e.saved_width)
          × ((edit lib s t m a e).editable.height ≡ pixels e.saved_height)
    unfolding measure new_size take_text
    zero_edit m a e z r =
        let kept = open_form-Keeps lib s t v a (take_text lib s (measure s m e)) in
        subst
          (λ o.
            (o.editable.width ≡ pixels e.saved_width) × (o.editable.height ≡ pixels e.saved_height))
          (sym (edit_opens lib s t m a e r))
          (kept.0 ∙ ground (arith, z), kept.1 ∙ ground (arith, z))

    step_keeps :
        (i : ℕ) (ev : Event) (g : Group)
        → is_wide ev ≡ true
        → is_auto s.width ≡ false
        → is_auto s.height ≡ false
        → s.onerror ≡ none
        → HasSizes g.width g.height (step_group lib s t i ev g)
    step_keeps i ev g h j k n = elim (Option-cases (get_elem? g.elements i)) [
      | inl q ↦ subst (HasSizes g.width g.height) (sym (missing_lem i ev g q)) (refl, refl)
      | inr (e, q) ↦
          subst (HasSizes g.width g.height) (sym (group_lem i ev g e q))
            (step-Keeps lib s t v ev (with_sizes g e) h j k n)
    ]

    run_keeps :
        (evs : List (ℕ × Event)) (g : Group)
        → Every (λ x. is_wide x.1 ≡ true) evs
        → is_auto s.width ≡ false
        → is_auto s.height ≡ false
        → s.onerror ≡ none
        → HasSizes g.width g.height (run_group lib s t evs g)
    unfolding run_group
    run_keeps [] g h j k n = (refl, refl)
    run_keeps ((i, ev) ∷ evs) g h j k n =
        let first = step_keeps i ev g h.0 j k n in
        let later = run_keeps evs (step_group lib s t i ev g) h.1 j k n in
        (later.0 ∙ first.0, later.1 ∙ first.1)

    -- With explicit sizes, a type with the default plugin, buttons and reset, and no hook for errors: once
    -- an edit begins of an element that has no width, the sizes that this element had when the plugin was
    -- called are those of the settings for all elements of the call, whatever happens to these, as long as
    -- no other edit of an element without a width is asked for.
    pub zero_width_sticks :
        (i : ℕ) (m : Measured) (a : Option Text) (evs : List (ℕ × Event)) (g : Group) (e : Editable)
        → get_elem? g.elements i ≡ some e
        → m.width ≡ 0
        → IsReady lib s t (with_sizes g e)
        → is_auto s.width ≡ false
        → is_auto s.height ≡ false
        → s.onerror ≡ none
        → Every (λ x. is_wide x.1 ≡ true) evs
        → let g1 = run_group lib s t evs (step_group lib s t i (edit_asked m a) g) in
          (g1.width ≡ pixels e.saved_width) × (g1.height ≡ pixels e.saved_height)
    unfolding step
    zero_width_sticks i m a evs g e h z r j k n w =
        let began : HasSizes (pixels e.saved_width) (pixels e.saved_height)
            (step_group lib s t i (edit_asked m a) g) =
          subst (HasSizes (pixels e.saved_width) (pixels e.saved_height))
            (sym (group_lem i (edit_asked m a) g e h))
            (zero_edit m a (with_sizes g e) (ground (arith, z)) r) in
        let later = run_keeps evs (step_group lib s t i (edit_asked m a) g) w j k n in
        (later.0 ∙ began.0, later.1 ∙ began.1)
