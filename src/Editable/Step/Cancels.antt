-- ===== src/Editable/Step/Cancels.antt =====
-- What an edit that is given up leaves, and what throws or comes late.
use nswall.Common.{
  ◌≡◌, refl, ap, sym, ◌∙◌, subst, true, false, Option, none, List, [], ◌∷◌, arith, if◌then◌else◌,
  ◌==◌,
}
use nswall.Common.Texts.{Text, text_eq}
use nswall.Editable.State.{Form, html, in_form, Editable}
use nswall.Editable.Settings.{Library, Settings}
use nswall.Editable.Types.{InputType, element_of}
use nswall.Editable.Begin.{
  returned, Measured, html_of, is_placeholder, edit, measure, take_text, open_form, bare_form,
  ask_content, request_content, content_of, finished_form,
}
use nswall.Editable.Finish.{show_placeholder, show_tooltip, reset_element, reset_of}
use nswall.Editable.Step.{edit_asked, typed, key_pressed, type_text, step, with_form}
use nswall.Editable.Step.Returns.{filled}

-- The text that an element shows for `x`: a blank one is replaced by the placeholder.
abbrev pub shown : Library → Settings → Text → Text
shown lib s x = if text_eq (lib.trim x) [] then s.placeholder else x

-- The text of the element without the placeholder.
abbrev pub kept : Library → Settings → Text → Text
kept lib s h = if is_placeholder lib s h then [] else h

-- The element is edited, its form is in it, and `r` is what a reset shows.
pub record InEdit (r : Text) (e : Editable) : Type 0 where
  pub editing : e.editing ≡ true
  pub reverts : e.revert ≡ r
  pub form : Form
  pub holds : e.content ≡ in_form form

abbrev pub Shows : Text → Editable → Type 0
Shows x e = (e.content ≡ html x) × (e.editing ≡ false)

module _ (lib : Library) (s : Settings) where
  html_of_html : (x : Text) (e : Editable) → e.content ≡ html x → html_of lib e ≡ x
  unfolding html_of
  html_of_html x e h = ground (arith, h)

  pub show_placeholder_lem :
      (x : Text) (e : Editable) → Shows x e → Shows (shown lib s x) (show_placeholder lib s e)
  unfolding show_placeholder html_of
  show_placeholder_lem x e (h, k) = ground (arith, html_of_html x e h)

  show_tooltip-Shows : (x : Text) (e : Editable) → Shows x e → Shows x (show_tooltip s e)
  unfolding show_tooltip
  show_tooltip-Shows x e h = ground (arith, h)

  pub reset_element-Shows :
      (e : Editable)
      → e.editing ≡ true
      → s.onreset e ≡ true
      → Shows (shown lib s e.revert) (reset_element lib s e)
  unfolding reset_element
  reset_element-Shows e y z =
      let e1 = record e { content = html e.revert; editing = false } in
      let h : Shows (shown lib s e.revert) (show_placeholder lib s e1) =
        show_placeholder_lem e.revert e1 (refl, refl) in
      ground (arith, h, show_tooltip-Shows (shown lib s e.revert) (show_placeholder lib s e1) h)

  module _ (t : InputType) where
    abbrev pub typing : List Text → Editable → Editable
    typing [] e = e
    typing (x ∷ xs) e = typing xs (step lib s t (typed x) e).editable

    pub with_form_lem :
        (g : Form → Editable) (e : Editable) (f : Form)
        → e.content ≡ in_form f
        → with_form lib s t g e ≡ returned (g f)
    with_form_lem g e f h = ap (λ c. elim c [ html x ↦ returned e | in_form k ↦ returned (g k) ]) h

    pub typed-InEdit :
        (r x : Text) (e : Editable) → InEdit r e → InEdit r (step lib s t (typed x) e).editable
    unfolding step
    typed-InEdit r x e v =
        let e1 = record e { content = in_form (type_text x v.form) } in
        subst (λ o. InEdit r o.editable)
          (sym
            (with_form_lem (λ f. record e { content = in_form (type_text x f) }) e v.form v.holds))
          (record {
            editing = v.editing;
            reverts = v.reverts;
            form = type_text x v.form;
            holds = refl;
          })

    pub typing-InEdit :
        (r : Text) (xs : List Text) (e : Editable) → InEdit r e → InEdit r (typing xs e)
    typing-InEdit r [] e v = v
    typing-InEdit r (x ∷ xs) e v =
        typing-InEdit r xs (step lib s t (typed x) e).editable (typed-InEdit r x e v)

    -- The element may be edited: its event is bound and not disabled, and no edit is under way.
    pub record IsReady (e : Editable) : Type 0 where
      pub is_bound : e.is_bound ≡ true
      pub enabled : e.is_disabled ≡ false
      pub at_rest : e.editing ≡ false
      pub allowed : s.onedit e ≡ true

    pub edit_opens :
        (m : Measured) (a : Option Text) (e : Editable)
        → IsReady e
        → edit lib s t m a e ≡ open_form lib s t a (take_text lib s (measure s m e))
    unfolding edit
    edit_opens m a e v = ground (arith, v.is_bound, v.enabled, v.at_rest, v.allowed)

    taken :
        (m : Measured) (e : Editable) (h : Text)
        → e.content ≡ html h
        → (take_text lib s (measure s m e)).revert ≡ kept lib s h
    unfolding take_text measure
    taken m e h c = ground (arith, html_of_html h e c)

    ask_content_revert :
        (a : Option Text) (e : Editable)
        → ((ask_content s a e).revert ≡ e.revert) × ((ask_content s a e).editing ≡ e.editing)
    unfolding ask_content request_content
    ask_content_revert a e = ground arith

    pub edit-InEdit :
        (m : Measured) (a : Option Text) (e : Editable) (h : Text)
        → t.fill ≡ none
        → e.content ≡ html h
        → IsReady e
        → InEdit (kept lib s h) (edit lib s t m a e).editable
    unfolding open_form take_text
    edit-InEdit m a e h d c v =
        subst (λ o. InEdit (kept lib s h) o.editable) (sym (edit_opens m a e v)) opened
      where
        e0 : Editable
        e0 = take_text lib s (measure s m e)

        opened : InEdit (kept lib s h) (open_form lib s t a e0).editable
        opened =
            let (g, r) =
              filled lib s t d (ask_content s a e0) (content_of s a (ask_content s a e0))
                (bare_form s e0 (element_of t s e0)).input in
            rw (r, open_form)
              (record {
                editing = (ask_content_revert a e0).1;
                reverts = (ask_content_revert a e0).0 ∙ taken m e h c;
                form = finished_form s t (bare_form s e0 (element_of t s e0)) g;
                holds = refl;
              })

    pub reset_of-Shows :
        (r : Text) (e : Editable)
        → t.reset ≡ none
        → s.onreset e ≡ true
        → InEdit r e
        → Shows (shown lib s r) (reset_of lib s t e)
    unfolding reset_of
    reset_of-Shows r e n y v =
        rw (n, reset_of)
          (subst (λ x. Shows (shown lib s x) (reset_element lib s e)) v.reverts
            (reset_element-Shows e v.editing y))

    -- With a type that fills and resets by default, and a hook that lets resets pass: where an
    -- element that shows the text `h` is bound, enabled, not edited, and allowed to be edited, an
    -- edit of it, any texts typed, and the escape key leave it showing `h`, or the placeholder
    -- where `h` was that or blank, and not edited.
    pub escape_restores :
        (m : Measured) (a : Option Text) (xs : List Text) (e : Editable) (h : Text)
        → t.fill ≡ none
        → t.reset ≡ none
        → ((x : Editable) → s.onreset x ≡ true)
        → e.content ≡ html h
        → IsReady e
        → Shows
            (shown lib s (kept lib s h))
            (step lib s t
              (key_pressed 27)
              (typing xs (step lib s t (edit_asked m a) e).editable)).editable
    unfolding step
    escape_restores m a xs e h d n y c v =
        let e1 = typing xs (edit lib s t m a e).editable in
        let w : InEdit (kept lib s h) e1 =
          typing-InEdit (kept lib s h) xs (edit lib s t m a e).editable
            (edit-InEdit m a e h d c v) in
        subst (λ o. Shows (shown lib s (kept lib s h)) o.editable)
          (sym
            (with_form_lem (λ f. if 27 == 27 then reset_of lib s t e1 else e1) e1 w.form w.holds))
          (reset_of-Shows (kept lib s h) e1 n (y e1) w)
