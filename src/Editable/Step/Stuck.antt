-- ===== src/Editable/Step/Stuck.antt =====
-- An edit that throws.
use nswall.Common.{◌≡◌, refl, sym, ◌∙◌, subst, Bool, true, false, Option, none, some, [], arith}
use nswall.Common.Texts.{Text}
use nswall.Common.Result.{type_error}
use nswall.Editable.State.{Field, html, Editable}
use nswall.Editable.Settings.{Library, Settings}
use nswall.Editable.Types.{InputType, element_of, fill_of, select_fill}
use nswall.Editable.Begin.{
  returned, thrown, Measured, edit, measure, take_text, open_form, bare_form, ask_content,
  request_content, content_of,
}
use nswall.Editable.Step.{
  Event, edit_asked, typed, key_pressed, blurred, submitted, cancelled, step,
}
use nswall.Editable.Step.Cancels.{IsReady, edit_opens}

-- An event that the user makes on the element or its form.
abbrev pub is_of_user : Event → Bool
is_of_user (edit_asked m a) = true
is_of_user (typed x) = true
is_of_user (key_pressed code) = true
is_of_user blurred = true
is_of_user submitted = true
is_of_user cancelled = true
is_of_user _ = false

-- The server does not answer, or with a text that is no JSON.
abbrev pub IsUnreadable : Library → Option Text → Type 0
IsUnreadable lib a = elim a [ none ↦ Unit {0} | some r ↦ lib.parse_json r ≡ none ]

module _ (lib : Library) (s : Settings) (t : InputType) where
  unreadable_fill :
      (a : Option Text) (e : Editable) (f : Field)
      → t.fill ≡ some select_fill
      → s.load_url ≡ true
      → IsUnreadable lib a
      → fill_of t lib s e (content_of s a e) f ≡ type_error
  unfolding fill_of content_of select_fill
  unreadable_fill none e f d l h = rw (d, fill_of) (rw (l, content_of) refl)
  unreadable_fill (some r) e f d l h =
      rw (d, fill_of) (rw (l, content_of) (rw (h, select_fill) refl))

  open_form_throws :
      (a : Option Text) (e : Editable)
      → t.fill ≡ some select_fill
      → s.load_url ≡ true
      → IsUnreadable lib a
      → open_form lib s t a e ≡ thrown (ask_content s a e)
  unfolding open_form
  open_form_throws a e d l h =
      rw
        (
          unreadable_fill a (ask_content s a e) (bare_form s e (element_of t s e)).input d l h,
          open_form,
        )
        refl

  -- While an element is edited and holds a text, nothing that its user does changes it.
  edited_text_sticks :
      (ev : Event) (e : Editable) (x : Text)
      → is_of_user ev ≡ true
      → e.editing ≡ true
      → e.content ≡ html x
      → step lib s t ev e ≡ returned e
  unfolding step edit
  edited_text_sticks ev e x u h c = ground (arith, h, c)

  ask_content_parts :
      (a : Option Text) (e : Editable)
      → ((ask_content s a e).editing ≡ e.editing) × ((ask_content s a e).content ≡ e.content)
  unfolding ask_content request_content
  ask_content_parts a e = ground arith

  -- With the type 'select' and content that is loaded, in an element that may be edited: an edit
  -- whose load fails, or brings a text that is no JSON, throws. It leaves the element edited, but
  -- empty and without a form, so that no event of the user on it has an effect.
  pub unreadable_load_sticks :
      (m : Measured) (a : Option Text) (e : Editable) (ev : Event)
      → t.fill ≡ some select_fill
      → s.load_url ≡ true
      → IsUnreadable lib a
      → IsReady lib s t e
      → is_of_user ev ≡ true
      → let o = step lib s t (edit_asked m a) e in
        (o.threw ≡ true)
        × (o.editable.content ≡ html [])
        × (step lib s t ev o.editable ≡ returned o.editable)
  unfolding step take_text
  unreadable_load_sticks m a e ev d l h v u =
      let e1 = take_text lib s (measure s m e) in
      let (p, q) = ask_content_parts a e1 in
      subst
        (λ o.
          (o.threw ≡ true)
          × (o.editable.content ≡ html [])
          × (step lib s t ev o.editable ≡ returned o.editable))
        (sym (edit_opens lib s t m a e v ∙ open_form_throws a e1 d l h))
        (refl, q, edited_text_sticks ev (ask_content s a e1) [] u p q)
