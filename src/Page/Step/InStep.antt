-- ===== src/Page/Step/InStep.antt =====
-- A page stays in agreement with its cookies, whatever happens to it.
use Prim.Native.String.{String}
use nswall.Common.{ℕ, zero, suc, ◌≡◌, refl, sym, subst, List, [], ◌∷◌, Option-cases, inl, inr}
use nswall.Page.State.{Document, Browser, CookieJar, Page}
use nswall.Page.Sidebar.{close_sidebar, open_sidebar, mark_close}
use nswall.Page.Links.{id_at}
use nswall.Page.Restore.{preferences}
use nswall.Page.Step.{
  Event, close_clicked, open_clicked, theme_clicked, layout_clicked, position_clicked,
  portlet_clicked, hide_timer_fires, style_timer_fires, reloaded, dialog_link_clicked,
  dialog_button_clicked, confirmation_link_clicked, confirmation_button_clicked, load, click_close,
  click_open, click_theme, click_layout, click_position, fire_hide, fire_style, step, run,
}
use nswall.Page.Restore.Chosen.{theme_chosen, sidebar_chosen, layout_chosen, position_chosen}
use nswall.Page.Step.Agrees.{
  Agrees, carry, chosen_sidebar, chosen_theme, chosen_layout, chosen_position, unchanged,
  timer_fired, ready-Agrees, closed_not_open,
}

module _ {Jar : Type 0} (cookie : CookieJar Jar) (browser : Browser) (m : Document) where
  -- A page whose document agrees with its cookies.
  abbrev pub IsInStep : Page Jar → Type 0
  IsInStep p = Agrees (preferences cookie p.cookies) p.document p.style_timers

  fire_hide-IsInStep : (p : Page Jar) → IsInStep p → IsInStep (fire_hide cookie browser m p)
  unfolding fire_hide
  fire_hide-IsInStep p a = on p.hide_timers refl
    where
      on : (n : ℕ) → p.hide_timers ≡ n → IsInStep (fire_hide cookie browser m p)
      on zero e = rw (e, fire_hide) a
      on (suc n) e = rw (e, fire_hide) (unchanged a)

  fire_style-IsInStep : (p : Page Jar) → IsInStep p → IsInStep (fire_style cookie browser m p)
  unfolding fire_style
  fire_style-IsInStep p a = on p.style_timers refl
    where
      on : (ts : List String) → p.style_timers ≡ ts → IsInStep (fire_style cookie browser m p)
      on [] e = rw (e, fire_style) a
      on (t ∷ ts) e = rw (e, fire_style) (timer_fired t (subst (Agrees _ _) e a))

  -- Whatever happens to a page, its document goes on agreeing with its cookies.
  pub step-IsInStep : (e : Event) (p : Page Jar) → IsInStep p → IsInStep (step cookie browser m e p)
  unfolding step click_close click_open click_theme click_layout click_position load mark_close
      close_sidebar open_sidebar
  step-IsInStep close_clicked p a = carry (sidebar_chosen cookie "closed" p.cookies) (
      chosen_sidebar a "closed" (mark_close (close_sidebar p.document.sidebar)) (λ _. refl)
        λ h. absurd (closed_not_open h))
  step-IsInStep open_clicked p a = carry (sidebar_chosen cookie "open" p.cookies) (
      chosen_sidebar a "open" (open_sidebar p.document.sidebar)
        (λ h. absurd (closed_not_open (sym h))) λ _. refl)
  step-IsInStep (theme_clicked i) p a = elim (Option-cases (id_at p.document.theme_links i)) [
    | inl e ↦ rw (e, click_theme) a
    | inr (t, e) ↦ rw (e, click_theme) (carry (theme_chosen cookie t p.cookies) (chosen_theme a t))
  ]
  step-IsInStep (layout_clicked i) p a = elim (Option-cases (id_at p.document.layout_links i)) [
    | inl e ↦ rw (e, click_layout) a
    | inr (t, e) ↦
        rw (e, click_layout) (carry (layout_chosen cookie t p.cookies) (chosen_layout a t))
  ]
  step-IsInStep (position_clicked i) p a = elim (Option-cases (id_at p.document.position_links i)) [
    | inl e ↦ rw (e, click_position) a
    | inr (t, e) ↦
        rw (e, click_position) (carry (position_chosen cookie t p.cookies) (chosen_position a t))
  ]
  step-IsInStep (portlet_clicked i) p a = unchanged a
  step-IsInStep hide_timer_fires p a = fire_hide-IsInStep p a
  step-IsInStep style_timer_fires p a = fire_style-IsInStep p a
  step-IsInStep reloaded p a = ready-Agrees m (preferences cookie p.cookies)
  step-IsInStep dialog_link_clicked p a = unchanged a
  step-IsInStep dialog_button_clicked p a = unchanged a
  step-IsInStep confirmation_link_clicked p a = unchanged a
  step-IsInStep confirmation_button_clicked p a = unchanged a

  run-IsInStep :
      (es : List Event) (p : Page Jar) → IsInStep p → IsInStep (run cookie browser m es p)
  unfolding run
  run-IsInStep [] p a = a
  run-IsInStep (e ∷ es) p a = run-IsInStep es (step cookie browser m e p) (step-IsInStep e p a)

  -- After any events since the page was loaded, the document, once the timers have fired, shows what its
  -- cookies hold, where that is a theme that the program tests for, an open or closed sidebar, one of the
  -- two positions of the sidebar, or one of the six widths of a fixed layout. Nothing is said of the
  -- width `layout100`, for which it tests too.
  pub run-load-IsInStep :
      (es : List Event) (jar : Jar) → IsInStep (run cookie browser m es (load cookie browser m jar))
  unfolding load
  run-load-IsInStep es jar = run-IsInStep es _ (ready-Agrees m (preferences cookie jar))
