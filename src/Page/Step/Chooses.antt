-- ===== src/Page/Step/Chooses.antt =====
-- The cookies remember the last choice of each kind, and a reload restores the page from them.
use Prim.Native.String.{String}
use nswall.Common.{
  ℕ, ◌≡◌, refl, ap, ◌∙◌, List, [], ◌∷◌, Option, none, some, Option-cases, inl, inr, arith,
}
use nswall.Page.State.{Link, Document, Browser, CookieJar, Page}
use nswall.Page.Links.{activate, id_at}
use nswall.Page.Restore.Chosen.{theme_chosen, sidebar_chosen, layout_chosen, position_chosen}
use nswall.Page.Links.Ids.{id_at-activate, id_at-mark}
use nswall.Page.Restore.{Preferences, preferences, ready}
use nswall.Page.Step.{
  Event, close_clicked, open_clicked, theme_clicked, layout_clicked, position_clicked,
  portlet_clicked, hide_timer_fires, style_timer_fires, reloaded, dialog_link_clicked,
  dialog_button_clicked, confirmation_link_clicked, confirmation_button_clicked, load, click_close,
  click_open, click_theme, click_layout, click_position, fire_hide, fire_style, step, run,
}

abbrev choose_at : Option String → Preferences → (String → Preferences) → Preferences
choose_at none p f = p
choose_at (some s) p f = f s

-- The choice that an event makes, from the links of the document that the server sends.
abbrev pub choose : Document → Event → Preferences → Preferences
choose m close_clicked p = record p { sidebar = some "closed" }
choose m open_clicked p = record p { sidebar = some "open" }
choose m (theme_clicked i) p = choose_at (id_at m.theme_links i) p λ s. record p { theme = some s }
choose m (layout_clicked i) p =
    choose_at (id_at m.layout_links i) p λ s. record p { layout = some s }
choose m (position_clicked i) p =
    choose_at (id_at m.position_links i) p λ s. record p { position = some s }
choose m _ p = p

abbrev pub choices : Document → List Event → Preferences → Preferences
choices m [] p = p
choices m (e ∷ es) p = choices m es (choose m e p)

-- The document has the links of `m`, in the same order.
pub record HasLinks (m d : Document) : Type 0 where
  pub themes : (i : ℕ) → id_at d.theme_links i ≡ id_at m.theme_links i
  pub layouts : (i : ℕ) → id_at d.layout_links i ≡ id_at m.layout_links i
  pub positions : (i : ℕ) → id_at d.position_links i ≡ id_at m.position_links i

module _ {Jar : Type 0} (cookie : CookieJar Jar) (browser : Browser) (m : Document) where
  abbrev pub of : Page Jar → Preferences
  of p = preferences cookie p.cookies

  pub ready-HasLinks : (q : Preferences) → HasLinks m (ready m q)
  unfolding ready
  ready-HasLinks q = record {
    themes = λ i. id_at-mark q.theme m.theme_links i;
    layouts = λ i. id_at-mark q.layout m.layout_links i;
    positions = λ i. id_at-mark q.position m.position_links i;
  }

  activated :
      (k : ℕ) (ls ms : List Link)
      → ((i : ℕ) → id_at ls i ≡ id_at ms i)
      → (i : ℕ) → id_at (activate k ls) i ≡ id_at ms i
  activated k ls ms e i = id_at-activate k ls i ∙ e i

  HasLinks-same :
      (d d' : Document)
      → d'.theme_links ≡ d.theme_links
      → d'.layout_links ≡ d.layout_links
      → d'.position_links ≡ d.position_links
      → HasLinks m d
      → HasLinks m d'
  HasLinks-same d d' e f g v = record {
    themes = λ i. ap (λ ls. id_at ls i) e ∙ v.themes i;
    layouts = λ i. ap (λ ls. id_at ls i) f ∙ v.layouts i;
    positions = λ i. ap (λ ls. id_at ls i) g ∙ v.positions i;
  }

  pub step-HasLinks :
      (e : Event) (p : Page Jar)
      → HasLinks m p.document
      → HasLinks m (step cookie browser m e p).document
  unfolding step click_close click_open fire_hide fire_style click_theme click_layout click_position
  step-HasLinks close_clicked p v = HasLinks-same p.document _ refl refl refl v
  step-HasLinks open_clicked p v = HasLinks-same p.document _ refl refl refl v
  step-HasLinks (theme_clicked i) p v = elim (Option-cases (id_at p.document.theme_links i)) [
    | inl e ↦ rw (e, click_theme) v
    | inr (s, e) ↦
        rw (e, click_theme)
          (record {
            themes = activated i p.document.theme_links m.theme_links v.themes;
            layouts = v.layouts;
            positions = v.positions;
          })
  ]
  step-HasLinks (layout_clicked i) p v = elim (Option-cases (id_at p.document.layout_links i)) [
    | inl e ↦ rw (e, click_layout) v
    | inr (s, e) ↦
        rw (e, click_layout)
          (record {
            themes = v.themes;
            layouts = activated i p.document.layout_links m.layout_links v.layouts;
            positions = v.positions;
          })
  ]
  step-HasLinks (position_clicked i) p v = elim (Option-cases (id_at p.document.position_links i)) [
    | inl e ↦ rw (e, click_position) v
    | inr (s, e) ↦
        rw (e, click_position)
          (record {
            themes = v.themes;
            layouts = v.layouts;
            positions = activated i p.document.position_links m.position_links v.positions;
          })
  ]
  step-HasLinks (portlet_clicked i) p v = HasLinks-same p.document _ refl refl refl v
  step-HasLinks hide_timer_fires p v = ground arith
  step-HasLinks style_timer_fires p v = ground arith
  step-HasLinks reloaded p v = ready-HasLinks (preferences cookie p.cookies)
  step-HasLinks dialog_link_clicked p v = HasLinks-same p.document _ refl refl refl v
  step-HasLinks dialog_button_clicked p v = HasLinks-same p.document _ refl refl refl v
  step-HasLinks confirmation_link_clicked p v = HasLinks-same p.document _ refl refl refl v
  step-HasLinks confirmation_button_clicked p v = HasLinks-same p.document _ refl refl refl v

  pub step-choose :
      (e : Event) (p : Page Jar)
      → HasLinks m p.document
      → of (step cookie browser m e p) ≡ choose m e (of p)
  unfolding step click_close click_open fire_hide fire_style click_theme click_layout click_position
      load
  step-choose close_clicked p v = sidebar_chosen cookie "closed" p.cookies
  step-choose open_clicked p v = sidebar_chosen cookie "open" p.cookies
  step-choose (theme_clicked i) p v = elim (Option-cases (id_at p.document.theme_links i)) [
    | inl e ↦ rw (← v.themes i, e, click_theme) refl
    | inr (s, e) ↦ rw (← v.themes i, e, click_theme) (theme_chosen cookie s p.cookies)
  ]
  step-choose (layout_clicked i) p v = elim (Option-cases (id_at p.document.layout_links i)) [
    | inl e ↦ rw (← v.layouts i, e, click_layout) refl
    | inr (s, e) ↦ rw (← v.layouts i, e, click_layout) (layout_chosen cookie s p.cookies)
  ]
  step-choose (position_clicked i) p v = elim (Option-cases (id_at p.document.position_links i)) [
    | inl e ↦ rw (← v.positions i, e, click_position) refl
    | inr (s, e) ↦ rw (← v.positions i, e, click_position) (position_chosen cookie s p.cookies)
  ]
  step-choose (portlet_clicked i) p v = refl
  step-choose hide_timer_fires p v = ground arith
  step-choose style_timer_fires p v = ground arith
  step-choose reloaded p v = refl
  step-choose dialog_link_clicked p v = refl
  step-choose dialog_button_clicked p v = refl
  step-choose confirmation_link_clicked p v = refl
  step-choose confirmation_button_clicked p v = refl

  -- Whatever happens to a page with the links of `m`, its cookies hold the last choice of each kind.
  pub run-choices :
      (es : List Event) (p : Page Jar)
      → HasLinks m p.document
      → of (run cookie browser m es p) ≡ choices m es (of p)
  unfolding run
  run-choices [] p v = refl
  run-choices (e ∷ es) p v =
      run-choices es (step cookie browser m e p) (step-HasLinks e p v)
      ∙ ap (choices m es) (step-choose e p v)

  -- Whatever happened to a page that had the links of the document `m` which the server sends, in
  -- the same order, a reload shows `m` with the last choice of each kind restored.
  pub reload_restores :
      (es : List Event) (p : Page Jar)
      → HasLinks m p.document
      → (step cookie browser m reloaded (run cookie browser m es p)).document
        ≡ ready m (choices m es (preferences cookie p.cookies))
  unfolding step load
  reload_restores es p v = ap (ready m) (run-choices es p v)
