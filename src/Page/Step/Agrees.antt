-- ===== src/Page/Step/Agrees.antt =====
-- What a page shows agrees with its cookies.
use Prim.Native.String.{String}
use mathlib.Core.Bool.{false≢true}
use nswall.Common.{
  ◌≡◌, refl, ap, sym, ◌∙◌, subst, Bool, true, false, List, [], ◌∷◌, ◌++◌, some, some_inj,
}
use nswall.Common.Texts.{is_text}
use nswall.Page.State.{Link, Sidebar, Portlet, Document}
use nswall.Page.Sidebar.{close_sidebar, open_sidebar}
use nswall.Page.Restore.{Preferences, ready, theme_href, Layout, restore_sidebar}
use nswall.Page.Restore.Known.{
  is_theme, is_layout, is_position, restore_theme_known, restore_layout_known,
  restore_position_known,
}

-- The style that a page has once its timers have fired.
abbrev pub settled : String → List String → String
settled href [] = href
settled href (t ∷ ts) = settled (theme_href t) ts

settled-append : (href t : String) (ts : List String) → settled href (ts ++ t ∷ []) ≡ theme_href t
settled-append href t [] = refl
settled-append href t (s ∷ ts) = settled-append (theme_href s) t ts

-- How the sidebar looks, whatever class its button has.
abbrev pub look : Sidebar → Sidebar
look s = record s { close_active = false }

abbrev pub closed_look : Sidebar
closed_look = record {
  is_closed = true;
  is_wide = true;
  open_shown = true;
  close_shown = false;
  boxes_shown = false;
  close_active = false;
}

abbrev pub open_look : Sidebar
open_look = record {
  is_closed = false;
  is_wide = false;
  open_shown = false;
  close_shown = true;
  boxes_shown = true;
  close_active = false;
}

-- The document, with the timers that are set for its style, shows the values of the cookies: the
-- themes, both states and both positions of the sidebar, and the six widths, but not `layout100`.
pub record Agrees (q : Preferences) (d : Document) (ts : List String) : Type 0 where
  pub closed : q.sidebar ≡ some "closed" → look d.sidebar ≡ closed_look
  pub opened : q.sidebar ≡ some "open" → look d.sidebar ≡ open_look
  pub themed :
      (t : String) → q.theme ≡ some t → is_theme t ≡ true → settled d.style_href ts ≡ theme_href t
  pub laid_out :
      (t : String)
      → q.layout ≡ some t
      → is_layout t ≡ true
      → (d.body_class ≡ t) × (d.is_fixed ≡ true)
  pub placed : (t : String) → q.position ≡ some t → is_position t ≡ true → d.body_id ≡ t

pub ready-Agrees : (m : Document) (q : Preferences) → Agrees q (ready m q) []
unfolding ready restore_sidebar close_sidebar open_sidebar
ready-Agrees m q = record {
  closed = λ e. rw e refl;
  opened = λ e. rw e refl;
  themed = λ t e k. rw e (restore_theme_known t m.style_href k);
  laid_out = λ t e k.
      let l =
        restore_layout_known t (record { body_class = m.body_class; is_fixed = m.is_fixed }) k in
      rw e (ap (λ (x : Layout). x.body_class) l, ap (λ (x : Layout). x.is_fixed) l);
  placed = λ t e k. rw e (restore_position_known t m.body_id k);
}

pub closed_not_open : ◌≡◌ {A = String} "closed" "open" → ⊥
closed_not_open h = false≢true (ap (λ (s : String). is_text s "open") h)

pub carry :
    {q q' : Preferences} {d : Document} {ts : List String} → q ≡ q' → Agrees q' d ts → Agrees q d ts
carry {q} {q'} {d} {ts} e a = subst (λ x. Agrees x d ts) (sym e) a

module _ {q : Preferences} {d : Document} {ts : List String} (a : Agrees q d ts) where
  pub chosen_sidebar :
      (v : String) (s : Sidebar)
      → (v ≡ "closed" → look s ≡ closed_look)
      → (v ≡ "open" → look s ≡ open_look)
      → Agrees (record q { sidebar = some v }) (record d { sidebar = s }) ts
  chosen_sidebar v s c o = record {
    closed = λ h. c (some_inj h);
    opened = λ h. o (some_inj h);
    themed = a.themed;
    laid_out = a.laid_out;
    placed = a.placed;
  }

  pub chosen_theme :
      (t : String) {xs : List Bool} {ls : List Link}
      → Agrees
          (record q { theme = some t })
          (record d { switchers = xs; theme_links = ls })
          (ts ++ t ∷ [])
  chosen_theme t = record {
    closed = a.closed;
    opened = a.opened;
    themed = λ s h k. settled-append d.style_href t ts ∙ ap theme_href (some_inj h);
    laid_out = a.laid_out;
    placed = a.placed;
  }

  pub chosen_layout :
      (t : String) {ls : List Link}
      → Agrees
          (record q { layout = some t })
          (record d { body_class = t; is_fixed = true; layout_links = ls })
          ts
  chosen_layout t = record {
    closed = a.closed;
    opened = a.opened;
    themed = a.themed;
    laid_out = λ s h k. (some_inj h, refl);
    placed = a.placed;
  }

  pub chosen_position :
      (t : String) {ls : List Link}
      → Agrees (record q { position = some t }) (record d { body_id = t; position_links = ls }) ts
  chosen_position t = record {
    closed = a.closed;
    opened = a.opened;
    themed = a.themed;
    laid_out = a.laid_out;
    placed = λ s h k. some_inj h;
  }

  -- What the document shows of the cookies is as it was.
  pub unchanged :
      {xs : List Bool} {ps : List Portlet} {x y : Bool}
      → Agrees q
          (record d { switchers = xs; portlets = ps; dialog_open = x; confirmation_open = y })
          ts
  unchanged = record {
    closed = a.closed;
    opened = a.opened;
    themed = a.themed;
    laid_out = a.laid_out;
    placed = a.placed;
  }

pub timer_fired :
    {q : Preferences} {d : Document} {ts : List String} (t : String)
    → Agrees q d (t ∷ ts)
    → Agrees q (record d { style_href = theme_href t }) ts
timer_fired t a = record {
  closed = a.closed;
  opened = a.opened;
  themed = a.themed;
  laid_out = a.laid_out;
  placed = a.placed;
}
