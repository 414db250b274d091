-- ===== src/Page/Step/Clicks.antt =====
-- The marks of the links after a click and after a reload, and the link to the full width.
use Prim.Native.String.{String}
use nswall.Common.{
  ℕ, zero, suc, ◌≡◌, refl, ap, sym, ◌∙◌, true, false, List, [], ◌∷◌, some, map, arith, get_elem?,
  some_inj, Option-cases, inl, inr, ◌==◌, if◌then◌else◌,
}
use nswall.Common.Texts.{is_text, is_text_refl}
use nswall.Page.Sidebar.{toggle_portlet, click_portlet}
use nswall.Page.State.{Link, Portlet, Document, Browser, CookieJar, Page}
use nswall.Page.Links.{activate, mark, id_at}
use nswall.Page.Restore.{ready, Layout, restore_layout, restore_named}
use nswall.Page.Restore.Known.{is_layout}
use nswall.Page.Restore.Chosen.{layout_chosen}
use nswall.Page.Step.{layout_clicked, reloaded, load, click_layout, step}

inactive :
    (ls : List Link) (j : ℕ) (l : Link)
    → get_elem? (map (λ (x : Link). record x { active = false }) ls) j ≡ some l
    → l.active ≡ false
inactive [] j l e = cc
inactive (x ∷ ls) zero l e = sym (ap (λ (y : Link). y.active) (some_inj e))
inactive (x ∷ ls) (suc j) l e = inactive ls j l e

-- After a click on the link at `i` of a switch, a link of it is marked exactly if it is that one.
pub active-activate :
    (i : ℕ) (ls : List Link) (j : ℕ) (l : Link)
    → get_elem? (activate i ls) j ≡ some l
    → l.active ≡ (i == j)
unfolding activate
active-activate i [] j l e = cc
active-activate zero (x ∷ ls) zero l e =
    sym (ap (λ (y : Link). y.active) (some_inj e)) ∙ ground arith
active-activate zero (x ∷ ls) (suc j) l e = inactive ls j l e ∙ ground arith
active-activate (suc i) (x ∷ ls) zero l e =
    sym (ap (λ (y : Link). y.active) (some_inj e)) ∙ ground arith
active-activate (suc i) (x ∷ ls) (suc j) l e = active-activate i ls j l e ∙ ground arith

-- After a reload every link of a switch with the id that its cookie names is marked, also where
-- several have that id.
pub active-mark :
    (s : String) (ls : List Link) (j : ℕ) (l : Link)
    → get_elem? (mark (some s) ls) j ≡ some l
    → l.id ≡ s
    → l.active ≡ true
unfolding mark
active-mark s [] j l e h = cc
active-mark s (x ∷ ls) zero l e h =
    let same : is_text x.id s ≡ true =
      ap (λ (y : String). is_text y s) (ap (λ (y : Link). y.id) (some_inj e) ∙ h)
      ∙ is_text_refl s in
    sym (ap (λ (y : Link). y.active) (some_inj e)) ∙ ground (arith, same)
active-mark s (x ∷ ls) (suc j) l e h = active-mark s ls j l e h

restore_layout_unknown :
    (t : String) (l : Layout)
    → is_layout t ≡ false
    → (restore_layout (some t) l).is_fixed ≡ (if is_text t "layout100" then false else l.is_fixed)
unfolding restore_layout restore_named
restore_layout_unknown t l h = ground arith

module _ {Jar : Type 0} (cookie : CookieJar Jar) (browser : Browser) (m : Document) where
  -- A click on a link whose id is none of the six widths (that to the full width has an empty one)
  -- makes the page fixed, but after a reload a page that the server sends fluid is fluid.
  pub full_width_differs :
      (p : Page Jar) (i : ℕ) (t : String)
      → id_at p.document.layout_links i ≡ some t
      → is_layout t ≡ false
      → m.is_fixed ≡ false
      → ((step cookie browser m (layout_clicked i) p).document.is_fixed ≡ true)
        × ((step cookie browser m reloaded
              (step cookie browser m (layout_clicked i) p)).document.is_fixed
            ≡ false)
  unfolding step click_layout load ready
  full_width_differs p i t e u f =
      rw (e, click_layout)
        (
          refl,
          rw (layout_chosen cookie t p.cookies) (
              restore_layout_unknown t (record { body_class = m.body_class; is_fixed = m.is_fixed })
                u
              ∙ ground (arith, f)),
        )

toggle_portlet-toggle_portlet : (p : Portlet) → toggle_portlet (toggle_portlet p) ≡ p
unfolding toggle_portlet
toggle_portlet-toggle_portlet p = ground arith

click_portlet_cons :
    (i : ℕ) (p : Portlet) (ps : List Portlet)
    → click_portlet (suc i) (p ∷ ps) ≡ p ∷ click_portlet i ps
unfolding click_portlet
click_portlet_cons i p ps = elim (Option-cases (get_elem? ps i)) [
  | inl e ↦ rw (e, click_portlet) refl
  | inr (q, e) ↦ rw (e, click_portlet) refl
]

-- A second click on a portlet's icon undoes the first, for the icon and the content of each portlet.
pub click_portlet-click_portlet :
    (i : ℕ) (ps : List Portlet) → click_portlet i (click_portlet i ps) ≡ ps
unfolding click_portlet
click_portlet-click_portlet i [] = refl
click_portlet-click_portlet zero (p ∷ ps) = ap (λ q. q ∷ ps) (toggle_portlet-toggle_portlet p)
click_portlet-click_portlet (suc i) (p ∷ ps) =
    ap (click_portlet (suc i)) (click_portlet_cons i p ps)
    ∙ click_portlet_cons i p (click_portlet i ps)
    ∙ ap (λ qs. p ∷ qs) (click_portlet-click_portlet i ps)
