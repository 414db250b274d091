-- ===== src/Page/Restore/Known.antt =====
-- What the tests of the cookies do with the values that the links of the pages set.
use Prim.Native.String.{String}
use nswall.Common.{◌≡◌, refl, sym, subst, Bool, true, some, ◌||◌, inl, inr, Bool-cases}
use nswall.Common.Texts.{is_text, is_text→≡}
use nswall.Page.Restore.{
  theme_href, restore_theme, Layout, restore_named, restore_layout, restore_position,
}

abbrev pub is_theme : String → Bool
is_theme t =
    is_text t "black_rose"
    || (is_text t "gray_standard"
        || (is_text t "gray_lightness" || (is_text t "blueberry" || is_text t "apple_pie")))

abbrev pub is_layout : String → Bool
is_layout t =
    is_text t "layout90"
    || (is_text t "layout75"
        || (is_text t "layout980"
            || (is_text t "layout1280" || (is_text t "layout1400" || is_text t "layout1600"))))

abbrev pub is_position : String → Bool
is_position t = is_text t "sidebar-left" || is_text t "sidebar-right"

-- One of several tests of a text is met by its name, or one of the others.
either {ℓ} :
    (P : String → Type ℓ) (t name : String) (rest : Bool)
    → (is_text t name || rest) ≡ true
    → P name
    → (rest ≡ true → P t)
    → P t
either P t name rest h here there = elim (Bool-cases (is_text t name)) [
  | inl y ↦ subst P (sym (is_text→≡ y)) here
  | inr z ↦ there (simp z at h)
]

only {ℓ} : (P : String → Type ℓ) (t name : String) → is_text t name ≡ true → P name → P t
only P t name h here = subst P (sym (is_text→≡ h)) here

pub restore_theme_known :
    (t href : String) → is_theme t ≡ true → restore_theme (some t) href ≡ theme_href t
unfolding restore_theme theme_href
restore_theme_known t href h = either P t "black_rose" _ h refl λ h1.
    either P t "gray_standard" _ h1 refl λ h2.
      either P t "gray_lightness" _ h2 refl
        λ h3. either P t "blueberry" _ h3 refl λ h4. only P t "apple_pie" h4 refl
  where
    P : String → Type 0
    P s = restore_theme (some s) href ≡ theme_href s

pub restore_layout_known :
    (t : String) (l : Layout)
    → is_layout t ≡ true
    → restore_layout (some t) l ≡ record { body_class = t; is_fixed = true }
unfolding restore_layout restore_named
restore_layout_known t l h = either P t "layout90" _ h refl λ h1.
    either P t "layout75" _ h1 refl λ h2. either P t "layout980" _ h2 refl λ h3.
      either P t "layout1280" _ h3 refl
        λ h4. either P t "layout1400" _ h4 refl λ h5. only P t "layout1600" h5 refl
  where
    P : String → Type 0
    P s = restore_layout (some s) l ≡ record { body_class = s; is_fixed = true }

pub restore_position_known :
    (t id : String) → is_position t ≡ true → restore_position (some t) id ≡ t
unfolding restore_position
restore_position_known t id h =
    either P t "sidebar-left" _ h refl λ h1. only P t "sidebar-right" h1 refl
  where
    P : String → Type 0
    P s = restore_position (some s) id ≡ s
