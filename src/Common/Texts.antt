-- ===== src/Common/Texts.antt =====
-- Texts: names, which are compared as a whole, and texts that the code walks through.
use Prim.Native.String.{String}
use text.Mathlib.Text.{◌==◌}
use text.Mathlib.TextEquality.{eq_iff}
use text.Mathlib.TextPositions.{eq_refl}
use nswall.Common.{
  ℕ, ◌≡◌, refl, Bool, true, false, ◌&&◌, List, [], ◌∷◌, ◌==◌ as eq_ℕ, arith, Option, none, some,
}

abbrev pub is_text : String → String → Bool
is_text s t = s == t

pub is_text_refl : (s : String) → is_text s s ≡ true
is_text_refl s = eq_refl s

pub is_text→≡ : {s t : String} → is_text s t ≡ true → s ≡ t
is_text→≡ {s} {t} e = (eq_iff s t).0 e

-- A text is the list of its code points.
abbrev pub Text : Type 0
Text = List ℕ

unfoldable pub text_eq : Text → Text → Bool
text_eq [] [] = true
text_eq (c ∷ s) (d ∷ t) = eq_ℕ c d && text_eq s t
text_eq _ _ = false

pub text_eq_refl : (t : Text) → text_eq t t ≡ true
unfolding text_eq
text_eq_refl [] = refl
text_eq_refl (c ∷ t) = ground (arith, text_eq_refl t)

-- What a test of an optional setting finds: `undefined` and the empty text are false.
abbrev pub is_given : Option Text → Bool
is_given none = false
is_given (some []) = false
is_given (some (c ∷ t)) = true
