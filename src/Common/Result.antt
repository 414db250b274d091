-- ===== src/Common/Result.antt =====
-- Code that may throw. The one exception that the modelled code can meet is the `TypeError` of a
-- property read on `undefined`.
use nswall.Common.{◌≡◌, refl, Option, none, some}

pub data Result {ℓ} (A : Type ℓ) : Type ℓ where
  ok : A → Result A
  type_error : Result A

infixl 5 ◌>>=◌
abbrev pub ◌>>=◌ {ℓ κ} : {A : Type ℓ} {B : Type κ} → Result A → (A → Result B) → Result B
ok a >>= f = f a
type_error >>= f = type_error

-- The value that a read gives, where the code then reads one of its properties.
abbrev pub defined {ℓ} : {A : Type ℓ} → Option A → Result A
defined none = type_error
defined (some a) = ok a

-- A predicate of the value that the code returns; a throw does not satisfy it.
abbrev pub Returns {ℓ} : {A : Type ℓ} → (A → Type 0) → Result A → Type 0
Returns P (ok a) = P a
Returns P type_error = ⊥

pub Returns-bind {ℓ κ} :
    {A : Type ℓ} {B : Type κ} (P : A → Type 0) (Q : B → Type 0) (m : Result A) (f : A → Result B)
    → Returns P m
    → ((a : A) → P a → Returns Q (f a))
    → Returns Q (m >>= f)
Returns-bind P Q (ok a) f h k = k a h
Returns-bind P Q type_error f h k = absurd h

pub Returns-mono {ℓ} :
    {A : Type ℓ} (P Q : A → Type 0) (m : Result A)
    → Returns P m
    → ((a : A) → P a → Q a)
    → Returns Q m
Returns-mono P Q (ok a) h k = k a h
Returns-mono P Q type_error h k = absurd h

-- What a satisfied postcondition says of the call.
pub Returns-ok {ℓ} :
    {A : Type ℓ} (P : A → Type 0) (m : Result A) → Returns P m → (a : A) × (m ≡ ok a) × P a
Returns-ok P (ok a) h = (a, refl, h)
Returns-ok P type_error h = absurd h

-- Where the code returns.
abbrev pub IfReturns {ℓ} : {A : Type ℓ} → (A → Type 0) → Result A → Type 0
IfReturns P (ok a) = P a
IfReturns P type_error = Unit

pub IfReturns-bind {ℓ κ} :
    {A : Type ℓ} {B : Type κ} (P : A → Type 0) (Q : B → Type 0) (m : Result A) (f : A → Result B)
    → IfReturns P m
    → ((a : A) → P a → IfReturns Q (f a))
    → IfReturns Q (m >>= f)
IfReturns-bind P Q (ok a) f h k = k a h
IfReturns-bind P Q type_error f h k = tt

pub IfReturns-of {ℓ} : {A : Type ℓ} (P : A → Type 0) (m : Result A) → Returns P m → IfReturns P m
IfReturns-of P (ok a) h = h
IfReturns-of P type_error h = tt

pub IfReturns-mono {ℓ} :
    {A : Type ℓ} (P Q : A → Type 0) (m : Result A)
    → IfReturns P m
    → ((a : A) → P a → Q a)
    → IfReturns Q m
IfReturns-mono P Q (ok a) h k = k a h
IfReturns-mono P Q type_error h k = tt

pub Returns-and {ℓ} :
    {A : Type ℓ} (P Q : A → Type 0) (m : Result A)
    → Returns P m
    → IfReturns Q m
    → Returns (λ a. P a × Q a) m
Returns-and P Q (ok a) h k = (h, k)
Returns-and P Q type_error h k = absurd h
