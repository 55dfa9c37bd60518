-- ===== src/Prelude/Go.antt =====
-- A Go function that may panic: the value that it returns, or the panic.
use mathlib.Core.Path.{◌≡◌}
use mathlib.Core.Bool.{Bool, true, false}

pub data Go {ℓ} (A : Type ℓ) : Type ℓ where
  returns : A → Go A
  panics : Go A

infixl 5 ◌>>=◌ ◌>>◌
abbrev pub ◌>>=◌ {ℓ κ} : {A : Type ℓ} {B : Type κ} → Go A → (A → Go B) → Go B
returns a >>= f = f a
panics >>= f = panics

abbrev pub ◌>>◌ {ℓ} : {B : Type ℓ} → Go (Unit {0}) → Go B → Go B
m >> k = m >>= λ _. k

-- `if b { panic(…) }`
abbrev pub panic_if : Bool → Go (Unit {0})
panic_if true = panics
panic_if false = returns tt

-- The function does not panic, and its value satisfies P.
abbrev pub Returns {ℓ} : {A : Type ℓ} → (A → Type 0) → Go A → Type 0
Returns P (returns a) = P a
Returns P panics = true ≡ false

pub Returns-bind {ℓ} :
    {A : Type ℓ} {B : Type ℓ} (P : A → Type 0) (Q : B → Type 0) (m : Go A) (f : A → Go B)
    → Returns P m
    → ((a : A) → P a → Returns Q (f a))
    → Returns Q (m >>= f)
Returns-bind P Q (returns a) f p k = k a p
Returns-bind P Q panics f p k = p

-- If the function returns, its value satisfies P.
abbrev pub IfReturns {ℓ} : {A : Type ℓ} → (A → Type 0) → Go A → Type 0
IfReturns P (returns a) = P a
IfReturns P panics = Unit

pub IfReturns-bind {ℓ} :
    {A : Type ℓ} {B : Type ℓ} (P : A → Type 0) (Q : B → Type 0) (m : Go A) (f : A → Go B)
    → IfReturns P m
    → ((a : A) → P a → IfReturns Q (f a))
    → IfReturns Q (m >>= f)
IfReturns-bind P Q (returns a) f p k = k a p
IfReturns-bind P Q panics f p k = tt

pub IfReturns-both {ℓ} :
    {A : Type ℓ} (P Q : A → Type 0) (m : Go A)
    → IfReturns P m
    → IfReturns Q m
    → IfReturns (λ a. P a × Q a) m
IfReturns-both P Q (returns a) p q = (p, q)
IfReturns-both P Q panics p q = tt
