-- ===== src/Prelude/Keys.antt =====
-- Equality tests as an interface: Go's `comparable`.
use Prim.Native.Nat.{ℕ}
use mathlib.Core.Path.{◌≡◌}
use mathlib.Core.Logic.{◌↔◌}
use mathlib.Core.Bool.{Bool, true, ◌||◌, false}
use mathlib.Core.List.{List, [], ◌∷◌, ◌++◌}
use native.Mathlib.Omega.{arith}
use gorums.Prelude.Tests.{nat_beq, nat_beq_iff}

-- Types that Go's `==` compares.
pub record Comparable {ℓ} (K : Type ℓ) : Type ℓ where
  pub same : K → K → Bool
  pub same_iff : (k l : K) → (same k l ≡ true) ↔ (k ≡ l)

instance abbrev pub comparable_nat : Comparable ℕ
comparable_nat = record { same = nat_beq; same_iff = nat_beq_iff }

abbrev pub ◌==◌ {ℓ} : {K : Type ℓ} ⦃c : Comparable K⦄ → K → K → Bool
◌==◌ ⦃c⦄ k l = c.same k l

infix 50 ◌==◌
-- `slices.Contains`, `set.contains`.
abbrev pub contains {ℓ} : {A : Type ℓ} ⦃e : Comparable A⦄ → List A → A → Bool
contains [] a = false
contains (x ∷ xs) a = (x == a) || contains xs a

module _ {ℓ} {A : Type ℓ} ⦃e : Comparable A⦄ where
  pub contains-append :
      (xs ys : List A) (a : A) → contains xs a ≡ true → contains (xs ++ ys) a ≡ true
  contains-append [] ys a h = cc
  contains-append (x ∷ xs) ys a h = ground (arith, contains-append xs ys a)

  pub contains-last : (xs : List A) (a : A) → contains (xs ++ a ∷ []) a ≡ true
  contains-last [] a = ground (arith, e.same_iff a a)
  contains-last (x ∷ xs) a = ground (arith, contains-last xs a)
