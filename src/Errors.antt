-- ===== src/Errors.antt =====
-- The errors of the runtime: internal/impl/errors.go, internal/stream/errors.go and
-- internal/conn/errors.go. A Go `error` is an `Option Error`, with `none` for nil.
use native.Mathlib.Decide.{ℕ_discrete}
use gorums.Prelude.{ℕ, ◌≡◌, refl, ◌↔◌, Bool, true, false, Option, none, some, List, Comparable}

-- The status codes that the runtime distinguishes; `other_code` is any other.
pub data Code : Type 0 where
  unavailable resource_exhausted unauthenticated permission_denied invalid_argument : Code
  unimplemented other_code : Code

-- The package's own error values, io.EOF, the errors of contexts, and any other error, by number.
pub data Error : Type 0 where
  skip_node incomplete send_failure type_mismatch no_node empty_config : Error
  node_closed stream_down send_queue_full send_stalled stopped : Error
  eof context_ended : Error
  status : Code → ℕ → Error
  other : ℕ → Error

pub record NodeError : Type 0 where
  pub cause : Error
  pub node_id : ℕ

pub record QuorumCallError : Type 0 where
  pub cause : Error
  pub errors : List NodeError

-- An error that a call returns: one error value, or a quorum call error.
pub data CallError : Type 0 where
  plain : Error → CallError
  quorum : QuorumCallError → CallError

unfoldable pub Error-discrete : Discrete Error
Error-discrete = hlevel ℕ_discrete

-- The package errors, which `errors.Is` compares an error and those that it wraps with. A nil error
-- is none of them, and a package error is itself.
pub record ErrorsIs : Type 0 where
  pub is : Option Error → Error → Bool
  pub is_nil : (t : Error) → is none t ≡ false
  pub is_self : (t : Error) → is (some t) t ≡ true

-- `==` on errors.
abbrev pub is_yes : {A : Type 0} → Dec A → Bool
is_yes (yes _) = true
is_yes (no _) = false

pub is_yes_iff : {A : Type 0} (d : Dec A) → (is_yes d ≡ true) ↔ A
is_yes_iff (yes a) = (λ _. a, λ _. refl)
is_yes_iff (no n) = (λ h. cc, λ a. absurd (n a))

instance abbrev pub Error-eq : Comparable Error
Error-eq = record {
  same = λ a b. is_yes (Error-discrete a b);
  same_iff = λ a b. is_yes_iff (Error-discrete a b);
}
