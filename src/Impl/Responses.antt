-- ===== src/Impl/Responses.antt =====
-- internal/impl/responses.go: the responses of a quorum call and the threshold terminals. The
-- sequence is the list of the responses that ranging over it to its end yields.
pub mod Threshold
use gorums.Prelude.{
  ℕ, zero, suc, ◌+◌, ◌/◌, ◌≤◌, ◌<◌, ◌≡◌, refl, Bool, true, false, not, ◌&&◌, Option, none, some,
  List, [], ◌∷◌, ◌++◌, map, arith, if◌then◌else◌, leb, keep, length, nat_beq,
}
use gorums.Prelude.Int.{ℤ, pos, negsuc}
use gorums.Prelude.Go.{Go, returns, panics, ◌>>=◌, ◌>>◌, panic_if}
use gorums.Errors.{
  Error, skip_node, incomplete, empty_config, NodeError, QuorumCallError, CallError, plain, quorum,
  ErrorsIs,
}

-- A nil value is `none`.
pub record NodeResponse {ℓ} (A : Type ℓ) : Type ℓ where
  pub node_id : ℕ
  pub value : Option A
  pub err : Option Error

-- `dispatched` is the flag of the call's context behind `start`.
pub record Responses {ℓ} (A : Type ℓ) : Type ℓ where
  pub seq : List (NodeResponse A)
  pub size : ℕ
  pub err : Option Error
  pub dispatched : Bool

module _ {ℓ} {A : Type ℓ} where
  unfoldable pub mark_dispatched : Responses A → Responses A
  mark_dispatched r = record r { dispatched = true }

  -- `r.seq` of a call on the given configuration: an empty one yields its error once.
  unfoldable pub new_responses : ℕ → List (NodeResponse A) → Responses A
  new_responses zero seq = record {
    seq = (record { node_id = 0; value = none; err = some empty_config }) ∷ [];
    size = 0;
    err = some empty_config;
    dispatched = false;
  }
  new_responses (suc n) seq = record { seq = seq; size = suc n; err = none; dispatched = false }

  -- Only the successful responses.
  unfoldable pub ignore_errors : List (NodeResponse A) → List (NodeResponse A)
  ignore_errors = keep (λ r. elim r.err [ none ↦ true | some _ ↦ false ])

  -- The handle after the call, and the error.
  unfoldable pub call_err : Responses A → Responses A × Option Error
  unfolding mark_dispatched
  call_err r = elim r.err [ none ↦ (r, none) | some e ↦ (mark_dispatched r, some e) ]

-- The thresholds are Go ints, and a count is at least any negative one.
abbrev pub at_least : ℕ → ℤ → Bool
at_least count (pos n) = leb n count
at_least count (negsuc n) = true

unfoldable pub check_threshold : ℤ → Go (Unit {0})
check_threshold (pos n) = panic_if (leb n 0)
check_threshold (negsuc n) = panics

module _ {ℓ} {A : Type ℓ} (lib : ErrorsIs) where
  -- The loop of `Threshold`: the first successful value so far, the count and the node errors.
  pub threshold_loop :
      ℤ → List (NodeResponse A) → Option A → ℕ → List NodeError → Option A × Option CallError
  threshold_loop n [] resp count errs =
      (resp, some (quorum (record { cause = incomplete; errors = errs })))
  threshold_loop n (result ∷ rest) resp count errs = elim (lib.is result.err skip_node) [
    | true ↦ threshold_loop n rest resp count errs
    | false ↦ elim result.err [
      | some e ↦
          threshold_loop n rest resp count
            (errs ++ (record { cause = e; node_id = result.node_id }) ∷ [])
      | none ↦
          let resp' = if nat_beq count 0 then result.value else resp in
          let more = threshold_loop n rest resp' (suc count) errs in
          if at_least (suc count) n then (resp', none) else more
    ]
  ]

  unfoldable pub threshold : Responses A → ℤ → Go (Option A × Option CallError)
  unfolding check_threshold call_err threshold_loop
  threshold r n = do
    check_threshold n
    elim (call_err r).1 [
      | some e ↦ returns (none, some (plain e))
      | none ↦ returns (threshold_loop n r.seq none 0 [])
    ]

  unfoldable pub first : Responses A → Go (Option A × Option CallError)
  unfolding threshold
  first r = threshold r (pos 1)

  unfoldable pub majority : Responses A → Go (Option A × Option CallError)
  unfolding threshold
  majority r = threshold r (pos (r.size / 2 + 1))

  unfoldable pub all : Responses A → Go (Option A × Option CallError)
  unfolding threshold
  all r = elim (call_err r).1 [
    | some e ↦ returns (none, some (plain e))
    | none ↦ threshold r (pos r.size)
  ]
