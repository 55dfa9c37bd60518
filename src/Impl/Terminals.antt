-- ===== src/Impl/Terminals.antt =====
-- internal/impl/terminals.go: the aggregating terminals, which count each node once.
pub mod Tally
pub mod Reduce
pub mod Matching
use gorums.Prelude.{
  ℕ, suc, ◌≡◌, Bool, true, false, Option, none, some, List, [], ◌∷◌, ◌++◌, if◌then◌else◌, leb,
  length, contains, Comparable, ◌==◌, comparable_nat,
}
use gorums.Prelude.Int.{ℤ}
use gorums.Prelude.Go.{Go, returns, panics, ◌>>=◌, ◌>>◌}
use gorums.Errors.{Error, skip_node, incomplete, NodeError, CallError, plain, quorum, ErrorsIs}
use gorums.Impl.Responses.{
  NodeResponse, Responses, call_err, at_least, check_threshold, mark_dispatched,
}

pub record NodeTally : Type 0 where
  pub counted : List ℕ
  pub errs : List NodeError

abbrev pub new_tally : NodeTally
new_tally = record { counted = []; errs = [] }

-- `nodeTally.add`: the new tally, and whether this is the node's first successful response.
unfoldable pub tally_add : ErrorsIs → NodeTally → ℕ → Option Error → NodeTally × Bool
tally_add lib t id err = elim (lib.is err skip_node) [
  | true ↦ (t, false)
  | false ↦ elim err [
    | some e ↦ (record t { errs = t.errs ++ (record { cause = e; node_id = id }) ∷ [] }, false)
    | none ↦
        if contains t.counted id
        then (t, false)
        else (record t { counted = t.counted ++ id ∷ [] }, true)
  ]
]

-- `nodeTally.incomplete`
unfoldable pub tally_incomplete : NodeTally → CallError
tally_incomplete t = quorum (record { cause = incomplete; errors = t.errs })

pub record Agreement {ℓ} (A : Type ℓ) : Type ℓ where
  pub value : Option A
  pub responses : List (NodeResponse A)

abbrev pub head_value {ℓ} : {A : Type ℓ} → List (NodeResponse A) → Option A
head_value [] = none
head_value (r ∷ rs) = r.value

module _ {ℓ} {A : Type ℓ} (lib : ErrorsIs) where
  -- `Aggregate`, of a function that is not nil.
  unfoldable pub aggregate {κ} :
      {B : Type κ}
      → B
      → (List (NodeResponse A) → B × Option CallError)
      → Responses A
      → B × Option CallError
  unfolding call_err
  aggregate zero_value fn r = elim (call_err r).1 [
    | some e ↦ (zero_value, some (plain e))
    | none ↦ fn (mark_dispatched r).seq
  ]

  unfoldable pub reduce_loop {κ} :
      {B : Type κ}
      → ℤ
      → (B → NodeResponse A → B × Option Error)
      → List (NodeResponse A)
      → B
      → NodeTally
      → B × Option CallError
  reduce_loop n add [] acc tally = (acc, some (tally_incomplete tally))
  reduce_loop n add (result ∷ rest) acc tally =
      let (tally', fresh) = tally_add lib tally result.node_id result.err in
      elim fresh [
        | false ↦ reduce_loop n add rest acc tally'
        | true ↦
            let (acc', err) = add acc result in
            elim err [
              | some e ↦ (acc', some (plain e))
              | none ↦ elim (at_least (length tally'.counted) n) [
                | true ↦ (acc', none)
                | false ↦ reduce_loop n add rest acc' tally'
              ]
            ]
      ]

  -- `Reduce`, with an `add` that is not nil.
  unfoldable pub reduce {κ} :
      {B : Type κ}
      → Responses A
      → ℤ
      → B
      → (B → NodeResponse A → B × Option Error)
      → Go (B × Option CallError)
  unfolding check_threshold call_err reduce_loop
  reduce r n initial add = do
    check_threshold n
    elim (call_err r).1 [
      | some e ↦ returns (initial, some (plain e))
      | none ↦ returns (reduce_loop n add r.seq initial new_tally)
    ]

  -- The map of buckets is a function from keys; a missing key has the nil bucket.
  unfoldable pub matching_loop {κ} :
      {K : Type κ} ⦃e : Comparable K⦄
      → ℤ
      → (Option A → K)
      → List (NodeResponse A)
      → NodeTally
      → (K → List (NodeResponse A))
      → Agreement A × Option CallError
  matching_loop n key [] tally buckets =
      (record { value = none; responses = [] }, some (tally_incomplete tally))
  matching_loop n key (result ∷ rest) tally buckets =
      let (tally', fresh) = tally_add lib tally result.node_id result.err in
      elim fresh [
        | false ↦ matching_loop n key rest tally' buckets
        | true ↦
            let k = key result.value in
            let bucket = buckets k ++ result ∷ [] in
            elim (at_least (length bucket) n) [
              | true ↦ (record { value = head_value bucket; responses = bucket }, none)
              | false ↦ matching_loop n key rest tally' (λ j. if k == j then bucket else buckets j)
            ]
      ]

  -- `Matching`, with a `key` that is not nil.
  unfoldable pub matching {κ} :
      {K : Type κ} ⦃e : Comparable K⦄
      → Responses A
      → ℤ
      → (Option A → K)
      → Go (Agreement A × Option CallError)
  unfolding check_threshold call_err matching_loop
  matching r n key = do
    check_threshold n
    elim (call_err r).1 [
      | some e ↦ returns (record { value = none; responses = [] }, some (plain e))
      | none ↦ returns (matching_loop n key r.seq new_tally (λ _. []))
    ]
