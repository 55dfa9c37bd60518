-- ===== src/Impl/Responses/Threshold.antt =====
-- What the threshold terminals of internal/impl/responses.go return, by the successful responses
-- and the node errors of the sequence.
use mathlib.Core.List.{append_assoc, append-nil}
use gorums.Prelude.{
  ℕ, suc, ◌+◌, ◌/◌, ◌<◌, ◌≤◌, ◌≡◌, refl, Option, none, some, List, [], ◌∷◌, ◌++◌, arith,
  if◌then◌else◌, leb, length, nat_beq, inl, inr, Option-cases,
}
use gorums.Prelude.Int.{pos}
use gorums.Errors.{skip_node, incomplete, NodeError, CallError, quorum, ErrorsIs}
use gorums.Prelude.{◌*◌}
use gorums.Prelude.Go.{returns}
use gorums.Errors.{plain, empty_config}
use gorums.Impl.Responses.{
  NodeResponse, Responses, ignore_errors, threshold_loop, threshold, first, majority, all,
  new_responses,
}

module _ {ℓ} {A : Type ℓ} where
  -- The first response's value, if no response was counted before.
  unfoldable pub opening : Option A → ℕ → List (NodeResponse A) → Option A
  opening resp count [] = resp
  opening resp count (s ∷ ss) = if nat_beq count 0 then s.value else resp

  unfoldable pub verdict : ℕ → ℕ → Option A → List NodeError → Option A × Option CallError
  verdict n count resp errs =
      if leb n count
      then (resp, none)
      else (resp, some (quorum (record { cause = incomplete; errors = errs })))

  opening_counted :
      (resp : Option A) (k : ℕ) (ss : List (NodeResponse A)) → opening resp (suc k) ss ≡ resp
  unfolding opening
  opening_counted resp k [] = refl
  opening_counted resp k (s ∷ ss) = ground arith

module _ {ℓ} {A : Type ℓ} (lib : ErrorsIs) where
  -- The errors that count against a call: of those that are not skips.
  unfoldable pub node_errors : List (NodeResponse A) → List NodeError
  node_errors [] = []
  node_errors (r ∷ rs) =
      let rest = node_errors rs in
      elim r.err [
        | none ↦ rest
        | some e ↦
            if lib.is (some e) skip_node
            then rest
            else record { cause = e; node_id = r.node_id } ∷ rest
      ]

  threshold_loop_lem :
      (n : ℕ) (xs : List (NodeResponse A)) (resp : Option A) (count : ℕ) (errs : List NodeError)
      → count < n
      → threshold_loop lib (pos n) xs resp count errs
        ≡ verdict n
            (count + length (ignore_errors xs))
            (opening resp count (ignore_errors xs))
            (errs ++ node_errors xs)
  unfolding threshold_loop ignore_errors node_errors opening verdict
  threshold_loop_lem n [] resp count errs h = ground (arith, append-nil errs)
  threshold_loop_lem n (x ∷ xs) resp count errs h = elim (Option-cases x.err) [
    | inl ok ↦ ground (
      arith,
      lib.is_nil skip_node,
      opening_counted (if nat_beq count 0 then x.value else resp) count (ignore_errors xs),
      threshold_loop_lem n xs (if nat_beq count 0 then x.value else resp) (suc count) errs,
    )
    | inr (e, bad) ↦ ground (
      arith,
      append_assoc errs (record { cause = e; node_id = x.node_id } ∷ []) (node_errors xs),
      threshold_loop_lem n xs resp count errs h,
      threshold_loop_lem n xs resp count (errs ++ record { cause = e; node_id = x.node_id } ∷ []) h,
    )
  ]

  -- On a call that holds no error, and for a positive n, `Threshold(n)` waits for n successful
  -- responses, whatever else arrives between them. It then
  -- returns the first of them; with fewer, it returns the error of an incomplete call, which lists
  -- each node error that is not a skip, in order.
  pub threshold_lem :
      (r : Responses A) (n : ℕ)
      → r.err ≡ none
      → 0 < n
      → threshold lib r (pos n)
        ≡ returns (
            verdict n
              (length (ignore_errors r.seq))
              (opening none 0 (ignore_errors r.seq))
              (node_errors r.seq))
  unfolding threshold
  threshold_lem r n ok h = ground (arith, threshold_loop_lem n r.seq none 0 [] h)

  -- What `Threshold(m)` returns on this sequence.
  abbrev pub reached : ℕ → List (NodeResponse A) → Option A × Option CallError
  reached m seq =
      verdict m (length (ignore_errors seq)) (opening none 0 (ignore_errors seq)) (node_errors seq)

  -- The terminals of a call's handle never panic, whatever the configuration. On an empty one each
  -- returns the error of an empty configuration. On any other, `First` waits for one successful
  -- response, `Majority` for the least number that is more than half of the nodes, and `All` for as
  -- many as there are nodes; each returns the first of them, and with fewer the error of an
  -- incomplete call, which lists each node error that is not a skip.
  pub terminals_of_call :
      (n : ℕ) (seq : List (NodeResponse A))
      → (first lib (new_responses 0 seq) ≡ returns (none, some (plain empty_config)))
        × (majority lib (new_responses 0 seq) ≡ returns (none, some (plain empty_config)))
        × (all lib (new_responses 0 seq) ≡ returns (none, some (plain empty_config)))
        × (first lib (new_responses (suc n) seq) ≡ returns (reached 1 seq))
        × ((m : ℕ) × (majority lib (new_responses (suc n) seq) ≡ returns (reached m seq))
            × (suc n < 2 * m)
            × ((k : ℕ) → suc n < 2 * k → m ≤ k))
        × (all lib (new_responses (suc n) seq) ≡ returns (reached (suc n) seq))
  unfolding new_responses first majority all threshold
  terminals_of_call n seq = (
    refl,
    refl,
    refl,
    ground (arith, threshold_loop_lem 1 seq none 0 [] (omega arith)),
    (
      suc n / 2 + 1,
      ground (arith, threshold_loop_lem (suc n / 2 + 1) seq none 0 [] (omega arith)),
      omega arith,
      λ k h. omega arith,
    ),
    ground (arith, threshold_loop_lem (suc n) seq none 0 [] (omega arith)),
  )
