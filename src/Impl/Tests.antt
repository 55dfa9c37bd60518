-- ===== src/Impl/Tests.antt =====
-- The theorems on the terminals at concrete responses.
use gorums.Prelude.{
  length, ◌+◌, ◌*◌, ◌<◌, ◌≤◌, arith, ℕ, ◌≡◌, refl, Bool, true, false, Option, none, some, List, [],
  ◌∷◌, ◌==◌, comparable_nat, ◌||◌, contains,
}
use gorums.Prelude.Int.{ℤ, pos}
use gorums.Prelude.Go.{returns}
use gorums.Errors.{
  Error-discrete, Error, skip_node, stream_down, ErrorsIs, Error-eq, CallError, plain, empty_config,
}
use gorums.Impl.Responses.{
  mark_dispatched, NodeResponse, Responses, threshold, new_responses, first, majority, all,
  ignore_errors,
}
use gorums.Impl.Responses.Threshold.{
  threshold_lem, reached, terminals_of_call, verdict, opening, node_errors,
}
use gorums.Impl.Correctable.{Update, correctable, new_correctable, int_leb}
use gorums.Impl.Correctable.Watched.{asked_level}
use gorums.Impl.Correctable.Histories
use gorums.Impl.Terminals.{reduce, matching, Agreement, tally_add}
use gorums.Impl.Terminals.Tally.{distinct, OfDistinctNodes}
use gorums.Impl.Terminals.Reduce.{reduce_lem, folded, fold_until}
use gorums.Impl.Terminals.Matching.{matching_lem, Ends}

-- An error is the target itself.
abbrev same_error : Option Error → Error → Bool
same_error none t = false
same_error (some e) t = e == t

same_error_self : (t : Error) → same_error (some t) t ≡ true
same_error_self t = (Error-eq.same_iff t t).1 refl

-- The error itself, as `errors.Is` of errors that wrap no other.
abbrev direct : ErrorsIs
direct = record { is = same_error; is_nil = λ t. refl; is_self = same_error_self }

abbrev reply : ℕ → ℕ → NodeResponse ℕ
reply id v = record { node_id = id; value = some v; err = none }

abbrev failure : ℕ → Error → NodeResponse ℕ
failure id e = record { node_id = id; value = none; err = some e }

abbrev replies : List (NodeResponse ℕ)
replies =
    failure 1 stream_down ∷ reply 2 7 ∷ reply 2 7 ∷ failure 3 skip_node ∷ reply 4 8 ∷ reply 5 7 ∷ []

abbrev call : Responses ℕ
call = new_responses 5 replies

abbrev key_of : Option ℕ → ℕ
key_of none = 0
key_of (some v) = v

abbrev sum_up : ℕ → NodeResponse ℕ → ℕ × Option Error
sum_up acc r = (acc + key_of r.value, none)

threshold_lem_example :
    threshold direct call (pos 2)
    ≡ returns (verdict 2 4 (some 7) (record { cause = stream_down; node_id = 1 } ∷ []))
unfolding new_responses ignore_errors opening node_errors Error-discrete
threshold_lem_example = threshold_lem direct call 2 refl (omega arith)

terminals_of_call_example :
    (first direct (new_responses 0 replies) ≡ returns (none, some (plain empty_config)))
    × (majority direct (new_responses 0 replies) ≡ returns (none, some (plain empty_config)))
    × (all direct (new_responses 0 replies) ≡ returns (none, some (plain empty_config)))
    × (first direct (new_responses 5 replies) ≡ returns (reached direct 1 replies))
    × ((m : ℕ) × (majority direct (new_responses 5 replies) ≡ returns (reached direct m replies))
        × (5 < 2 * m)
        × ((k : ℕ) → 5 < 2 * k → m ≤ k))
    × (all direct (new_responses 5 replies) ≡ returns (reached direct 5 replies))
terminals_of_call_example = terminals_of_call direct 4 replies

reduce_lem_example :
    reduce direct call (pos 3) 0 sum_up
    ≡ returns (folded sum_up 3 3 (node_errors direct replies) (22, none))
unfolding new_responses distinct fold_until
reduce_lem_example = reduce_lem sum_up direct call 2 0 refl

matching_lem_example :
    (res : Agreement ℕ × Option CallError) × (matching direct call (pos 2) key_of ≡ returns res)
    × Ends key_of 2 (distinct [] call.seq) (node_errors direct call.seq) res
    × OfDistinctNodes res.0.responses
matching_lem_example = matching_lem key_of direct call 1 (unfold new_responses in refl)

-- Two of the three nodes agree on 7; the second response of node 2 does not count.
matching_run :
    matching direct call (pos 2) key_of
    ≡ returns (record { value = some 7; responses = reply 2 7 ∷ reply 5 7 ∷ [] }, none)
unfolding new_responses matching tally_add Error-discrete
matching_run = refl

-- A client asks for level 0 and, after an update, for level 2.
abbrev watching : List Histories.Event
watching =
    Histories.watches (pos 0)
    ∷ Histories.updates
    ∷ Histories.watches (pos 2)
    ∷ Histories.updates
    ∷ []

correctable_told_example :
    (us : List (Update ℕ)) × (correctable direct call (pos 2) ≡ returns (mark_dispatched call, us))
    × (s : Histories.State ℕ) × (Histories.run new_correctable us [] watching ≡ returns s)
    × ((ch : ℕ) (l : ℤ)
        → asked_level s.2 ch ≡ some l
        → contains s.0.closed ch ≡ s.0.done || int_leb l s.0.level)
    × (contains s.0.closed 0 ≡ s.0.done)
    × ((length s.1 ≡ 0) → s.0.done ≡ true)
correctable_told_example = Histories.correctable_told direct call 1 watching
