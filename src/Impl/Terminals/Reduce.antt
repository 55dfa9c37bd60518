-- ===== src/Impl/Terminals/Reduce.antt =====
-- What `Reduce` of internal/impl/terminals.go folds.
use mathlib.Core.List.{append_assoc, append-nil}
use gorums.Prelude.{
  ℕ, suc, zero, ◌+◌, ◌≡◌, false, Option, none, some, List, [], ◌∷◌, ◌++◌, arith, if◌then◌else◌, leb,
  length, contains, comparable_nat, Bool-cases, Option-cases, inl, inr, take, length-append,
}
use gorums.Prelude.Int.{pos}
use gorums.Prelude.Go.{returns}
use gorums.Errors.{Error, skip_node, incomplete, NodeError, CallError, plain, quorum, ErrorsIs}
use gorums.Impl.Responses.{NodeResponse, Responses}
use gorums.Impl.Responses.Threshold.{node_errors}
use gorums.Impl.Terminals.{NodeTally, tally_incomplete, new_tally, tally_add, reduce_loop, reduce}
use gorums.Impl.Terminals.Tally.{distinct}

module _ {ℓ κ} {A : Type ℓ} {B : Type κ} (add : B → NodeResponse A → B × Option Error) where
  -- A left fold that stops at the first error.
  unfoldable pub fold_until : List (NodeResponse A) → B → B × Option Error
  fold_until [] acc = (acc, none)
  fold_until (s ∷ ss) acc = elim (add acc s).1 [
    | some e ↦ ((add acc s).0, some e)
    | none ↦ fold_until ss (add acc s).0
  ]

  -- The result of folding what there is of k responses, of which m were left to be had.
  unfoldable pub folded : ℕ → ℕ → List NodeError → B × Option Error → B × Option CallError
  folded k m errs (acc, some e) = (acc, some (plain e))
  folded k m errs (acc, none) =
      if leb k m
      then (acc, none)
      else (acc, some (quorum (record { cause = incomplete; errors = errs })))

  module _ (lib : ErrorsIs) (n : ℕ) where
    -- What the loop returns with k more nodes to count.
    abbrev Reduces : ℕ → List (NodeResponse A) → B → NodeTally → Type κ
    Reduces k xs acc t =
        reduce_loop lib (pos n) add xs acc t
        ≡ folded k (length (distinct t.counted xs)) (t.errs ++ node_errors lib xs)
            (fold_until (take k (distinct t.counted xs)) acc)

    abbrev counting : NodeTally → ℕ → NodeTally
    counting t id = record t { counted = t.counted ++ id ∷ [] }

    reduce_loop-counted :
        (k : ℕ) (x : NodeResponse A) (xs : List (NodeResponse A)) (acc : B) (t : NodeTally)
        → x.err ≡ none
        → contains t.counted x.node_id ≡ false
        → n ≡ length t.counted + suc k
        → ((j : ℕ)
            → n ≡ length t.counted + 1 + suc j
            → Reduces (suc j) xs (add acc x).0 (counting t x.node_id))
        → Reduces (suc k) (x ∷ xs) acc t
    unfolding reduce_loop tally_add tally_incomplete fold_until folded distinct node_errors
    reduce_loop-counted zero x xs acc t ok new h ih =
        ground (arith, lib.is_nil skip_node, length-append t.counted (x.node_id ∷ []))
    reduce_loop-counted (suc j) x xs acc t ok new h ih =
        ground (arith, lib.is_nil skip_node, length-append t.counted (x.node_id ∷ []), ih j)

    reduce_loop_lem :
        (k : ℕ) (xs : List (NodeResponse A)) (acc : B) (t : NodeTally)
        → n ≡ length t.counted + suc k
        → Reduces (suc k) xs acc t
    unfolding reduce_loop tally_add tally_incomplete fold_until folded distinct node_errors
    reduce_loop_lem k [] acc t h = ground (arith, append-nil t.errs)
    reduce_loop_lem k (x ∷ xs) acc t h = elim (Option-cases x.err) [
      | inr (e, bad) ↦ ground (
        arith,
        append_assoc t.errs (record { cause = e; node_id = x.node_id } ∷ []) (node_errors lib xs),
        reduce_loop_lem k xs acc t h,
        reduce_loop_lem k xs acc
            (record t { errs = t.errs ++ record { cause = e; node_id = x.node_id } ∷ [] }) h,
      )
      | inl ok ↦ elim (Bool-cases (contains t.counted x.node_id)) [
        | inl old ↦ ground (arith, lib.is_nil skip_node, reduce_loop_lem k xs acc t h)
        | inr new ↦ reduce_loop-counted k x xs acc t ok new h λ j g.
            reduce_loop_lem j xs (add acc x).0 (counting t x.node_id)
              (omega (arith, length-append t.counted (x.node_id ∷ [])))
      ]
    ]

  -- On a call that holds no error, `Reduce(k + 1)` folds the first successful response of each of the first k + 1 nodes that have
  -- one, in the order of arrival, and no other. It stops at an error of `add` and returns that error;
  -- if fewer nodes have a successful response and no `add` fails, it returns the accumulator with the
  -- error of an incomplete call, which lists the node errors that are not skips.
  pub reduce_lem :
      (lib : ErrorsIs) (r : Responses A) (k : ℕ) (initial : B)
      → r.err ≡ none
      → reduce lib r (pos (suc k)) initial add
        ≡ returns (
            folded
              (suc k)
              (length (distinct [] r.seq))
              (node_errors lib r.seq)
              (fold_until (take (suc k) (distinct [] r.seq)) initial))
  unfolding reduce
  reduce_lem lib r k initial ok =
      ground (arith, reduce_loop_lem lib (suc k) k r.seq initial new_tally (omega arith))
