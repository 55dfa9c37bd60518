-- ===== src/Impl/Terminals/Matching.antt =====
-- What `Matching` of internal/impl/terminals.go agrees on.
use mathlib.Core.List.{append_assoc, append-nil}
use gorums.Prelude.{
  ℕ, suc, ◌<◌, ◌≡◌, refl, true, false, Option, none, some, List, [], ◌∷◌, ◌++◌, arith,
  if◌then◌else◌, leb, length, comparable_nat, Bool-cases, inl, inr, length-append, All, ◌≢◌,
  Comparable, ◌==◌, ◌⊎◌, ap, sym,
}
use gorums.Prelude.Int.{pos}
use gorums.Prelude.Go.{returns}
use gorums.Errors.{incomplete, NodeError, CallError, quorum, ErrorsIs}
use gorums.Impl.Responses.{NodeResponse, Responses}
use gorums.Impl.Responses.Threshold.{node_errors}
use gorums.Impl.Terminals.{
  NodeTally, tally_incomplete, new_tally, tally_add, Agreement, head_value, matching_loop, matching,
}
use gorums.Impl.Terminals.Tally.{
  distinct, tally_add_cases, counting, OfDistinctNodes, OfDistinctNodes-append,
  distinct-OfDistinctNodes,
}

module _ {ℓ κ} {A : Type ℓ} {K : Type κ} ⦃e : Comparable K⦄ (key : Option A → K) where
  -- The responses with key k, in order.
  unfoldable pub matches : K → List (NodeResponse A) → List (NodeResponse A)
  matches k [] = []
  matches k (r ∷ rs) = let rest = matches k rs in if key r.value == k then r ∷ rest else rest

  matches-append :
      (k : K) (rs : List (NodeResponse A)) (r : NodeResponse A)
      → matches k (rs ++ r ∷ [])
        ≡ (if key r.value == k then matches k rs ++ r ∷ [] else matches k rs)
  unfolding matches
  matches-append k [] r = ground arith
  matches-append k (x ∷ rs) r = ground (arith, matches-append k rs r)

  -- The buckets after one more response.
  matches-same :
      (buckets : K → List (NodeResponse A)) (seen : List (NodeResponse A)) (x : NodeResponse A)
      → ((k : K) → buckets k ≡ matches k seen)
      → (k : K)
      → (if key x.value == k then matches (key x.value) seen ++ x ∷ [] else buckets k)
        ≡ matches k (seen ++ x ∷ [])
  matches-same buckets seen x same k =
      ground (arith, matches-append k seen x, same k, e.same_iff (key x.value) k)

  matches-own :
      (seen : List (NodeResponse A)) (x : NodeResponse A)
      → matches (key x.value) (seen ++ x ∷ []) ≡ matches (key x.value) seen ++ x ∷ []
  matches-own seen x =
      ground (arith, matches-append (key x.value) seen x, e.same_iff (key x.value) (key x.value))

  -- No key has n responses yet.
  abbrev pub Open : ℕ → List (NodeResponse A) → Type κ
  Open n seen = (k : K) → length (matches k seen) < n

  -- How `Matching` may end, over the distinct successful responses ss and the node errors errs:
  -- with an agreement at the first response s that brings its key to n, or incomplete.
  abbrev pub Ends :
      ℕ → List (NodeResponse A) → List NodeError → Agreement A × Option CallError → Type (ℓ ⊔ κ)
  Ends n ss errs (ag, err) =
      ((pre : List (NodeResponse A)) × (s : NodeResponse A) × (post : List (NodeResponse A)) × (ss
          ≡ pre ++ s ∷ post)
        × Open n pre
        × (length ag.responses ≡ n)
        × (ag.responses ≡ matches (key s.value) (pre ++ s ∷ []))
        × (ag.value ≡ head_value ag.responses)
        × (err ≡ none))
      ⊎ (Open n ss
          × (ag ≡ record { value = none; responses = [] })
          × (err ≡ some (quorum (record { cause = incomplete; errors = errs }))))

  Open-step :
      (n : ℕ) (seen : List (NodeResponse A)) (x : NodeResponse A)
      → Open n seen
      → leb n (length (matches (key x.value) seen ++ x ∷ [])) ≡ false
      → Open n (seen ++ x ∷ [])
  Open-step n seen x o h k =
      ground (arith, matches-append k seen x, o k, e.same_iff (key x.value) k)

  All-matches {μ} :
      (P : NodeResponse A → Type μ) (k : K) (rs : List (NodeResponse A))
      → All P rs
      → All P (matches k rs)
  unfolding matches
  All-matches P k [] h = tt
  All-matches P k (r ∷ rs) h =
      elim (key r.value == k) as (λ b. All P (if b then r ∷ matches k rs else matches k rs)) [
        | true ↦ (h.0, All-matches P k rs h.1)
        | false ↦ All-matches P k rs h.1
      ]

  matches-OfDistinctNodes :
      (k : K) (rs : List (NodeResponse A)) → OfDistinctNodes rs → OfDistinctNodes (matches k rs)
  unfolding matches
  matches-OfDistinctNodes k [] h = tt
  matches-OfDistinctNodes k (r ∷ rs) h =
      elim (key r.value == k)
        as (λ b. OfDistinctNodes (if b then r ∷ matches k rs else matches k rs)) [
          | true ↦
              (All-matches (λ s. s.node_id ≢ r.node_id) k rs h.0, matches-OfDistinctNodes k rs h.1)
          | false ↦ matches-OfDistinctNodes k rs h.1
        ]

  Ends-OfDistinctNodes :
      (n : ℕ) (ss : List (NodeResponse A)) (errs : List NodeError)
      (res : Agreement A × Option CallError)
      → OfDistinctNodes ss
      → Ends n ss errs res
      → OfDistinctNodes res.0.responses
  Ends-OfDistinctNodes n ss errs res d (inl (pre, s, post, split, o, len, all, h, h')) = rw all (
      matches-OfDistinctNodes (key s.value) (pre ++ s ∷ []) (
        OfDistinctNodes-append (pre ++ s ∷ []) post
          (rw (append_assoc pre (s ∷ []) post, ← split) d)))
  Ends-OfDistinctNodes n ss errs res d (inr (o, ag, h)) = rw ag tt

  module _ (lib : ErrorsIs) (n : ℕ) where
    matching_loop-passed :
        (x : NodeResponse A) (xs : List (NodeResponse A)) (t t' : NodeTally)
        (buckets : K → List (NodeResponse A))
        → tally_add lib t x.node_id x.err ≡ (t', false)
        → matching_loop lib (pos n) key (x ∷ xs) t buckets
          ≡ matching_loop lib (pos n) key xs t' buckets
    unfolding matching_loop
    matching_loop-passed x xs t t' buckets h = ground arith

    module _ (x : NodeResponse A) (xs : List (NodeResponse A)) (t t' : NodeTally)
        (buckets : K → List (NodeResponse A)) (bucket : List (NodeResponse A))
        (fresh : tally_add lib t x.node_id x.err ≡ (t', true))
        (filled : buckets (key x.value) ++ x ∷ [] ≡ bucket) where
      matching_loop-full :
          leb n (length bucket) ≡ true
          → matching_loop lib (pos n) key (x ∷ xs) t buckets
            ≡ (record { value = head_value bucket; responses = bucket }, none)
      unfolding matching_loop
      matching_loop-full h = ground arith

      matching_loop-more :
          leb n (length bucket) ≡ false
          → matching_loop lib (pos n) key (x ∷ xs) t buckets
            ≡ matching_loop lib
                (pos n)
                key
                xs
                t'
                (λ j. if key x.value == j then bucket else buckets j)
      unfolding matching_loop
      matching_loop-more h = ground arith

    matching_loop-Ends :
        (xs : List (NodeResponse A)) (t : NodeTally) (buckets : K → List (NodeResponse A))
        (seen : List (NodeResponse A))
        → ((k : K) → buckets k ≡ matches k seen)
        → Open n seen
        → Ends n
            (seen ++ distinct t.counted xs)
            (t.errs ++ node_errors lib xs)
            (matching_loop lib (pos n) key xs t buckets)
    unfolding matching_loop tally_incomplete distinct node_errors
    matching_loop-Ends [] t buckets seen same o = rw (append-nil, append-nil) (inr (o, refl, refl))
    matching_loop-Ends (x ∷ xs) t buckets seen same o = elim (tally_add_cases lib x xs t) [
      | inl (t', step, d, es) ↦
          rw (matching_loop-passed x xs t t' buckets step, d, es)
            (matching_loop-Ends xs t' buckets seen same o)
      | inr (step, d, es) ↦
          let own = ap (λ b. b ++ x ∷ []) (same (key x.value)) in
          elim (Bool-cases (leb n (length (matches (key x.value) seen ++ x ∷ [])))) [
            | inl full ↦
                rw (matching_loop-full x xs t (counting t x.node_id) buckets _ step own full, d)
                  (inl (
                    seen,
                    x,
                    distinct (t.counted ++ x.node_id ∷ []) xs,
                    refl,
                    o,
                    ground (
                      arith,
                      o (key x.value),
                      length-append (matches (key x.value) seen) (x ∷ []),
                    ),
                    sym (matches-own seen x),
                    refl,
                    refl,
                  ))
            | inr more ↦
                rw
                  (
                    matching_loop-more x xs t (counting t x.node_id) buckets _ step own more,
                    d,
                    es,
                    ← append_assoc seen (x ∷ []) (distinct (t.counted ++ x.node_id ∷ []) xs),
                  )
                  (matching_loop-Ends xs (counting t x.node_id) _ (seen ++ x ∷ [])
                    (matches-same buckets seen x same) (Open-step n seen x o more))
          ]
    ]

  -- On a call that holds no error, `Matching(n)` counts the first successful response of each node, in
  -- the order of arrival. It ends in one of two ways. Either a response s brings its key to n responses, while no key had n
  -- before: the agreement then holds exactly the responses with that key up to s, which are n
  -- responses of n distinct nodes, and the value of the first of them. Or no key reaches n responses:
  -- the agreement is then empty, and the error of an incomplete call lists the node errors.
  pub matching_lem :
      (lib : ErrorsIs) (r : Responses A) (k : ℕ)
      → r.err ≡ none
      → (res : Agreement A × Option CallError) × (matching lib r (pos (suc k)) key ≡ returns res)
        × Ends (suc k) (distinct [] r.seq) (node_errors lib r.seq) res
        × OfDistinctNodes res.0.responses
  unfolding matching
  matching_lem lib r k ok = (
    matching_loop lib (pos (suc k)) key r.seq new_tally (λ _. []),
    ground arith,
    ends,
    Ends-OfDistinctNodes (suc k) _ _ _ (distinct-OfDistinctNodes [] r.seq) ends,
  )
    where
      ends :
          Ends
            (suc k)
            (distinct [] r.seq)
            (node_errors lib r.seq)
            (matching_loop lib (pos (suc k)) key r.seq new_tally (λ _. []))
      ends =
          matching_loop-Ends lib (suc k) r.seq new_tally (λ _. []) [] (λ j. unfold matches in refl)
            (λ j. unfold matches in omega arith)
