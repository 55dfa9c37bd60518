-- ===== src/Impl/Terminals/Tally.antt =====
-- Which responses the tally of internal/impl/terminals.go counts.
use mathlib.Core.List.{append_assoc}
use gorums.Prelude.{
  ℕ, ◌≡◌, ◌≢◌, true, false, none, some, List, [], ◌∷◌, ◌++◌, arith, ◌⊎◌, contains, comparable_nat,
  All, Bool-cases, Option-cases, inl, inr, All-left, contains-append, contains-last,
}
use gorums.Errors.{skip_node, ErrorsIs}
use gorums.Impl.Responses.{NodeResponse}
use gorums.Impl.Responses.Threshold.{node_errors}
use gorums.Impl.Terminals.{NodeTally, tally_add}

module _ {ℓ} {A : Type ℓ} where
  -- The first successful response of each node that is not in the list of counted ones.
  unfoldable pub distinct : List ℕ → List (NodeResponse A) → List (NodeResponse A)
  distinct counted [] = []
  distinct counted (r ∷ rs) = elim r.err [
    | some _ ↦ distinct counted rs
    | none ↦ elim (contains counted r.node_id) [
      | true ↦ distinct counted rs
      | false ↦ r ∷ distinct (counted ++ r.node_id ∷ []) rs
    ]
  ]

  -- No two responses are of one node.
  abbrev pub OfDistinctNodes : List (NodeResponse A) → Type 0
  OfDistinctNodes [] = Unit
  OfDistinctNodes (r ∷ rs) = All (λ s. s.node_id ≢ r.node_id) rs × OfDistinctNodes rs

module _ {ℓ} {A : Type ℓ} where
  pub OfDistinctNodes-append :
      (rs ss : List (NodeResponse A)) → OfDistinctNodes (rs ++ ss) → OfDistinctNodes rs
  OfDistinctNodes-append [] ss h = tt
  OfDistinctNodes-append (r ∷ rs) ss h =
      (All-left (λ s. s.node_id ≢ r.node_id) rs ss h.0, OfDistinctNodes-append rs ss h.1)

  -- What is still counted is of no node on the list.
  distinct-new :
      (id : ℕ) (counted : List ℕ) (rs : List (NodeResponse A))
      → contains counted id ≡ true
      → All (λ s. s.node_id ≢ id) (distinct counted rs)
  unfolding distinct
  distinct-new id counted [] h = tt
  distinct-new id counted (r ∷ rs) h = elim (Option-cases r.err) [
    | inr (e, bad) ↦ rw bad (distinct-new id counted rs h)
    | inl ok ↦ rw ok (elim (Bool-cases (contains counted r.node_id)) [
      | inl old ↦ rw old (distinct-new id counted rs h)
      | inr new ↦ rw new (
        λ same. cc (rw same at new),
        distinct-new id (counted ++ r.node_id ∷ []) rs
            (contains-append counted (r.node_id ∷ []) id h),
      )
    ])
  ]

  pub distinct-OfDistinctNodes :
      (counted : List ℕ) (rs : List (NodeResponse A)) → OfDistinctNodes (distinct counted rs)
  unfolding distinct
  distinct-OfDistinctNodes counted [] = tt
  distinct-OfDistinctNodes counted (r ∷ rs) = elim (Option-cases r.err) [
    | inr (e, bad) ↦ rw bad (distinct-OfDistinctNodes counted rs)
    | inl ok ↦ rw ok (elim (Bool-cases (contains counted r.node_id)) [
      | inl old ↦ rw old (distinct-OfDistinctNodes counted rs)
      | inr new ↦ rw new (
        distinct-new r.node_id (counted ++ r.node_id ∷ []) rs (contains-last counted r.node_id),
        distinct-OfDistinctNodes (counted ++ r.node_id ∷ []) rs,
      )
    ])
  ]

abbrev pub counting : NodeTally → ℕ → NodeTally
counting t id = record t { counted = t.counted ++ id ∷ [] }

module _ {ℓ} {A : Type ℓ} (lib : ErrorsIs) where
  -- The tally passes over a response, or counts it.
  pub tally_add_cases :
      (x : NodeResponse A) (xs : List (NodeResponse A)) (t : NodeTally)
      → ((t' : NodeTally) × (tally_add lib t x.node_id x.err ≡ (t', false))
          × (distinct t.counted (x ∷ xs) ≡ distinct t'.counted xs)
          × (t.errs ++ node_errors lib (x ∷ xs) ≡ t'.errs ++ node_errors lib xs))
        ⊎ ((tally_add lib t x.node_id x.err ≡ (counting t x.node_id, true))
            × (distinct t.counted (x ∷ xs) ≡ x ∷ distinct (counting t x.node_id).counted xs)
            × (t.errs ++ node_errors lib (x ∷ xs) ≡ t.errs ++ node_errors lib xs))
  unfolding tally_add distinct node_errors
  tally_add_cases x xs t = elim (Option-cases x.err) [
    | inr (e, bad) ↦ elim (Bool-cases (lib.is (some e) skip_node)) [
      | inl skip ↦ inl (t, ground arith, ground arith, ground arith)
      | inr kept ↦ inl (
        record t { errs = t.errs ++ record { cause = e; node_id = x.node_id } ∷ [] },
        ground arith,
        ground arith,
        ground (
          arith,
          append_assoc t.errs (record { cause = e; node_id = x.node_id } ∷ []) (node_errors lib xs),
        ),
      )
    ]
    | inl ok ↦ elim (Bool-cases (contains t.counted x.node_id)) [
      | inl old ↦ inl (t, ground (arith, lib.is_nil skip_node), ground arith, ground arith)
      | inr new ↦ inr (ground (arith, lib.is_nil skip_node), ground arith, ground arith)
    ]
  ]
