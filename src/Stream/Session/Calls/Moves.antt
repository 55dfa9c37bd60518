-- ===== src/Stream/Session/Calls/Moves.antt =====
-- How many calls of a kind the operations of internal/stream/pending.go and session.go leave in a table.
use gorums.Prelude.{
  ℕ, ◌+◌, ◌≡◌, refl, Bool, true, Option, none, some, List, [], ◌∷◌, ◌++◌, map, arith, nat_beq, leb,
  length, max, Bool-cases, Option-cases, append-nil, inl, inr,
}
use gorums.Errors.{Error}
use gorums.Stream.Request.{Request, Contexts, Delivery, send_error_response}
use gorums.Stream.Pending
use gorums.Stream.Pending.{
  PendingCall, PendingCalls, find, delete, assign, sweep_calls, watch_calls, sweep, min_sweep_size,
}
use gorums.Stream.Pending.Table.{IsMap, find-sweep_calls}
use gorums.Stream.Pending.Invariant.{IsTable}
use gorums.Stream.SendQueue.Counts.{count, audible}
use gorums.Stream.SendQueue.Steps.{count-failed}
use gorums.Stream.Session.Calls.{requests, dead_calls, swept}

delete-absent : (k : ℕ) (m : List (ℕ × PendingCall)) → find k m ≡ none → delete k m ≡ m
unfolding delete find
delete-absent k [] e = refl
delete-absent k ((j, c) ∷ m) e = ground (arith, delete-absent k m)

module _ (g : Request → Bool) where
  -- A key that is taken out takes its call along, and no other.
  pub count-delete :
      (k : ℕ) (c : PendingCall) (m : List (ℕ × PendingCall))
      → IsMap m
      → find k m ≡ some c
      → count g (requests m) ≡ count g (requests (delete k m)) + count g (c.req ∷ [])
  unfolding delete find count
  count-delete k c [] u e = cc
  count-delete k c ((j, d) ∷ m) (absent, u) e = elim (Bool-cases (nat_beq j k)) [
    | inl same ↦ ground (arith, delete-absent k m)
    | inr other ↦ ground (arith, count-delete k c m u)
  ]

  pub count-sweep_calls :
      (ctxs : Contexts) (m : List (ℕ × PendingCall))
      → count g (requests (sweep_calls ctxs m)) + count g (dead_calls ctxs m) ≡ count g (requests m)
  unfolding sweep_calls dead_calls count
  count-sweep_calls ctxs [] = omega arith
  count-sweep_calls ctxs ((j, c) ∷ m) = ground (arith, count-sweep_calls ctxs m)

  pub count-watch_calls :
      (m : List (ℕ × PendingCall)) → count g (requests (watch_calls m)) ≡ count g (requests m)
  unfolding watch_calls count
  count-watch_calls [] = refl
  count-watch_calls ((j, c) ∷ m) = omega (arith, count-watch_calls m)

  pub count-disposing :
      (ds : List (Request × Option Error)) (err : Option Error) (rs : List Request)
      → count g (map (λ d. d.0) (ds ++ map (λ r. (r, err)) rs))
        ≡ count g (map (λ d. d.0) ds) + count g rs
  unfolding count
  count-disposing [] err [] = omega arith
  count-disposing [] err (r ∷ rs) = omega (arith, count-disposing [] err rs)
  count-disposing (d ∷ ds) err rs = omega (arith, count-disposing ds err rs)

  -- A new call of a free message ID is one more, and the swept ones are gone.
  pub count-add :
      (ctxs : Contexts) (id : ℕ) (req : Request) (p : PendingCalls)
      → IsTable p
      → find id p.calls ≡ none
      → (Pending.add ctxs id req p).1 ≡ true
      → count g (requests (Pending.add ctxs id req p).0.calls) + count g (swept ctxs p)
        ≡ count g (requests p.calls) + count g (req ∷ [])
  unfolding Pending.add swept assign sweep count
  count-add ctxs id req p v free added = elim (Bool-cases p.closed) [
    | inl shut ↦ ground arith
    | inr o ↦ elim (Bool-cases (leb (max p.sweep_at min_sweep_size) (length p.calls))) [
      | inl full ↦
          let live = sweep_calls ctxs p.calls in
          let still : find id live ≡ none =
            ground (arith, find-sweep_calls ctxs id p.calls v.keys) in
          ground (arith, delete-absent id live still, count-sweep_calls ctxs p.calls)
      | inr room ↦ ground (arith, delete-absent id p.calls free)
    ]
  ]

-- An answer counts if the call can hear it, which every call that counts can.
pub count-reply :
    (f : Request → Bool) (ds : List Delivery) (req : Request) (id : ℕ) (e : Error)
    → count (audible f) (map (λ d. d.to) (ds ++ send_error_response req id e))
      ≡ count (audible f) (map (λ d. d.to) ds) + count (audible f) (req ∷ [])
unfolding send_error_response count
count-reply f ds req id e = elim (Option-cases req.response_chan) [
  | inl unset ↦ ground (arith, append-nil (ds))
  | inr (ch, set) ↦ ground (
    arith,
    count-failed (audible f) ds
        (record { to = req; response = record { node_id = id; value = none; err = some e } }),
  )
]
