-- ===== src/Stream/Pending/Calls.antt =====
-- What becomes of a call in the table of internal/stream/pending.go.
use gorums.Prelude.{
  ℕ, suc, ◌≤◌, ◌≡◌, ◌≢◌, refl, true, false, none, some, if◌then◌else◌, length, arith, Bool-cases,
  inl, inr, leb, max,
}
use gorums.Stream.Request.{Contexts, Request}
use gorums.Stream.Pending.{
  PendingCall, PendingCalls, find, sweep, add, take, expire, min_sweep_size,
}
use gorums.Stream.Pending.Table.{find-delete, find-assign, find-sweep_calls, live_only}
use gorums.Stream.Pending.Invariant.{IsTable, add-swept, add-unswept}

module _ (ctxs : Contexts) (msg_id : ℕ) (req : Request) (p : PendingCalls) (v : IsTable p) where
  -- An open table takes every call. It then has the new call under its ID, with a number above all
  -- earlier ones; any other call is still there, unless its context has ended.
  pub add_lem :
      p.closed ≡ false
      → ((add ctxs msg_id req p).1 ≡ true)
        × ((c : PendingCall) × (find msg_id (add ctxs msg_id req p).0.calls ≡ some c)
            × (c.req ≡ req)
            × (c.seq ≡ suc p.seq))
        × ((j : ℕ)
            → msg_id ≢ j
            → find j (add ctxs msg_id req p).0.calls ≡ (
                if leb (max p.sweep_at min_sweep_size) (length p.calls)
                then live_only ctxs (find j p.calls)
                else find j p.calls))
  add_lem o = elim (Bool-cases (leb (max p.sweep_at min_sweep_size) (length p.calls))) [
    | inl full ↦
        let p' = sweep ctxs p in
        let fresh : PendingCall = record { req = req; seq = suc p.seq; watched = p.watching } in
        rw (add-swept ctxs msg_id req p o full) (
          refl,
          (
            fresh,
            unfold sweep in ground (arith, find-assign msg_id msg_id fresh p'.calls),
            refl,
            refl,
          ),
          λ j other.
              unfold sweep in
              ground (
                arith,
                find-assign j msg_id fresh p'.calls,
                find-sweep_calls ctxs j p.calls v.keys,
              ),
        )
    | inr room ↦
        let fresh : PendingCall = record { req = req; seq = suc p.seq; watched = p.watching } in
        rw (add-unswept ctxs msg_id req p o room) (
          refl,
          (fresh, ground (arith, find-assign msg_id msg_id fresh p.calls), refl, refl),
          λ j other. ground (arith, find-assign j msg_id fresh p.calls),
        )
  ]

  -- The response to a call that was just added finds its request. A streaming call then stays in the
  -- table, any other is gone.
  pub take-add :
      p.closed ≡ false
      → let q = (add ctxs msg_id req p).0 in
        ((take msg_id q).1 ≡ some req)
        × ((req.streaming ≡ true) → (take msg_id q).0 ≡ q)
        × ((req.streaming ≡ false) → (take msg_id (take msg_id q).0).1 ≡ none)
  unfolding take
  take-add o =
      let (_, (c, there, same, _), _) = add_lem o in
      let q = (add ctxs msg_id req p).0 in
      (
        ground (arith),
        λ stays. ground (arith),
        λ once. ground (arith, find-delete msg_id msg_id q.calls),
      )

  -- A watch of an earlier call, whose context ends late, does not remove the new call of the same ID.
  pub expire-add :
      (seq : ℕ)
      → p.closed ≡ false
      → seq ≤ p.seq
      → expire msg_id seq (add ctxs msg_id req p).0 ≡ ((add ctxs msg_id req p).0, false)
  unfolding expire
  expire-add seq o earlier = let (_, (c, there, _, number), _) = add_lem o in ground arith
