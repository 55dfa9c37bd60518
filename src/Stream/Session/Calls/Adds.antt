-- ===== src/Stream/Session/Calls/Adds.antt =====
-- internal/stream/session.go: what the send loop makes of a call that enters the table.
use gorums.Prelude.{
  ℕ, ◌+◌, ◌≡◌, sym, subst, Bool, true, false, none, some, [], if◌then◌else◌, arith, Bool-cases, inl,
  inr, if_case,
}
use gorums.Stream.Request.{Request, Contexts, want_server_response}
use gorums.Stream.Pending
use gorums.Stream.Pending.{PendingCall, PendingCalls, find, delete, watch_expiry}
use gorums.Stream.Pending.Invariant.{IsTable}
use gorums.Stream.SendQueue.Counts.{count, audible}
use gorums.Stream.Session.{
  Session, Sender, idle, holding, checked, sending, failing, awaiting, stopped,
}
use gorums.Stream.Session.Calls.{Fresh, swept, swept_by, call}
use gorums.Stream.Session.Calls.Moves.{count-add}
use gorums.Stream.Session.Calls.Balance.{IsBalanced}
use gorums.Stream.Session.SendLoop.{add_pending, stop}
use gorums.Stream.Session.Calls.Sending.{stop-IsBalanced}

-- An add fails if and only if the table is closed, and then changes nothing.
add-refused :
    (ctxs : Contexts) (id : ℕ) (req : Request) (p : PendingCalls)
    → (Pending.add ctxs id req p).1 ≡ false
    → p.closed ≡ true
unfolding Pending.add
add-refused ctxs id req p e = ground arith

module _ (f : Request → Bool) (n given_up : ℕ) where
  abbrev Balanced : Session → Type 0
  Balanced s = IsBalanced f n given_up s

  added-IsBalanced :
      (ctxs : Contexts) (r : Request) (s : Session)
      → s.sender ≡ checked r
      → find r.msg.seq_no s.pending.calls ≡ none
      → IsTable s.pending
      → Balanced s
      → (Pending.add ctxs r.msg.seq_no r s.pending).1 ≡ true
      → IsBalanced f n
          (given_up + count (audible (call f)) (swept ctxs s.pending))
          (record s { pending = (Pending.add ctxs r.msg.seq_no r s.pending).0; sender = sending r })
  unfolding count
  added-IsBalanced ctxs r s i free t v added = record {
    amount =
        ground (
          arith,
          v.amount,
          count-add (audible (call f)) ctxs r.msg.seq_no r s.pending t free added,
        );
    queue = v.queue;
  }

  refused-IsBalanced :
      (ctxs : Contexts) (r : Request) (s : Session)
      → s.sender ≡ checked r
      → Balanced s
      → s.pending.closed ≡ true
      → IsBalanced f n
          (given_up + count (audible (call f)) (swept ctxs s.pending))
          (stop (some r) s)
  unfolding swept count
  refused-IsBalanced ctxs r s i v shut =
      stop-IsBalanced f n (given_up + count (audible (call f)) (swept ctxs s.pending)) (some r) s
        (ground (arith, i)) (record { amount = ground (arith, v.amount, shut); queue = v.queue })

  none_gone : (s : Session) → Balanced s → IsBalanced f n (given_up + 0) s
  none_gone s v = record { amount = omega (arith, v.amount); queue = v.queue }

  -- A call that the table refuses stays with the loop, which returns it.
  pub add_pending-IsBalanced :
      (ctxs : Contexts) (w : Sender) (s : Session)
      → s.sender ≡ w
      → Fresh w s.pending
      → IsTable s.pending
      → Balanced s
      → IsBalanced f n
          (given_up + count (audible (call f)) (swept_by ctxs w s.pending))
          (add_pending ctxs w s)
  unfolding add_pending swept_by count
  add_pending-IsBalanced ctxs (checked r) s i free t v =
      let p = Pending.add ctxs r.msg.seq_no r s.pending in
      let Enters : Bool → Type 0 = λ b.
        IsBalanced f n
          (given_up + count (audible (call f)) (if b then swept ctxs s.pending else []))
          (if b
            then if p.1 then record s { pending = p.0; sender = sending r } else stop (some r) s
            else record s { sender = sending r }) in
      elim (Bool-cases (want_server_response r)) [
        | inl two_way ↦ subst Enters (sym two_way) (
            if_case (IsBalanced f n (given_up + count (audible (call f)) (swept ctxs s.pending)))
              p.1 _ _ (added-IsBalanced ctxs r s i free t v)
              (λ e. refused-IsBalanced ctxs r s i v (add-refused ctxs r.msg.seq_no r s.pending e)))
        | inr oneway ↦
            subst Enters (sym oneway)
              (record { amount = ground (arith, i, v.amount); queue = v.queue })
      ]
  add_pending-IsBalanced ctxs idle s i free t v = none_gone s v
  add_pending-IsBalanced ctxs (holding r) s i free t v = none_gone s v
  add_pending-IsBalanced ctxs (sending r) s i free t v = none_gone s v
  add_pending-IsBalanced ctxs (failing r e) s i free t v = none_gone s v
  add_pending-IsBalanced ctxs (awaiting r e) s i free t v = none_gone s v
  add_pending-IsBalanced ctxs (stopped r) s i free t v = none_gone s v
