-- ===== src/Stream/Session/Calls/Receiving.antt =====
-- internal/stream/session.go: what receiving makes of the two-way calls of a session.
use gorums.Prelude.{
  ℕ, ◌≡◌, sym, subst, Bool, true, false, ◌||◌, Option, none, some, [], ◌∷◌, ◌++◌, if◌then◌else◌,
  arith, is_some, Option-cases, inl, inr, if_both,
}
use gorums.Prelude.Go.{returns, panics, IfReturns, IfReturns-bind, IfReturns-both}
use gorums.Errors.{Error, Code}
use gorums.Stream.Request.{Request, Message, Contexts, Delivery}
use gorums.Stream.Pending
use gorums.Stream.Pending.{PendingCall, PendingCalls, find, delete, watch_expiry}
use gorums.Stream.Pending.Invariant.{IsTable}
use gorums.Stream.SendQueue.Counts.{count, audible}
use gorums.Stream.SendQueue.Steps.{count-failed}
use gorums.Stream.Session.{
  Session, accepted, record_health, accept, accept_first, close_verdict, decide, receive_failed,
  handle, respond, receive_frame, is_accepted_handoff, is_send_failed,
}
use gorums.Stream.Session.Calls.{call}
use gorums.Stream.Session.Calls.Moves.{count-delete}
use gorums.Stream.Session.Calls.Balance.{
  IsBalanced, quiet-IsBalanced, end_session-IsBalanced, fail_session-IsBalanced,
  end_if_drained-IsBalanced,
}

take-absent : (id : ℕ) (p : PendingCalls) → find id p.calls ≡ none → Pending.take id p ≡ (p, none)
unfolding Pending.take
take-absent id p e = ground arith

take-found :
    (id : ℕ) (c : PendingCall) (p : PendingCalls)
    → find id p.calls ≡ some c
    → Pending.take id p
      ≡ (if c.req.streaming then p else record p { calls = delete id p.calls }, some c.req)
unfolding Pending.take
take-found id c p e = ground arith

module _ (f : Request → Bool) (n given_up : ℕ) where
  abbrev Balanced : Session → Type 0
  Balanced s = IsBalanced f n given_up s

  close_verdict-IsBalanced : (s : Session) → Balanced s → IfReturns Balanced (close_verdict s)
  unfolding close_verdict
  close_verdict-IsBalanced s v =
      if_both (IfReturns Balanced) s.verdict panics (returns (record s { verdict = true })) tt
        (quiet-IsBalanced f n given_up s v)

  pub accept-IsBalanced : (s : Session) → Balanced s → IfReturns Balanced (accept s)
  unfolding accept
  accept-IsBalanced s v =
      close_verdict-IsBalanced (record s { is_accepted = true; handoff = accepted })
        (quiet-IsBalanced f n given_up s v)

  accept_first-IsBalanced :
      (b : Bool) (s : Session) → Balanced s → IfReturns Balanced (accept_first b s)
  unfolding accept_first
  accept_first-IsBalanced true s v = v
  accept_first-IsBalanced false s v = accept-IsBalanced s v

  abbrev Responded : Contexts → Message → Session → PendingCalls × Option Request → Type 0
  Responded ctxs msg s taken = Balanced (respond ctxs msg taken.1 (record s { pending = taken.0 }))

  -- A response to a call with one response takes it out of the table, and is its answer.
  found-IsBalanced :
      (ctxs : Contexts) (msg : Message) (c : PendingCall) (s : Session)
      → IsTable s.pending
      → find msg.seq_no s.pending.calls ≡ some c
      → Balanced s
      → Responded ctxs msg s (
        if c.req.streaming
            then s.pending
            else record s.pending { calls = delete msg.seq_no s.pending.calls },
        some c.req,
      )
  unfolding respond count
  found-IsBalanced ctxs msg c s t there v = record {
    amount =
        let d : Delivery = record {
          to = c.req;
          response = record { node_id = s.id; value = some msg; err = msg.status };
        } in
        ground (
          arith,
          v.amount,
          count-failed (audible (call f)) s.sent d,
          count-delete (audible (call f)) msg.seq_no c s.pending.calls t.keys there,
        );
    queue = v.queue;
  }

  respond-IsBalanced :
      (ctxs : Contexts) (msg : Message) (s : Session)
      → IsTable s.pending
      → Balanced s
      → Responded ctxs msg s (Pending.take msg.seq_no s.pending)
  respond-IsBalanced ctxs msg s t v = elim (Option-cases (find msg.seq_no s.pending.calls)) [
    | inl absent ↦ subst (Responded ctxs msg s) (sym (take-absent msg.seq_no s.pending absent)) (
        unfold respond in
        if_both Balanced (is_some msg.status) _ s (quiet-IsBalanced f n given_up s v) v)
    | inr (c, there) ↦
        subst (Responded ctxs msg s) (sym (take-found msg.seq_no c s.pending there))
          (found-IsBalanced ctxs msg c s t there v)
  ]

  handle-IsBalanced :
      (ctxs : Contexts) (msg : Message) (s : Session)
      → IsTable s.pending
      → Balanced s
      → Balanced (handle ctxs msg s)
  unfolding handle
  handle-IsBalanced ctxs msg s t v =
      if_both Balanced _ _ _
        (if_both Balanced s.has_handler (record s { handled = s.handled ++ msg ∷ [] }) s
          (quiet-IsBalanced f n given_up s v) v)
        (respond-IsBalanced ctxs msg s t v)

  accept_first-IsTable :
      (b : Bool) (s : Session)
      → IsTable s.pending
      → IfReturns (λ t. IsTable t.pending) (accept_first b s)
  unfolding accept_first accept close_verdict
  accept_first-IsTable true s t = t
  accept_first-IsTable false s t =
      if_both (IfReturns (λ t. IsTable t.pending)) s.verdict panics _ tt t

  pub receive_frame-IsBalanced :
      (ctxs : Contexts) (msg : Message) (s : Session)
      → IsTable s.pending
      → Balanced s
      → IfReturns Balanced (receive_frame ctxs msg s)
  unfolding receive_frame
  receive_frame-IsBalanced ctxs msg s t v =
      let first = record_health none s in
      IfReturns-bind (λ s'. IsTable s'.pending × Balanced s') Balanced
        (accept_first s.is_accepted first) _
        (IfReturns-both (λ s'. IsTable s'.pending) Balanced (accept_first s.is_accepted first)
          (accept_first-IsTable s.is_accepted first t)
          (accept_first-IsBalanced s.is_accepted first (quiet-IsBalanced f n given_up s v)))
        (λ s' w.
          end_if_drained-IsBalanced f n given_up (handle ctxs msg s')
            (handle-IsBalanced ctxs msg s' w.0 w.1))

  decide-IsBalanced :
      (code : Error → Code) (e : Error) (s : Session)
      → Balanced s
      → IfReturns Balanced (decide code e s)
  unfolding decide
  decide-IsBalanced code e s v =
      if_both (IfReturns Balanced) (is_accepted_handoff s.handoff) _ _
        (quiet-IsBalanced f n given_up s v)
        (close_verdict-IsBalanced _ (quiet-IsBalanced f n given_up s v))

  pub receive_failed-IsBalanced :
      (code : Error → Code) (e : Error) (s : Session)
      → Balanced s
      → IfReturns Balanced (receive_failed code e s)
  unfolding receive_failed
  receive_failed-IsBalanced code e s v =
      IfReturns-bind Balanced Balanced (decide code e s) _ (decide-IsBalanced code e s v) (λ t w.
        if_both Balanced (is_some t.refusal || is_send_failed s.handoff) _ _
          (end_session-IsBalanced f n given_up (some e) (record_health (some e) t)
            (quiet-IsBalanced f n given_up t w))
          (fail_session-IsBalanced f n given_up e t w))
