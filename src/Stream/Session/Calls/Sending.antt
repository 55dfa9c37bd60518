-- ===== src/Stream/Session/Calls/Sending.antt =====
-- internal/stream/session.go: what the send loop makes of the two-way calls of a session.
use gorums.Prelude.{
  ℕ, ◌+◌, ◌≡◌, Bool, true, false, ◌||◌, Option, none, some, [], ◌∷◌, arith, if_both,
}
use gorums.Errors.{Error}
use gorums.Stream.Request.{Request, Contexts}
use gorums.Stream.SendQueue.{SendQueue, pop}
use gorums.Stream.SendQueue.Counts
use gorums.Stream.SendQueue.Counts.{count, count-append, audible, IsQueue, one}
use gorums.Stream.Session.{
  Session, Sender, idle, holding, checked, sending, failing, awaiting, stopped, reply_error,
}
use gorums.Stream.Session.Calls.{call, hand}
use gorums.Stream.Session.Calls.Moves.{count-reply}
use gorums.Stream.Session.Calls.Balance.{
  IsBalanced, queue_step, quiet-IsBalanced, end_if_drained-IsBalanced,
}
use gorums.Stream.Session.SendLoop.{take_request, quit, check_request, stop}

module _ (f : Request → Bool) (n given_up : ℕ) where
  abbrev Balanced : Session → Type 0
  Balanced s = IsBalanced f n given_up s

  abbrev in_hand : Sender → ℕ
  in_hand w = count (audible (call f)) (hand w)

  -- Another place of the send loop, with as many calls in hand.
  pub place-IsBalanced :
      (w : Sender) (s : Session)
      → in_hand w ≡ in_hand s.sender
      → Balanced s
      → Balanced (record s { sender = w })
  place-IsBalanced w s e v = record { amount = omega (arith, e, v.amount); queue = v.queue }

  pub stop-IsBalanced :
      (req : Option Request) (s : Session)
      → in_hand (stopped req) ≡ in_hand s.sender
      → Balanced s
      → Balanced (stop req s)
  unfolding stop
  stop-IsBalanced req s e v =
      end_if_drained-IsBalanced f n given_up
        (record s { sender = stopped req; send_stopped = true })
        (quiet-IsBalanced f n given_up (record s { sender = stopped req })
          (place-IsBalanced (stopped req) s e v))

  -- The request in hand is answered, and the send loop goes on at another place, with none in hand.
  pub answer-IsBalanced :
      (w : Sender) (r : Request) (e : Error) (s : Session)
      → in_hand s.sender ≡ in_hand w + count (audible (call f)) (r ∷ [])
      → Balanced s
      → Balanced (record (reply_error r e s) { sender = w })
  unfolding reply_error
  answer-IsBalanced w r e s h v = record {
    amount = omega (arith, h, v.amount, count-reply (call f) s.sent r s.id e);
    queue = v.queue;
  }

  taken-IsBalanced :
      (q : SendQueue) (req : Option Request) (s : Session)
      → Counts.heard (call f) q + count (audible (call f)) (one req) ≡ Counts.heard (call f) s.queue
      → IsQueue q
      → s.sender ≡ idle
      → Balanced s
      → Balanced (elim req [ none ↦ s | some r ↦ record s { queue = q; sender = holding r } ])
  unfolding count
  taken-IsBalanced q none s e iq i v = v
  taken-IsBalanced q (some r) s e iq i v = record {
    amount = ground (arith, e, v.amount);
    queue = iq;
  }

  pub take_request-IsBalanced :
      (w : Sender) (s : Session) → s.sender ≡ w → Balanced s → Balanced (take_request w s)
  unfolding take_request Counts.step Counts.taken count
  take_request-IsBalanced idle s i v =
      let a = queue_step (call f) (λ _. none) false s.queue Counts.pops v.queue tt in
      taken-IsBalanced (pop s.queue).0 (pop s.queue).1 s (omega (arith, a.0)) a.1 i v
  take_request-IsBalanced (holding r) s i v = v
  take_request-IsBalanced (checked r) s i v = v
  take_request-IsBalanced (sending r) s i v = v
  take_request-IsBalanced (failing r e) s i v = v
  take_request-IsBalanced (awaiting r e) s i v = v
  take_request-IsBalanced (stopped r) s i v = v

  pub quit-IsBalanced : (w : Sender) (s : Session) → s.sender ≡ w → Balanced s → Balanced (quit w s)
  unfolding quit count
  quit-IsBalanced idle s i v =
      if_both Balanced (s.ended || s.draining) (stop none s) s
        (stop-IsBalanced none s (ground (arith, i)) v) v
  quit-IsBalanced (holding r) s i v = v
  quit-IsBalanced (checked r) s i v = v
  quit-IsBalanced (sending r) s i v = v
  quit-IsBalanced (failing r e) s i v = v
  quit-IsBalanced (awaiting r e) s i v = v
  quit-IsBalanced (stopped r) s i v = v

  pub check_request-IsBalanced :
      (ctxs : Contexts) (w : Sender) (s : Session)
      → s.sender ≡ w
      → Balanced s
      → Balanced (check_request ctxs w s)
  unfolding check_request count
  check_request-IsBalanced ctxs (holding r) s i v =
      if_both Balanced (s.ended || s.draining) (stop (some r) s) _
        (stop-IsBalanced (some r) s (ground (arith, i)) v)
        (elim (ctxs r.ctx)
          as (λ o. Balanced (elim o [
            | some e ↦ record (reply_error r e s) { sender = idle }
            | none ↦ record s { sender = checked r }
          ])) [
            | none ↦ place-IsBalanced (checked r) s (ground (arith, i)) v
            | some e ↦ answer-IsBalanced idle r e s (ground (arith, i)) v
          ])
  check_request-IsBalanced ctxs idle s i v = v
  check_request-IsBalanced ctxs (checked r) s i v = v
  check_request-IsBalanced ctxs (sending r) s i v = v
  check_request-IsBalanced ctxs (failing r e) s i v = v
  check_request-IsBalanced ctxs (awaiting r e) s i v = v
  check_request-IsBalanced ctxs (stopped r) s i v = v
