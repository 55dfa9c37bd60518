-- ===== src/Stream/Session/Calls/Balance.antt =====
-- internal/stream/session.go: where the parts of a step leave the two-way calls of a session.
use gorums.Prelude.{
  ℕ, ◌+◌, ◌≡◌, Bool, true, false, not, ◌&&◌, Option, none, some, List, [], ◌∷◌, if◌then◌else◌,
  arith, if_both,
}
use gorums.Errors.{Error, Code, stream_down, node_closed}
use gorums.Stream.Request.{Request, Message, Contexts}
use gorums.Stream.Pending
use gorums.Stream.Pending.{PendingCalls, find, delete, watch_expiry}
use gorums.Stream.SendQueue.{SendQueue, push_now}
use gorums.Stream.SendQueue.Counts
use gorums.Stream.SendQueue.Counts.{count, count-append, audible, IsQueue}
use gorums.Stream.SendQueue.Steps.{step-Accounted}
use gorums.Stream.Session.{
  Session, Handoff, settle, retry_unless, reply_error, refused, end_session, fail_session,
  end_if_drained, start_drain, record_health, or_error, is_resource_exhausted,
}
use gorums.Stream.Session.Calls.{call, requests, open_calls, answered}
use gorums.Stream.Session.Calls.Moves.{count-watch_calls, count-disposing, count-reply}

-- What an operation on the queue does to the calls of a kind, and what it leaves of the queue.
pub queue_step :
    (g : Request → Bool) (ctxs : Contexts) (is_done : Bool) (q : SendQueue) (op : Counts.Op)
    → IsQueue q
    → Counts.Enabled ctxs is_done q op
    → (Counts.heard g (Counts.step q op) + count (audible g) (Counts.taken q op)
        ≡ Counts.heard g q + count (audible g) (Counts.given op))
      × IsQueue (Counts.step q op)
queue_step g ctxs is_done q op v en = let a = step-Accounted g ctxs is_done q v op en in (a.0, a.2)

pub queue_push :
    (g : Request → Bool) (req : Request) (q : SendQueue)
    → IsQueue q
    → (Counts.heard g (push_now req q) ≡ Counts.heard g q + count (audible g) (req ∷ []))
      × IsQueue (push_now req q)
unfolding Counts.step Counts.taken count
queue_push g req q v =
    let a = queue_step g (λ _. none) false q (Counts.pushes req) v tt in (omega (arith, a.0), a.1)

-- The calls held, answered and given up on are n in all.
pub record IsBalanced (f : Request → Bool) (n given_up : ℕ) (s : Session) : Type 0 where
  pub amount : open_calls f s + answered f s + given_up ≡ n
  pub queue : IsQueue s.queue

module _ (f : Request → Bool) (n given_up : ℕ) where
  abbrev Balanced : Session → Type 0
  Balanced s = IsBalanced f n given_up s

  -- A change of the fields that no call is in.
  pub quiet-IsBalanced :
      {channel_ended ended receiving is_accepted verdict draining send_stopped : Bool}
      {handoff : Handoff} {refusal : Option Error} {handled : List Message} {unmatched : ℕ}
      {health : Option Error} (s : Session)
      → Balanced s
      → Balanced (record s {
        channel_ended = channel_ended;
        ended = ended;
        receiving = receiving;
        handoff = handoff;
        verdict = verdict;
        refusal = refusal;
        is_accepted = is_accepted;
        draining = draining;
        send_stopped = send_stopped;
        handled = handled;
        unmatched = unmatched;
        health = health;
      })
  quiet-IsBalanced s v = record { amount = v.amount; queue = v.queue }

  pub end_session-IsBalanced :
      (err : Option Error) (s : Session) → Balanced s → Balanced (end_session err s)
  unfolding end_session Pending.drain count
  end_session-IsBalanced err s v = record {
    amount = omega (
      arith,
      v.amount,
      count-disposing (audible (call f)) s.disposing err (requests s.pending.calls),
    );
    queue = v.queue;
  }

  pub fail_session-IsBalanced : (e : Error) (s : Session) → Balanced s → Balanced (fail_session e s)
  unfolding fail_session
  fail_session-IsBalanced e s v =
      end_session-IsBalanced (some e) (if s.ended then s else record_health (some e) s)
        (if_both Balanced s.ended s (record_health (some e) s) v (quiet-IsBalanced s v))

  pub end_if_drained-IsBalanced : (s : Session) → Balanced s → Balanced (end_if_drained s)
  unfolding end_if_drained
  end_if_drained-IsBalanced s v = if_both Balanced _ _ s (end_session-IsBalanced none s v) v

  pub start_drain-IsBalanced : (s : Session) → Balanced s → Balanced (start_drain s)
  unfolding start_drain watch_expiry
  start_drain-IsBalanced s v = end_if_drained-IsBalanced _ (
      if_both Balanced s.draining s (record s { draining = true; pending = watch_expiry s.pending })
        v
        (if_both (λ p. Balanced (record s { draining = true; pending = p })) s.pending.watching
          s.pending _ (quiet-IsBalanced s v)
          (record {
            amount = omega (arith, v.amount, count-watch_calls (audible (call f)) s.pending.calls);
            queue = v.queue;
          })))

  -- One of the calls that are disposed of is answered.
  reply-IsBalanced :
      (req : Request) (e : Error) (rest : List (Request × Option Error)) (err : Option Error)
      (s : Session)
      → s.disposing ≡ (req, err) ∷ rest
      → Balanced s
      → Balanced (reply_error req e (record s { disposing = rest }))
  unfolding reply_error count
  reply-IsBalanced req e rest err s first v = record {
    amount = ground (arith, v.amount, count-reply (call f) s.sent req s.id e);
    queue = v.queue;
  }

  requeue-IsBalanced :
      (req : Request) (err : Option Error) (rest : List (Request × Option Error)) (s : Session)
      → s.disposing ≡ (req, err) ∷ rest
      → Balanced s
      → Balanced (record s { disposing = rest; queue = push_now req s.queue })
  unfolding count
  requeue-IsBalanced req err rest s first v = record {
    amount = ground (arith, v.amount, queue_push (call f) req s.queue v.queue);
    queue = (queue_push (call f) req s.queue v.queue).1;
  }

  retry_unless-IsBalanced :
      (refusal : Option Error) (code : Error → Code) (req : Request) (err : Option Error)
      (rest : List (Request × Option Error)) (s : Session)
      → s.disposing ≡ (req, err) ∷ rest
      → Balanced s
      → Balanced (retry_unless refusal code req err (record s { disposing = rest }))
  unfolding retry_unless
  retry_unless-IsBalanced (some refusal) code req err rest s first v =
      reply-IsBalanced req refusal rest err s first v
  retry_unless-IsBalanced none code req err rest s first v =
      let reply = λ (e : Error). reply-IsBalanced req e rest err s first v in
      if_both Balanced (s.requeue && is_resource_exhausted code err) _ _
        (reply (or_error err stream_down))
        (if_both Balanced (s.requeue && not req.streaming) _ _
          (requeue-IsBalanced req err rest s first v)
          (if_both Balanced (s.requeue && s.channel_ended) _ _ (reply node_closed)
            (reply stream_down)))

  pub settle-IsBalanced :
      (code : Error → Code) (ds : List (Request × Option Error)) (s : Session)
      → s.disposing ≡ ds
      → Balanced s
      → Balanced (settle code ds s)
  unfolding settle refused
  settle-IsBalanced code [] s e v = v
  settle-IsBalanced code ((req, err) ∷ rest) s e v =
      retry_unless-IsBalanced (refused s) code req err rest s e v
