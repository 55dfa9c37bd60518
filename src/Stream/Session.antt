-- ===== src/Stream/Session.antt =====
-- internal/stream/session.go: one gRPC stream of a channel, with the goroutine that sends, the one that
-- receives, and whatever else ends or drains it. The send loop runs in steps, and its place is part of
-- the state, since the others may overtake it; so are the calls that an end of the session took from
-- the table and has not disposed of. A round of receiving, its end and a drain are one step each. The
-- latency estimate and the callback on acceptance are left out.
pub mod SendLoop
pub mod Steps
pub mod Verdict
pub mod Calls
mod Tests
use gorums.Prelude.{
  ℕ, suc, Bool, true, false, not, ◌&&◌, ◌||◌, Option, none, some, List, [], ◌∷◌, ◌++◌, map,
  if◌then◌else◌, is_some, nat_beq, length,
}
use gorums.Prelude.Go.{Go, returns, panics, ◌>>=◌}
use gorums.Errors.{
  Error, Code, resource_exhausted, unavailable, unauthenticated, permission_denied,
  invalid_argument, unimplemented, other_code, eof, node_closed, stream_down, ErrorsIs,
}
use gorums.Stream.Request.{
  Request, Message, Response, Contexts, Delivery, send_error_response, want_server_response,
  want_send_confirmation, is_server_sequence_number,
}
use gorums.Stream.Pending
use gorums.Stream.Pending.{PendingCalls}
use gorums.Stream.SendQueue.{SendQueue, push_now, pop}
use gorums.Stream.Backoff.{is_refusal}

pub data Handoff : Type 0 where
  fresh send_failed accepted closed : Handoff

-- Where the send loop stands: at its select statement, with a request taken from the queue, past the
-- tests on it, in the send, in `fail` after a failed send, in the wait for the verdict after one, or
-- returned, with the request that it took and did not send.
pub data Sender : Type 0 where
  idle : Sender
  holding checked sending : Request → Sender
  failing awaiting : Request → Error → Sender
  stopped : Option Request → Sender

-- `ended` is whether `done` is closed, `channel_ended` whether the channel's context has ended, and
-- `receiving` whether the receive loop runs. `verdict` is whether that channel is closed. `disposing`
-- are the calls that `end` took from the table and has not retried or failed yet. `sent` are the
-- responses delivered, `handled` the requests pushed to the handler, `unmatched` the count of error
-- replies that no caller observes.
pub record Session : Type 0 where
  pub id : ℕ
  pub server_requests : Bool
  pub requeue : Bool
  pub suspect : Bool
  pub has_handler : Bool
  pub channel_ended : Bool
  pub ended : Bool
  pub receiving : Bool
  pub handoff : Handoff
  pub verdict : Bool
  pub refusal : Option Error
  pub is_accepted : Bool
  pub draining : Bool
  pub send_stopped : Bool
  pub pending : PendingCalls
  pub queue : SendQueue
  pub sender : Sender
  pub disposing : List (Request × Option Error)
  pub sent : List Delivery
  pub handled : List Message
  pub unmatched : ℕ
  pub health : Option Error

-- `newSession`, on a channel with the queue given.
unfoldable pub new_session : ℕ → Bool → Bool → Bool → Bool → SendQueue → Session
new_session id server_requests requeue suspect has_handler queue = record {
  id = id;
  server_requests = server_requests;
  requeue = requeue;
  suspect = suspect;
  has_handler = has_handler;
  channel_ended = false;
  ended = false;
  receiving = true;
  handoff = fresh;
  verdict = false;
  refusal = none;
  is_accepted = false;
  draining = false;
  send_stopped = false;
  pending = Pending.new_pending;
  queue = queue;
  sender = idle;
  disposing = [];
  sent = [];
  handled = [];
  unmatched = 0;
  health = none;
}

-- The start of `sendLoop`, with the request that it is given, if any.
unfoldable pub start_sending : Option Request → Session → Session
start_sending req s = record s { sender = elim req [ none ↦ idle | some r ↦ holding r ] }

-- `isResourceExhausted`, of an error that may be nil, by gRPC's `status.Code`.
unfoldable pub is_resource_exhausted : (Error → Code) → Option Error → Bool
is_resource_exhausted code none = false
is_resource_exhausted code (some e) = elim (code e) [ resource_exhausted ↦ true | _ ↦ false ]

-- `cmp.Or` on errors.
abbrev pub or_error : Option Error → Error → Error
or_error none e = e
or_error (some d) e = d

-- `refused`
unfoldable pub refused : Session → Option Error
refused s = if s.verdict then s.refusal else none

-- `outcome`, which waits while it has no result.
unfoldable pub outcome : Session → Option (Bool × Option Error)
outcome s =
    if s.ended
    then if s.verdict then some (s.is_accepted, s.refusal) else none
    else some (s.is_accepted, none)

unfoldable pub reply_error : Request → Error → Session → Session
unfolding send_error_response
reply_error req e s = record s { sent = s.sent ++ send_error_response req s.id e }

-- `retryOrFail`, by what `refused` returns.
unfoldable pub retry_unless :
    Option Error → (Error → Code) → Request → Option Error → Session → Session
unfolding reply_error is_resource_exhausted push_now
retry_unless (some refusal) code req err s = reply_error req refusal s
retry_unless none code req err s =
    if s.requeue && is_resource_exhausted code err
    then reply_error req (or_error err stream_down) s
    else if s.requeue && not req.streaming
    then record s { queue = push_now req s.queue }
    else if s.requeue && s.channel_ended
    then reply_error req node_closed s
    else reply_error req stream_down s

abbrev pub retry_or_fail : (Error → Code) → Request → Option Error → Session → Session
retry_or_fail code req err s = retry_unless (refused s) code req err s

-- The loop of `end`: the next call of those taken from the table.
unfoldable pub settle : (Error → Code) → List (Request × Option Error) → Session → Session
settle code [] s = s
settle code ((req, err) ∷ rest) s = retry_or_fail code req err (record s { disposing = rest })

-- `end` up to its loop.
unfoldable pub end_session : Option Error → Session → Session
end_session err s =
    let (pending, reqs) = Pending.drain s.pending in
    record s {
      ended = true;
      pending = pending;
      disposing = s.disposing ++ map (λ r. (r, err)) reqs;
    }

-- `recordHealth`
abbrev pub record_health : Option Error → Session → Session
record_health err s = record s { health = err }

-- `fail`
unfoldable pub fail_session : Error → Session → Session
unfolding end_session
fail_session e s = end_session (some e) (if s.ended then s else record_health (some e) s)

unfoldable pub end_if_drained : Session → Session
unfolding end_session
end_if_drained s =
    if s.draining && s.send_stopped && nat_beq (length s.pending.calls) 0
    then end_session none s
    else s

unfoldable pub start_drain : Session → Session
unfolding end_if_drained
start_drain s = end_if_drained (
    if s.draining
    then s
    else record s { draining = true; pending = Pending.watch_expiry s.pending })

-- The close of the channel `verdict`, which panics if it is closed.
unfoldable pub close_verdict : Session → Go Session
close_verdict s = if s.verdict then panics else returns (record s { verdict = true })

-- `accept`
unfoldable pub accept : Session → Go Session
unfolding close_verdict
accept s = close_verdict (record s { is_accepted = true; handoff = accepted })

abbrev pub is_accepted_handoff : Handoff → Bool
is_accepted_handoff accepted = true
is_accepted_handoff fresh = false
is_accepted_handoff send_failed = false
is_accepted_handoff closed = false

abbrev pub is_send_failed : Handoff → Bool
is_send_failed send_failed = true
is_send_failed fresh = false
is_send_failed accepted = false
is_send_failed closed = false

-- `receiveFailed`: the end of the verdict, and what follows it.
unfoldable pub decide : (Error → Code) → Error → Session → Go Session
unfolding close_verdict
decide code e s =
    if is_accepted_handoff s.handoff
    then returns (record s { handoff = closed; receiving = false })
    else close_verdict (record s {
      handoff = closed;
      receiving = false;
      refusal = if s.requeue && is_refusal (code e) then some e else s.refusal;
    })

unfoldable pub receive_failed : (Error → Code) → Error → Session → Go Session
unfolding decide fail_session end_session
receive_failed code e s = do
  s' ← decide code e s
  returns (
      if is_some s'.refusal || is_send_failed s.handoff
      then end_session (some e) (record_health (some e) s')
      else fail_session e s')

-- What `handle` makes of a response, by the call that it found.
unfoldable pub respond : Contexts → Message → Option Request → Session → Session
respond ctxs msg none s = if is_some msg.status then record s { unmatched = suc s.unmatched } else s
respond ctxs msg (some req) s = record s {
  unmatched = if is_some msg.status && is_some (ctxs req.ctx) then suc s.unmatched else s.unmatched;
  sent =
      s.sent
      ++ (record {
        to = req;
        response = record { node_id = s.id; value = some msg; err = msg.status };
      })
        ∷ [];
}

-- `handle`, of a frame whose message has the error status given.
unfoldable pub handle : Contexts → Message → Session → Session
unfolding respond
handle ctxs msg s =
    let (pending, taken) = Pending.take msg.seq_no s.pending in
    if (if is_server_sequence_number msg.seq_no then s.server_requests else not s.server_requests)
    then if s.has_handler then record s { handled = s.handled ++ msg ∷ [] } else s
    else respond ctxs msg taken (record s { pending = pending })

-- The test on `accepted` in `receive`.
unfoldable pub accept_first : Bool → Session → Go Session
unfolding accept
accept_first true s = returns s
accept_first false s = accept s

-- One round of `receive`, on a frame.
unfoldable pub receive_frame : Contexts → Message → Session → Go Session
unfolding accept_first handle end_if_drained
receive_frame ctxs msg s = do
  s' ← accept_first s.is_accepted (record_health none s)
  returns (end_if_drained (handle ctxs msg s'))
