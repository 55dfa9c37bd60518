-- ===== src/Stream/Session/SendLoop.antt =====
-- internal/stream/session.go: the send loop of a session, step by step, each at the place of the loop
-- that it is given; at another place, the step does nothing.
use gorums.Prelude.{Bool, true, false, not, ◌||◌, Option, none, some, [], ◌∷◌, ◌++◌, if◌then◌else◌}
use gorums.Errors.{Error, eof, ErrorsIs}
use gorums.Stream.Request.{Request, Contexts, want_server_response, want_send_confirmation}
use gorums.Stream.Pending
use gorums.Stream.SendQueue.{pop}
use gorums.Stream.Session.{
  Session, Handoff, Sender, fresh, send_failed, accepted, closed, idle, holding, checked, sending,
  failing, awaiting, stopped, reply_error, end_if_drained, fail_session, or_error, record_health,
}

-- The send loop returns, and its deferred `stopSending` runs.
unfoldable pub stop : Option Request → Session → Session
unfolding end_if_drained
stop req s = end_if_drained (record s { sender = stopped req; send_stopped = true })

-- The select statement: a request from the queue. Without one, the loop waits on.
unfoldable pub take_request : Sender → Session → Session
unfolding pop
take_request idle s =
    let (queue, req) = pop s.queue in
    elim req [ none ↦ s | some r ↦ record s { queue = queue; sender = holding r } ]
take_request _ s = s

-- The select statement: the session has ended or drains.
unfoldable pub quit : Sender → Session → Session
unfolding stop
quit idle s = if s.ended || s.draining then stop none s else s
quit _ s = s

-- The tests on a request that was taken.
unfoldable pub check_request : Contexts → Sender → Session → Session
unfolding stop reply_error
check_request ctxs (holding r) s =
    if s.ended || s.draining then stop (some r) s else elim (ctxs r.ctx) [
      | some e ↦ record (reply_error r e s) { sender = idle }
      | none ↦ record s { sender = checked r }
    ]
check_request ctxs _ s = s

-- A two-way request enters the table of pending calls.
unfoldable pub add_pending : Contexts → Sender → Session → Session
unfolding stop
add_pending ctxs (checked r) s =
    if want_server_response r
    then (let (pending, added) = Pending.add ctxs r.msg.seq_no r s.pending in
        if added then record s { pending = pending; sender = sending r } else stop (some r) s)
    else record s { sender = sending r }
add_pending ctxs _ s = s

-- `healthy`
unfoldable pub healthy : Session → Bool
healthy s = not s.suspect || s.is_accepted

-- `send` succeeds.
unfoldable pub send_ok : Sender → Session → Session
unfolding healthy
send_ok (sending r) s =
    let s' = if healthy s then record_health none s else s in
    if want_send_confirmation r
    then record s' {
      sender = idle;
      sent =
          s.sent
          ++ (record { to = r; response = record { node_id = s.id; value = none; err = none } })
            ∷ [];
    }
    else record s' { sender = idle }
send_ok _ s = s

-- What `sendFailed` of an outbound session makes of the handoff that it finds: whether receiving disposes
-- of the pending calls, and the session after it. `none` is another round of its loop.
unfoldable pub send_failed_at : Handoff → Bool → Session → Option (Bool × Session)
send_failed_at closed is_eof s = some (true, record s { ended = true })
send_failed_at accepted is_eof s = some (is_eof, s)
send_failed_at fresh is_eof s =
    some (if is_eof then (true, record s { handoff = send_failed; ended = true }) else (false, s))
send_failed_at send_failed is_eof s = if is_eof then none else some (false, s)

-- `sendFailed`, but for its last statement.
unfoldable pub send_failed_decides : Bool → Session → Option (Bool × Session)
unfolding send_failed_at
send_failed_decides is_eof s =
    if s.requeue then send_failed_at s.handoff is_eof s else some (false, s)

-- What follows in `send` for the request r and the error e.
unfoldable pub send_fails : Request → Error → Option (Bool × Session) → Session → Session
unfolding stop
send_fails r e none s = s
send_fails r e (some (receive_decides, s')) s =
    if receive_decides
    then if want_server_response r then stop none s' else record s' { sender = awaiting r e }
    else record s' { sender = failing r e }

-- `send` fails with e: up to the decision of `sendFailed`, which another step follows.
unfoldable pub send_err : ErrorsIs → Error → Sender → Session → Session
unfolding send_failed_decides send_fails
send_err lib e (sending r) s = send_fails r e (send_failed_decides (lib.is (some e) eof) s) s
send_err lib e _ s = s

-- `fail` of `sendFailed`, and the answer to a request that is not pending.
unfoldable pub fail_send : Contexts → Sender → Session → Session
unfolding fail_session reply_error stop
fail_send ctxs (failing r e) s =
    let s' = fail_session e s in
    stop none (if want_server_response r then s' else reply_error r (or_error (ctxs r.ctx) e) s')
fail_send ctxs _ s = s

-- The verdict has come: the answer to a request that waits for it.
unfoldable pub hear_verdict : Contexts → Sender → Session → Session
unfolding reply_error stop
hear_verdict ctxs (awaiting r e) s =
    if s.verdict
    then stop none (reply_error r (or_error (ctxs r.ctx) (or_error s.refusal e)) s)
    else s
hear_verdict ctxs _ s = s
