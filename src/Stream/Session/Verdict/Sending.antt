-- ===== src/Stream/Session/Verdict/Sending.antt =====
-- internal/stream/session.go: the verdict of a session and its send loop.
use gorums.Prelude.{
  ℕ, ◌≡◌, refl, subst, Bool, true, false, ◌||◌, Option, none, some, if◌then◌else◌, arith, if_both,
}
use gorums.Errors.{Error, Code, ErrorsIs, eof}
use gorums.Stream.Request.{Request, Contexts, want_server_response, want_send_confirmation}
use gorums.Stream.Pending
use gorums.Stream.Pending.{PendingCalls}
use gorums.Stream.Pending.Invariant.{add-IsTable}
use gorums.Stream.SendQueue.{pop}
use gorums.Stream.Session.{
  Session, Handoff, fresh, send_failed, accepted, closed, Sender, idle, holding, checked, sending,
  failing, awaiting, stopped, reply_error, fail_session, record_health, or_error,
}
use gorums.Stream.Session.SendLoop.{
  take_request, quit, check_request, add_pending, send_ok, send_err, fail_send, hear_verdict, stop,
  send_failed_at, send_failed_decides, send_fails, healthy,
}
use gorums.Stream.Session.Verdict.{
  IsSession, Decision, Agrees, quiet-IsSession, cancelled-IsSession, table-IsSession,
  fail_session-IsSession, end_if_drained-IsSession,
}

keeps_closed :
    (ctxs : Contexts) (msg_id : ℕ) (req : Request) (p : PendingCalls)
    → (Pending.add ctxs msg_id req p).0.closed ≡ p.closed
unfolding Pending.add Pending.sweep
keeps_closed ctxs msg_id req p = ground arith

module _ (code : Error → Code) (f : Decision) where
  stop-IsSession :
      (req : Option Request) (s : Session) → IsSession code f s → IsSession code f (stop req s)
  unfolding stop
  stop-IsSession req s v =
      end_if_drained-IsSession code f (record s { sender = stopped req; send_stopped = true })
        (quiet-IsSession code f s v)

  pub take_request-IsSession :
      (w : Sender) (s : Session) → IsSession code f s → IsSession code f (take_request w s)
  unfolding take_request
  take_request-IsSession idle s v =
      elim (pop s.queue).1
        as (λ req. IsSession code f (elim req [
          | none ↦ s
          | some r ↦ record s { queue = (pop s.queue).0; sender = holding r }
        ])) [ none ↦ v | some r ↦ quiet-IsSession code f s v ]
  take_request-IsSession (holding r) s v = v
  take_request-IsSession (checked r) s v = v
  take_request-IsSession (sending r) s v = v
  take_request-IsSession (failing r e) s v = v
  take_request-IsSession (awaiting r e) s v = v
  take_request-IsSession (stopped r) s v = v

  pub quit-IsSession : (w : Sender) (s : Session) → IsSession code f s → IsSession code f (quit w s)
  unfolding quit
  quit-IsSession idle s v = if_both (IsSession code f) _ _ s (stop-IsSession none s v) v
  quit-IsSession (holding r) s v = v
  quit-IsSession (checked r) s v = v
  quit-IsSession (sending r) s v = v
  quit-IsSession (failing r e) s v = v
  quit-IsSession (awaiting r e) s v = v
  quit-IsSession (stopped r) s v = v

  pub check_request-IsSession :
      (ctxs : Contexts) (w : Sender) (s : Session)
      → IsSession code f s
      → IsSession code f (check_request ctxs w s)
  unfolding check_request reply_error
  check_request-IsSession ctxs (holding r) s v =
      if_both (IsSession code f) (s.ended || s.draining) _ _ (stop-IsSession (some r) s v)
        (elim (ctxs r.ctx)
          as (λ o. IsSession code f (elim o [
            | some e ↦ record (reply_error r e s) { sender = idle }
            | none ↦ record s { sender = checked r }
          ])) [ none ↦ quiet-IsSession code f s v | some e ↦ quiet-IsSession code f s v ])
  check_request-IsSession ctxs idle s v = v
  check_request-IsSession ctxs (checked r) s v = v
  check_request-IsSession ctxs (sending r) s v = v
  check_request-IsSession ctxs (failing r e) s v = v
  check_request-IsSession ctxs (awaiting r e) s v = v
  check_request-IsSession ctxs (stopped r) s v = v

  pub add_pending-IsSession :
      (ctxs : Contexts) (w : Sender) (s : Session)
      → IsSession code f s
      → IsSession code f (add_pending ctxs w s)
  unfolding add_pending
  add_pending-IsSession ctxs (checked r) s v =
      let p = (Pending.add ctxs r.msg.seq_no r s.pending).0 in
      if_both (IsSession code f) (want_server_response r) _ _
        (if_both (IsSession code f) _ _ _
          (quiet-IsSession code f (record s { pending = p })
            (table-IsSession code f s p (add-IsTable ctxs r.msg.seq_no r s.pending v.facts.table)
              (keeps_closed ctxs r.msg.seq_no r s.pending) v))
          (stop-IsSession (some r) s v))
        (quiet-IsSession code f s v)
  add_pending-IsSession ctxs idle s v = v
  add_pending-IsSession ctxs (holding r) s v = v
  add_pending-IsSession ctxs (sending r) s v = v
  add_pending-IsSession ctxs (failing r e) s v = v
  add_pending-IsSession ctxs (awaiting r e) s v = v
  add_pending-IsSession ctxs (stopped r) s v = v

  pub send_ok-IsSession :
      (w : Sender) (s : Session) → IsSession code f s → IsSession code f (send_ok w s)
  unfolding send_ok
  send_ok-IsSession (sending r) s v =
      let w =
        if_both (IsSession code f) (healthy s) (record_health none s) s (quiet-IsSession code f s v)
          v in
      if_both (IsSession code f) (want_send_confirmation r) _ _
        (quiet-IsSession code f (if healthy s then record_health none s else s) w)
        (quiet-IsSession code f (if healthy s then record_health none s else s) w)
  send_ok-IsSession idle s v = v
  send_ok-IsSession (holding r) s v = v
  send_ok-IsSession (checked r) s v = v
  send_ok-IsSession (failing r e) s v = v
  send_ok-IsSession (awaiting r e) s v = v
  send_ok-IsSession (stopped r) s v = v

  -- What a decision of `sendFailed` is, if there is one.
  abbrev DecidedSession : Option (Bool × Session) → Type 0
  DecidedSession none = Unit
  DecidedSession (some d) = IsSession code f d.1

  send_failed_at-IsSession :
      (h : Handoff) (is_eof : Bool) (s : Session)
      → s.handoff ≡ h
      → IsSession code f s
      → DecidedSession (send_failed_at h is_eof s)
  unfolding send_failed_at
  send_failed_at-IsSession fresh is_eof s e v =
      let (unaccepted, going) =
        subst (λ h. Agrees h s.is_accepted s.receiving s.ended) e v.facts.handed in
      if_both (λ (d : Bool × Session). IsSession code f d.1) is_eof _ (false, s)
        (record {
          facts = record {
            table = v.facts.table;
            decided = v.facts.decided;
            kept = v.facts.kept;
            handed = (unaccepted, going, refl);
            unaccepted = v.facts.unaccepted;
          };
          shut = v.shut;
          finished = λ h. refl;
        })
        v
  send_failed_at-IsSession send_failed true s e v = tt
  send_failed_at-IsSession send_failed false s e v = v
  send_failed_at-IsSession accepted is_eof s e v = v
  send_failed_at-IsSession closed is_eof s e v = cancelled-IsSession code f s v

  send_fails-IsSession :
      (r : Request) (e : Error) (d : Option (Bool × Session)) (s : Session)
      → DecidedSession d
      → IsSession code f s
      → IsSession code f (send_fails r e d s)
  unfolding send_fails
  send_fails-IsSession r e none s w v = v
  send_fails-IsSession r e (some (receive_decides, s')) s w v =
      if_both (IsSession code f) receive_decides _ _
        (if_both (IsSession code f) (want_server_response r) _ _ (stop-IsSession none s' w)
          (quiet-IsSession code f s' w))
        (quiet-IsSession code f s' w)

  pub send_err-IsSession :
      (lib : ErrorsIs) (e : Error) (w : Sender) (s : Session)
      → IsSession code f s
      → IsSession code f (send_err lib e w s)
  unfolding send_err send_failed_decides
  send_err-IsSession lib e (sending r) s v =
      send_fails-IsSession r e _ s
        (if_both DecidedSession s.requeue _ (some (false, s))
          (send_failed_at-IsSession s.handoff (lib.is (some e) eof) s refl v) v)
        v
  send_err-IsSession lib e idle s v = v
  send_err-IsSession lib e (holding r) s v = v
  send_err-IsSession lib e (checked r) s v = v
  send_err-IsSession lib e (failing r d) s v = v
  send_err-IsSession lib e (awaiting r d) s v = v
  send_err-IsSession lib e (stopped r) s v = v

  pub fail_send-IsSession :
      (ctxs : Contexts) (w : Sender) (s : Session)
      → IsSession code f s
      → IsSession code f (fail_send ctxs w s)
  unfolding fail_send reply_error
  fail_send-IsSession ctxs (failing r e) s v =
      let w = fail_session-IsSession code f e s v.facts in
      stop-IsSession none _ (
        if_both (IsSession code f) (want_server_response r) (fail_session e s) _ w
          (quiet-IsSession code f (fail_session e s) w))
  fail_send-IsSession ctxs idle s v = v
  fail_send-IsSession ctxs (holding r) s v = v
  fail_send-IsSession ctxs (checked r) s v = v
  fail_send-IsSession ctxs (sending r) s v = v
  fail_send-IsSession ctxs (awaiting r e) s v = v
  fail_send-IsSession ctxs (stopped r) s v = v

  pub hear_verdict-IsSession :
      (ctxs : Contexts) (w : Sender) (s : Session)
      → IsSession code f s
      → IsSession code f (hear_verdict ctxs w s)
  unfolding hear_verdict reply_error
  hear_verdict-IsSession ctxs (awaiting r e) s v =
      if_both (IsSession code f) s.verdict _ s
        (stop-IsSession none (reply_error r (or_error (ctxs r.ctx) (or_error s.refusal e)) s)
          (quiet-IsSession code f s v))
        v
  hear_verdict-IsSession ctxs idle s v = v
  hear_verdict-IsSession ctxs (holding r) s v = v
  hear_verdict-IsSession ctxs (checked r) s v = v
  hear_verdict-IsSession ctxs (sending r) s v = v
  hear_verdict-IsSession ctxs (failing r e) s v = v
  hear_verdict-IsSession ctxs (stopped r) s v = v
