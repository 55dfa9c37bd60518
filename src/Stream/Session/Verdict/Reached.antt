-- ===== src/Stream/Session/Verdict/Reached.antt =====
-- The sessions of internal/stream/session.go that a new session becomes.
use gorums.Prelude.{ℕ, ◌≡◌, subst, true, none, if◌then◌else◌, arith, if_both}
use gorums.Prelude.Go.{returns, Returns}
use gorums.Errors.{Error, Code, ErrorsIs}
use gorums.Stream.Pending
use gorums.Stream.Pending.{PendingCalls}
use gorums.Stream.Pending.Invariant.{expire-IsTable}
use gorums.Stream.Session.{Session, end_if_drained, record_health}
use gorums.Stream.Session.Steps.{
  Step, step, Enabled, takes, quits, oks, settles, drains, cancels, closes, checks, adds, fails,
  hears, send_errs, recv_errs, header, frames, expires, ends, pushes, waits,
}
use gorums.Stream.Session.Verdict.Sending.{
  take_request-IsSession, quit-IsSession, check_request-IsSession, add_pending-IsSession,
  send_ok-IsSession, send_err-IsSession, fail_send-IsSession, hear_verdict-IsSession,
}
use gorums.Stream.Session.Verdict.{
  IsSession, Decision, quiet-IsSession, cancelled-IsSession, table-IsSession, end_session-IsSession,
  end_if_drained-IsSession, start_drain-IsSession, settle-IsSession,
}
use gorums.Stream.Session.Verdict.Receiving.{
  accept-IsSession, receive_frame-IsSession, receive_failed-IsSession,
}

module _ (code : Error → Code) (f : Decision) where
  expires-IsSession :
      (id seq : ℕ) (s : Session)
      → IsSession code f s
      → let (pending, removed) = Pending.expire id seq s.pending in
        let s' = record s { pending = pending } in
        IsSession code f (if removed then end_if_drained s' else s')
  expires-IsSession id seq s v =
      let w =
        table-IsSession code f s (Pending.expire id seq s.pending).0
          (expire-IsTable id seq s.pending v.facts.table) (unfold Pending.expire in ground arith)
          v in
      if_both (IsSession code f) _ _ _ (end_if_drained-IsSession code f _ w) w

  pub step-IsSession :
      (lib : ErrorsIs) (s : Session) (a : Step)
      → IsSession code f s
      → Enabled s a
      → Returns (IsSession code f) (step lib code s a)
  unfolding step
  step-IsSession lib s takes v en = take_request-IsSession code f s.sender s v
  step-IsSession lib s quits v en = quit-IsSession code f s.sender s v
  step-IsSession lib s oks v en = send_ok-IsSession code f s.sender s v
  step-IsSession lib s settles v en = settle-IsSession code f s.disposing s v
  step-IsSession lib s drains v en = start_drain-IsSession code f s v
  step-IsSession lib s cancels v en = cancelled-IsSession code f s v
  step-IsSession lib s closes v en =
      quiet-IsSession code f (record s { ended = true }) (cancelled-IsSession code f s v)
  step-IsSession lib s (checks ctxs) v en = check_request-IsSession code f ctxs s.sender s v
  step-IsSession lib s (adds ctxs) v en = add_pending-IsSession code f ctxs s.sender s v
  step-IsSession lib s (fails ctxs) v en = fail_send-IsSession code f ctxs s.sender s v
  step-IsSession lib s (hears ctxs) v en = hear_verdict-IsSession code f ctxs s.sender s v
  step-IsSession lib s (send_errs e) v en = send_err-IsSession code f lib e s.sender s v
  step-IsSession lib s (recv_errs e) v en = receive_failed-IsSession code f e s v en
  step-IsSession lib s header v en =
      accept-IsSession code f (record_health none s) (quiet-IsSession code f s v) en.0 en.1
  step-IsSession lib s (frames ctxs msg) v en = receive_frame-IsSession code f ctxs msg s v en
  step-IsSession lib s (expires id seq) v en = expires-IsSession id seq s v
  step-IsSession lib s (ends err) v en = end_session-IsSession code f err s v.facts
  step-IsSession lib s (pushes req) v en = quiet-IsSession code f s v
  step-IsSession lib s (waits wake req) v en = quiet-IsSession code f s v

-- The sessions that the steps make of a session.
pub data Reaches (lib : ErrorsIs) (code : Error → Code) (s : Session) : Session → Type 0 where
  now : Reaches lib code s s
  after :
      (t u : Session) (a : Step)
      → Reaches lib code s t
      → Enabled t a
      → step lib code t a ≡ returns u
      → Reaches lib code s u

module _ (lib : ErrorsIs) (code : Error → Code) where
  pub Reaches-IsSession :
      (f : Decision) (s t : Session)
      → Reaches lib code s t
      → IsSession code f s
      → IsSession code f t
  Reaches-IsSession f s _ now v = v
  Reaches-IsSession f s _ (after t u a r en e) v =
      subst (Returns (IsSession code f)) e
        (step-IsSession code f lib t a (Reaches-IsSession f s t r v) en)
