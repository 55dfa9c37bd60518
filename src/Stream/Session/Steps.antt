-- ===== src/Stream/Session/Steps.antt =====
-- The steps of a session of internal/stream/session.go, and of what acts on it.
use gorums.Prelude.{ℕ, ◌≡◌, Bool, true, false, Option, none, if◌then◌else◌}
use gorums.Prelude.Go.{Go, returns}
use gorums.Errors.{Error, Code, ErrorsIs}
use gorums.Stream.Request.{Request, Message, Contexts}
use gorums.Stream.Pending
use gorums.Stream.SendQueue.{push_now, push_waiting, Wake, Ready, close}
use gorums.Stream.Session.{
  Session, accept, receive_frame, receive_failed, settle, end_if_drained, start_drain, end_session,
  record_health,
}
use gorums.Stream.Session.SendLoop.{
  take_request, quit, check_request, add_pending, send_ok, send_err, fail_send, hear_verdict,
}

-- The steps of the send loop, those of receiving (an acceptance header, a frame, the end), the disposal
-- of a call, a drain, the end of a pending call's context, an end of the session from outside or of
-- the channel, and the pushes on the channel's queue.
pub data Step : Type 0 where
  takes quits oks settles drains cancels closes : Step
  checks adds fails hears : Contexts → Step
  send_errs recv_errs : Error → Step
  header : Step
  frames : Contexts → Message → Step
  expires : ℕ → ℕ → Step
  ends : Option Error → Step
  pushes : Request → Step
  waits : Wake → Request → Step

module _ (lib : ErrorsIs) (code : Error → Code) where
  unfoldable pub step : Session → Step → Go Session
  step s takes = returns (take_request s.sender s)
  step s quits = returns (quit s.sender s)
  step s oks = returns (send_ok s.sender s)
  step s settles = returns (settle code s.disposing s)
  step s drains = returns (start_drain s)
  step s cancels = returns (record s { ended = true })
  step s closes = returns (record s { ended = true; channel_ended = true; queue = close s.queue })
  step s (checks ctxs) = returns (check_request ctxs s.sender s)
  step s (adds ctxs) = returns (add_pending ctxs s.sender s)
  step s (fails ctxs) = returns (fail_send ctxs s.sender s)
  step s (hears ctxs) = returns (hear_verdict ctxs s.sender s)
  step s (send_errs e) = returns (send_err lib e s.sender s)
  step s (recv_errs e) = receive_failed code e s
  step s header = accept (record_health none s)
  step s (frames ctxs msg) = receive_frame ctxs msg s
  step s (expires id seq) = returns (
      let (pending, removed) = Pending.expire id seq s.pending in
      let s' = record s { pending = pending } in if removed then end_if_drained s' else s')
  step s (ends err) = returns (end_session err s)
  step s (pushes req) = returns (record s { queue = push_now req s.queue })
  step s (waits wake req) = returns (record s { queue = push_waiting wake req s.queue })

-- Receiving goes on until it fails, and the header, if it accepts the stream, comes before any frame. A
-- push that waits is woken by a case of its select statement that can be taken.
abbrev pub Enabled : Session → Step → Type 0
Enabled s (recv_errs e) = s.receiving ≡ true
Enabled s (frames ctxs msg) = s.receiving ≡ true
Enabled s header = (s.receiving ≡ true) × (s.is_accepted ≡ false)
Enabled s (waits wake req) =
    (ctxs : Contexts) × (is_done : Bool) × Ready ctxs is_done req s.queue wake
Enabled s _ = Unit
