-- ===== src/Stream/Session/Verdict.antt =====
-- internal/stream/session.go: the verdict of a session, and what each step leaves of it.
pub mod Receiving
pub mod Sending
pub mod Reached
pub mod Final
use gorums.Prelude.{
  ℕ, ◌≡◌, refl, sym, ◌∙◌, ap, subst, Bool, true, false, not, ◌||◌, ◌&&◌, Option, none, some, List,
  [], ◌∷◌, length, if◌then◌else◌, is_some, arith, Bool-cases, Option-cases, inl, inr, ◌⊎◌, if_both,
  if_case,
}
use gorums.Prelude.Go.{Go, returns, panics, ◌>>=◌, Returns, Returns-bind}
use gorums.Errors.{Error, Code, ErrorsIs, eof}
use gorums.Stream.Request.{Request, Message, Contexts, Delivery, want_server_response}
use gorums.Stream.Pending
use gorums.Stream.Pending.{PendingCalls}
use gorums.Stream.Pending.Invariant.{
  IsTable, drain-IsTable, add-IsTable, take-IsTable, expire-IsTable, watch_expiry-IsTable,
}
use gorums.Stream.SendQueue.{SendQueue}
use gorums.Stream.Backoff.{is_refusal}
use gorums.Stream.Session.{
  Session, Handoff, fresh, send_failed, accepted, closed, Sender, idle, holding, checked, sending,
  failing, awaiting, stopped, is_resource_exhausted, accept, accept_first, is_accepted_handoff,
  is_send_failed, decide, reply_error, retry_unless, receive_frame, receive_failed, settle,
  retry_or_fail, end_if_drained, start_drain, end_session, fail_session, record_health,
  close_verdict, handle, respond, refused,
}
use gorums.Stream.Session.SendLoop.{
  take_request, quit, check_request, add_pending, send_ok, send_err, fail_send, hear_verdict, stop,
  send_failed_decides,
}

-- What `handoff` says: whether the stream is accepted, receiving goes on, and the session has ended.
abbrev pub Agrees : Handoff → Bool → Bool → Bool → Type 0
Agrees fresh is_accepted receiving ended = (is_accepted ≡ false) × (receiving ≡ true)
Agrees send_failed is_accepted receiving ended =
    (is_accepted ≡ false) × (receiving ≡ true) × (ended ≡ true)
Agrees accepted is_accepted receiving ended = (is_accepted ≡ true) × (receiving ≡ true)
Agrees closed is_accepted receiving ended = receiving ≡ false

-- A decision that receiving ended with, if it has: whether the stream was accepted, and the refusal.
abbrev pub Decision : Type 0
Decision = Option (Bool × Option Error)

abbrev pub Keeps : Decision → Bool → Bool → Option Error → Type 0
Keeps none receiving is_accepted refusal = Unit
Keeps (some d) receiving is_accepted refusal =
    (receiving ≡ false) × (is_accepted ≡ d.0) × (refusal ≡ d.1)

-- Nothing is decided while receiving goes on.
pub Keeps-receiving :
    (f : Decision) (r a : Bool) (e : Option Error) (r' a' : Bool) (e' : Option Error)
    → Keeps f r a e
    → r ≡ true
    → Keeps f r' a' e'
Keeps-receiving none r a e r' a' e' k going = tt
Keeps-receiving (some d) r a e r' a' e' k going = cc k.0

-- The verdict is out once the stream is accepted or receiving has ended. A refusal ended the receiving
-- of an outbound stream that was never accepted.
pub record IsDecided (code : Error → Code) (f : Decision)
    (requeue verdict is_accepted receiving ended : Bool) (handoff : Handoff)
    (refusal : Option Error) (pending : PendingCalls) : Type 0 where
  pub table : IsTable pending
  pub decided : verdict ≡ (is_accepted || not receiving)
  pub kept : Keeps f receiving is_accepted refusal
  pub handed : Agrees handoff is_accepted receiving ended
  pub unaccepted :
      (e : Error)
      → refusal ≡ some e
      → (receiving ≡ false)
        × (is_accepted ≡ false)
        × (requeue ≡ true)
        × (is_refusal (code e) ≡ true)

abbrev pub Decided : (Error → Code) → Decision → Session → Type 0
Decided code f s =
    IsDecided code f s.requeue s.verdict s.is_accepted s.receiving s.ended s.handoff s.refusal
      s.pending

-- Also, once receiving has ended, the table takes no more calls, and a table that takes none belongs to
-- a session that has ended.
pub record IsSession (code : Error → Code) (f : Decision) (s : Session) : Type 0 where
  pub facts : Decided code f s
  pub shut : s.receiving ≡ false → s.pending.closed ≡ true
  pub finished : s.pending.closed ≡ true → s.ended ≡ true

Agrees-ended : (h : Handoff) (a r d : Bool) → Agrees h a r d → Agrees h a r true
Agrees-ended fresh a r d g = g
Agrees-ended send_failed a r d g = (g.0, g.1, refl)
Agrees-ended accepted a r d g = g
Agrees-ended closed a r d g = g

pub Agrees-is_accepted :
    (h : Handoff) (a r d : Bool) → Agrees h a r d → r ≡ true → is_accepted_handoff h ≡ a
Agrees-is_accepted fresh a r d g e = sym g.0
Agrees-is_accepted send_failed a r d g e = sym g.0
Agrees-is_accepted accepted a r d g e = sym g.0
Agrees-is_accepted closed a r d g e = cc

module _ (code : Error → Code) (f : Decision) where
  cancelled-Decided : (s : Session) → Decided code f s → Decided code f (record s { ended = true })
  cancelled-Decided s v = record {
    table = v.table;
    decided = v.decided;
    kept = v.kept;
    handed = Agrees-ended s.handoff s.is_accepted s.receiving s.ended v.handed;
    unaccepted = v.unaccepted;
  }

  pub cancelled-IsSession :
      (s : Session) → IsSession code f s → IsSession code f (record s { ended = true })
  cancelled-IsSession s v = record {
    facts = cancelled-Decided s v.facts;
    shut = v.shut;
    finished = λ h. refl;
  }

  -- A table that is closed as before.
  pub table-IsSession :
      (s : Session) (p : PendingCalls)
      → IsTable p
      → p.closed ≡ s.pending.closed
      → IsSession code f s
      → IsSession code f (record s { pending = p })
  table-IsSession s p t same v = record {
    facts = record {
      table = t;
      decided = v.facts.decided;
      kept = v.facts.kept;
      handed = v.facts.handed;
      unaccepted = v.facts.unaccepted;
    };
    shut = λ h. same ∙ v.shut h;
    finished = λ h. v.finished (sym same ∙ h);
  }

  pub end_session-IsSession :
      (err : Option Error) (s : Session) → Decided code f s → IsSession code f (end_session err s)
  unfolding end_session Pending.drain
  end_session-IsSession err s v =
      let w = cancelled-Decided s v in
      record {
        facts = record {
          table = drain-IsTable s.pending v.table;
          decided = w.decided;
          kept = w.kept;
          handed = w.handed;
          unaccepted = w.unaccepted;
        };
        shut = λ h. refl;
        finished = λ h. refl;
      }

  pub fail_session-IsSession :
      (e : Error) (s : Session) → Decided code f s → IsSession code f (fail_session e s)
  unfolding fail_session
  fail_session-IsSession e s v =
      end_session-IsSession (some e) (if s.ended then s else record_health (some e) s)
        (if_both (Decided code f) s.ended s (record_health (some e) s) v v)

  pub end_if_drained-IsSession :
      (s : Session) → IsSession code f s → IsSession code f (end_if_drained s)
  unfolding end_if_drained
  end_if_drained-IsSession s v =
      if_both (IsSession code f) _ _ _ (end_session-IsSession none s v.facts) v

  pub start_drain-IsSession : (s : Session) → IsSession code f s → IsSession code f (start_drain s)
  unfolding start_drain
  start_drain-IsSession s v = end_if_drained-IsSession _ (
      if_both (IsSession code f) s.draining s _ v (
        table-IsSession (record s { draining = true }) (Pending.watch_expiry s.pending)
          (watch_expiry-IsTable s.pending v.facts.table)
          (unfold Pending.watch_expiry in ground arith)
          (record { facts = v.facts; shut = v.shut; finished = v.finished })))

  -- A change of the fields that the verdict does not depend on.
  pub quiet-IsSession :
      {channel_ended draining send_stopped : Bool} {queue : SendQueue} {sender : Sender}
      {disposing : List (Request × Option Error)} {sent : List Delivery} {handled : List Message}
      {unmatched : ℕ} {health : Option Error} (s : Session)
      → IsSession code f s
      → IsSession code f (record s {
        channel_ended = channel_ended;
        draining = draining;
        send_stopped = send_stopped;
        queue = queue;
        sender = sender;
        disposing = disposing;
        sent = sent;
        handled = handled;
        unmatched = unmatched;
        health = health;
      })
  quiet-IsSession s v = record { facts = v.facts; shut = v.shut; finished = v.finished }

  retry_unless-IsSession :
      (refusal : Option Error) (req : Request) (err : Option Error) (s : Session)
      → IsSession code f s
      → IsSession code f (retry_unless refusal code req err s)
  unfolding retry_unless reply_error
  retry_unless-IsSession (some refusal) req err s v = quiet-IsSession s v
  retry_unless-IsSession none req err s v =
      if_both (IsSession code f) (s.requeue && is_resource_exhausted code err) _ _
        (quiet-IsSession s v)
        (if_both (IsSession code f) (s.requeue && not req.streaming) _ _ (quiet-IsSession s v) (
          if_both (IsSession code f) (s.requeue && s.channel_ended) _ _ (quiet-IsSession s v)
            (quiet-IsSession s v)))

  pub settle-IsSession :
      (ds : List (Request × Option Error)) (s : Session)
      → IsSession code f s
      → IsSession code f (settle code ds s)
  unfolding settle refused
  settle-IsSession [] s v = v
  settle-IsSession ((req, err) ∷ rest) s v =
      retry_unless-IsSession (refused s) req err (record s { disposing = rest })
        (quiet-IsSession s v)
