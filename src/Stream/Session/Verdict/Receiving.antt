-- ===== src/Stream/Session/Verdict/Receiving.antt =====
-- internal/stream/session.go: the verdict of a session and receiving.
use gorums.Prelude.{
  ◌≡◌, refl, sym, subst, Bool, true, false, ◌||◌, Option, none, some, if◌then◌else◌, is_some, arith,
  if_both, if_case,
}
use gorums.Prelude.Go.{returns, panics, Returns, Returns-bind}
use gorums.Errors.{Error, Code}
use gorums.Stream.Request.{Request, Message, Contexts}
use gorums.Stream.Pending
use gorums.Stream.Pending.{PendingCalls}
use gorums.Stream.Pending.Invariant.{take-IsTable}
use gorums.Stream.Session.{
  Session, accept, accept_first, is_accepted_handoff, is_send_failed, decide, receive_frame,
  receive_failed, record_health, close_verdict, handle, respond,
}
use gorums.Stream.Session.Verdict.{
  IsSession, Decision, Decided, Agrees-is_accepted, Keeps-receiving, quiet-IsSession,
  table-IsSession, end_session-IsSession, fail_session-IsSession, end_if_drained-IsSession,
}

module _ (code : Error → Code) (f : Decision) where
  close_verdict-Returns :
      (P : Session → Type 0) (s : Session)
      → s.verdict ≡ false
      → P (record s { verdict = true })
      → Returns P (close_verdict s)
  unfolding close_verdict
  close_verdict-Returns P s e p =
      subst (λ b. Returns P (if b then panics else returns (record s { verdict = true }))) (sym e) p

  -- Acceptance, while receiving goes on and before an earlier one.
  pub accept-IsSession :
      (s : Session)
      → IsSession code f s
      → s.receiving ≡ true
      → s.is_accepted ≡ false
      → Returns (IsSession code f) (accept s)
  unfolding accept
  accept-IsSession s v going first =
      close_verdict-Returns (IsSession code f) _ (ground (arith, v.facts.decided)) (record {
        facts = record {
          table = v.facts.table;
          decided = refl;
          kept = Keeps-receiving f s.receiving s.is_accepted s.refusal _ _ _ v.facts.kept going;
          handed = (refl, going);
          unaccepted = λ e h. ground (arith, v.facts.unaccepted e h);
        };
        shut = v.shut;
        finished = v.finished;
      })

  respond-IsSession :
      (ctxs : Contexts) (msg : Message) (taken : Option Request) (s : Session)
      → IsSession code f s
      → IsSession code f (respond ctxs msg taken s)
  unfolding respond
  respond-IsSession ctxs msg none s v =
      if_both (IsSession code f) _ _ s (quiet-IsSession code f s v) v
  respond-IsSession ctxs msg (some req) s v = quiet-IsSession code f s v

  handle-IsSession :
      (ctxs : Contexts) (msg : Message) (s : Session)
      → IsSession code f s
      → IsSession code f (handle ctxs msg s)
  unfolding handle
  handle-IsSession ctxs msg s v =
      if_both (IsSession code f) _ _ _
        (if_both (IsSession code f) s.has_handler _ s (quiet-IsSession code f s v) v)
        (respond-IsSession ctxs msg _ _ (
          table-IsSession code f s (Pending.take msg.seq_no s.pending).0
            (take-IsTable msg.seq_no s.pending v.facts.table) (unfold Pending.take in ground arith)
            v))

  accept_first-IsSession :
      (b : Bool) (s : Session)
      → IsSession code f s
      → s.receiving ≡ true
      → s.is_accepted ≡ b
      → Returns (IsSession code f) (accept_first b s)
  unfolding accept_first
  accept_first-IsSession true s v going e = v
  accept_first-IsSession false s v going e = accept-IsSession s v going e

  pub receive_frame-IsSession :
      (ctxs : Contexts) (msg : Message) (s : Session)
      → IsSession code f s
      → s.receiving ≡ true
      → Returns (IsSession code f) (receive_frame ctxs msg s)
  unfolding receive_frame
  receive_frame-IsSession ctxs msg s v going =
      Returns-bind (IsSession code f) (IsSession code f)
        (accept_first s.is_accepted (record_health none s)) _
        (accept_first-IsSession s.is_accepted (record_health none s) (quiet-IsSession code f s v)
          going refl)
        (λ t w. end_if_drained-IsSession code f _ (handle-IsSession ctxs msg t w))

  decide-Decided :
      (e : Error) (s : Session)
      → IsSession code f s
      → s.receiving ≡ true
      → Returns (Decided code f) (decide code e s)
  unfolding decide
  decide-Decided e s v going =
      let same =
        Agrees-is_accepted s.handoff s.is_accepted s.receiving s.ended v.facts.handed going in
      if_case (Returns (Decided code f)) (is_accepted_handoff s.handoff) _ _
        (λ was. record {
          table = v.facts.table;
          decided = ground (arith, v.facts.decided);
          kept = Keeps-receiving f s.receiving s.is_accepted s.refusal _ _ _ v.facts.kept going;
          handed = refl;
          unaccepted = λ d h. ground (arith, v.facts.unaccepted d h);
        })
        (λ first.
          close_verdict-Returns (Decided code f) _ (ground (arith, v.facts.decided)) (record {
            table = v.facts.table;
            decided = ground (arith, v.facts.decided);
            kept = Keeps-receiving f s.receiving s.is_accepted s.refusal _ _ _ v.facts.kept going;
            handed = refl;
            unaccepted = λ d h. ground (arith, v.facts.unaccepted d);
          }))

  pub receive_failed-IsSession :
      (e : Error) (s : Session)
      → IsSession code f s
      → s.receiving ≡ true
      → Returns (IsSession code f) (receive_failed code e s)
  unfolding receive_failed
  receive_failed-IsSession e s v going =
      Returns-bind (Decided code f) (IsSession code f) (decide code e s) _
        (decide-Decided e s v going)
        (λ t w.
          if_both (IsSession code f) (is_some t.refusal || is_send_failed s.handoff) _ _
            (end_session-IsSession code f (some e) (record_health (some e) t) w)
            (fail_session-IsSession code f e t w))
