-- ===== src/Stream/Session/Verdict/Final.antt =====
-- internal/stream/session.go: what the verdict on a stream promises.
use gorums.Prelude.{ℕ, ◌≡◌, refl, Bool, true, false, Option, none, some, List, [], ◌∷◌, ◌++◌, arith}
use gorums.Prelude.Go.{Returns}
use gorums.Errors.{Error, Code, ErrorsIs}
use gorums.Stream.Request.{Request, send_error_response}
use gorums.Stream.Pending.History.{run-IsTable, run}
use gorums.Stream.SendQueue.{SendQueue}
use gorums.Stream.Backoff.{is_refusal}
use gorums.Stream.Session.{
  Session, new_session, start_sending, settle, retry_unless, reply_error, refused, outcome,
}
use gorums.Stream.Session.Steps.{Step, step, Enabled}
use gorums.Stream.Session.Verdict.{IsSession}
use gorums.Stream.Session.Verdict.Reached.{Reaches, Reaches-IsSession, step-IsSession}

-- A session as `sendLoop` starts it, with the flags and the queue of its channel and the request taken before.
module _ (lib : ErrorsIs) (code : Error → Code) (id : ℕ)
    (server_requests requeue suspect has_handler : Bool) (queue : SendQueue)
    (first : Option Request) where
  abbrev pub started : Session
  started = start_sending first (new_session id server_requests requeue suspect has_handler queue)

  pub started-IsSession : IsSession code none started
  unfolding new_session start_sending run
  started-IsSession = record {
    facts = record {
      table = run-IsTable [];
      decided = refl;
      kept = tt;
      handed = (refl, refl);
      unaccepted = λ e h. cc;
    };
    shut = λ h. cc;
    finished = λ h. cc;
  }

  module _ (s : Session) (r : Reaches lib code started s) where
    reached : IsSession code none s
    reached = Reaches-IsSession lib code none started s r started-IsSession

    -- No step that a session can take panics, whatever its history: the channel `verdict` is closed at most
    -- once. After the step, the verdict is out if and only if the stream was accepted or receiving has
    -- ended; a refusal is one of an outbound stream that was never accepted; once receiving has ended, the
    -- table of pending calls is closed; and a session whose table is closed has ended.
    pub verdict_once : (a : Step) → Enabled s a → Returns (IsSession code none) (step lib code s a)
    verdict_once a en = step-IsSession code none lib s a reached en

    -- Receiving that has ended is final: at any later time the stream is as accepted or refused as it was
    -- then, `outcome` does not wait and tells so, no call is pending, and the table takes no more.
    pub receiving_ended :
        (t : Session)
        → s.receiving ≡ false
        → Reaches lib code s t
        → (outcome t ≡ some (s.is_accepted, s.refusal))
          × (t.pending.calls ≡ [])
          × (t.pending.closed ≡ true)
    unfolding outcome
    receiving_ended t ended later =
        let v = Reaches-IsSession lib code (some (s.is_accepted, s.refusal)) s t later (record {
          facts = record {
            table = reached.facts.table;
            decided = reached.facts.decided;
            kept = (ended, refl, refl);
            handed = reached.facts.handed;
            unaccepted = reached.facts.unaccepted;
          };
          shut = reached.shut;
          finished = reached.finished;
        }) in
        let (over, as_accepted, as_refused) = v.facts.kept in
        let done = v.finished (v.shut over) in
        (ground (arith, v.facts.decided), v.facts.table.emptied (v.shut over), v.shut over)

    -- A stream that the server refused is an outbound one that was never accepted. From then
    -- on, each call of it that is disposed of is answered with the refusal, whatever ended the session, and
    -- is not retried.
    pub refusal_lem :
        (e : Error)
        → s.refusal ≡ some e
        → (outcome s ≡ some (false, some e))
          × (s.requeue ≡ true)
          × (is_refusal (code e) ≡ true)
          × ((req : Request) (err : Option Error) (rest : List (Request × Option Error))
              → settle code ((req, err) ∷ rest) s
                ≡ record s { disposing = rest; sent = s.sent ++ send_error_response req s.id e })
    unfolding outcome settle refused retry_unless reply_error
    refusal_lem e h =
        let (over, first, outbound, refuses) = reached.facts.unaccepted e h in
        let done = reached.finished (reached.shut over) in
        (
          ground (arith, reached.facts.decided),
          outbound,
          refuses,
          λ req err rest. ground (arith, reached.facts.decided),
        )
