-- ===== src/Stream/Session/Calls/Answers.antt =====
-- internal/stream/session.go: what a send, and its failure, make of the two-way calls of a session.
use gorums.Prelude.{
  ℕ, ◌≡◌, refl, subst, Bool, true, false, Option, none, some, [], ◌∷◌, ◌++◌, if◌then◌else◌, arith,
  if_both, if_case,
}
use gorums.Errors.{Error, ErrorsIs, eof}
use gorums.Stream.Request.{Request, Contexts, want_server_response, want_send_confirmation}
use gorums.Stream.SendQueue.Counts.{count, audible}
use gorums.Stream.SendQueue.Steps.{count-failed}
use gorums.Stream.Session.{
  Session, Sender, Handoff, fresh, send_failed, accepted, idle, holding, checked, sending, failing,
  awaiting, stopped, reply_error, end_session, fail_session, record_health, or_error, closed,
}
use gorums.Stream.Session.Calls.{call, hand}
use gorums.Stream.Session.Calls.Balance.{
  IsBalanced, quiet-IsBalanced, fail_session-IsBalanced, end_if_drained-IsBalanced,
}
use gorums.Stream.Session.SendLoop.{
  send_ok, send_err, fail_send, hear_verdict, stop, send_failed_at, send_failed_decides, send_fails,
  healthy,
}
use gorums.Stream.Session.Calls.Sending.{place-IsBalanced, stop-IsBalanced, answer-IsBalanced}

module _ (f : Request → Bool) (n given_up : ℕ) where
  abbrev Balanced : Session → Type 0
  Balanced s = IsBalanced f n given_up s

  confirm-IsBalanced :
      (r : Request) (s : Session)
      → s.sender ≡ sending r
      → Balanced s
      → Balanced (
          if want_send_confirmation r
          then record s {
            sender = idle;
            sent =
                s.sent
                ++ (record {
                  to = r;
                  response = record { node_id = s.id; value = none; err = none };
                })
                  ∷ [];
          }
          else record s { sender = idle })
  unfolding want_send_confirmation want_server_response count
  confirm-IsBalanced r s i v =
      if_case Balanced (want_send_confirmation r) _ _
        (λ oneway. record {
          amount = ground (
            arith,
            v.amount,
            i,
            count-failed (audible (call f)) s.sent
                (record { to = r; response = record { node_id = s.id; value = none; err = none } }),
          );
          queue = v.queue;
        })
        (λ other. place-IsBalanced f n given_up idle s (ground (arith, i)) v)

  pub send_ok-IsBalanced :
      (w : Sender) (s : Session) → s.sender ≡ w → Balanced s → Balanced (send_ok w s)
  unfolding send_ok
  send_ok-IsBalanced (sending r) s i v =
      elim (healthy s)
        as (λ b.
          let s' = if b then record_health none s else s in
          Balanced (
            if want_send_confirmation r
            then record s' {
              sender = idle;
              sent =
                  s.sent
                  ++ (record {
                    to = r;
                    response = record { node_id = s.id; value = none; err = none };
                  })
                    ∷ [];
            }
            else record s' { sender = idle })) [
              | true ↦
                  confirm-IsBalanced r (record_health none s) i (quiet-IsBalanced f n given_up s v)
              | false ↦ confirm-IsBalanced r s i v
            ]
  send_ok-IsBalanced idle s i v = v
  send_ok-IsBalanced (holding r) s i v = v
  send_ok-IsBalanced (checked r) s i v = v
  send_ok-IsBalanced (failing r e) s i v = v
  send_ok-IsBalanced (awaiting r e) s i v = v
  send_ok-IsBalanced (stopped r) s i v = v

  -- The decision of `sendFailed` moves no call.
  abbrev Decided : Sender → Option (Bool × Session) → Type 0
  Decided w none = Unit
  Decided w (some d) = (d.1.sender ≡ w) × Balanced d.1

  send_failed_at-Decided :
      (h : Handoff) (is_eof : Bool) (s : Session)
      → Balanced s
      → Decided s.sender (send_failed_at h is_eof s)
  unfolding send_failed_at
  send_failed_at-Decided fresh true s v = (refl, quiet-IsBalanced f n given_up s v)
  send_failed_at-Decided fresh false s v = (refl, v)
  send_failed_at-Decided send_failed true s v = tt
  send_failed_at-Decided send_failed false s v = (refl, v)
  send_failed_at-Decided accepted is_eof s v = (refl, v)
  send_failed_at-Decided closed is_eof s v = (refl, quiet-IsBalanced f n given_up s v)

  send_fails-IsBalanced :
      (r : Request) (e : Error) (d : Option (Bool × Session)) (s : Session)
      → Decided (sending r) d
      → Balanced s
      → Balanced (send_fails r e d s)
  unfolding send_fails count
  send_fails-IsBalanced r e none s w v = v
  send_fails-IsBalanced r e (some (receive_decides, s')) s (i, w) v =
      if_both Balanced receive_decides _ _
        (if_case Balanced (want_server_response r) _ _
          (λ two_way. stop-IsBalanced f n given_up none s' (ground (arith, i)) w)
          (λ oneway. place-IsBalanced f n given_up (awaiting r e) s' (ground (arith, i)) w))
        (place-IsBalanced f n given_up (failing r e) s' (ground (arith, i)) w)

  pub send_err-IsBalanced :
      (lib : ErrorsIs) (e : Error) (w : Sender) (s : Session)
      → s.sender ≡ w
      → Balanced s
      → Balanced (send_err lib e w s)
  unfolding send_err send_failed_decides
  send_err-IsBalanced lib e (sending r) s i v =
      send_fails-IsBalanced r e _ s
        (subst (λ w. Decided w (send_failed_decides (lib.is (some e) eof) s)) i
          (if_both (Decided s.sender) s.requeue _ (some (false, s))
            (send_failed_at-Decided s.handoff (lib.is (some e) eof) s v) (refl, v)))
        v
  send_err-IsBalanced lib e idle s i v = v
  send_err-IsBalanced lib e (holding r) s i v = v
  send_err-IsBalanced lib e (checked r) s i v = v
  send_err-IsBalanced lib e (failing r d) s i v = v
  send_err-IsBalanced lib e (awaiting r d) s i v = v
  send_err-IsBalanced lib e (stopped r) s i v = v

  -- The request in hand is answered, and the send loop returns.
  answer-stop :
      (r : Request) (e : Error) (s : Session)
      → count (audible (call f)) (hand s.sender) ≡ count (audible (call f)) (r ∷ [])
      → Balanced s
      → Balanced (stop none (reply_error r e s))
  unfolding stop reply_error count
  answer-stop r e s h v =
      let t = record (reply_error r e s) { sender = stopped none } in
      end_if_drained-IsBalanced f n given_up (record t { send_stopped = true })
        (quiet-IsBalanced f n given_up t
          (answer-IsBalanced f n given_up (stopped none) r e s (omega (arith, h)) v))

  pub fail_send-IsBalanced :
      (ctxs : Contexts) (w : Sender) (s : Session)
      → s.sender ≡ w
      → Balanced s
      → Balanced (fail_send ctxs w s)
  unfolding fail_send fail_session end_session count
  fail_send-IsBalanced ctxs (failing r e) s i v =
      let t = fail_session e s in
      let w = fail_session-IsBalanced f n given_up e s v in
      let d = or_error (ctxs r.ctx) e in
      if_case (λ t. Balanced (stop none t)) (want_server_response r) t (reply_error r d t)
        (λ two_way. stop-IsBalanced f n given_up none t (ground (arith, i)) w)
        (λ oneway. answer-stop r d t (ground (arith, i)) w)
  fail_send-IsBalanced ctxs idle s i v = v
  fail_send-IsBalanced ctxs (holding r) s i v = v
  fail_send-IsBalanced ctxs (checked r) s i v = v
  fail_send-IsBalanced ctxs (sending r) s i v = v
  fail_send-IsBalanced ctxs (awaiting r e) s i v = v
  fail_send-IsBalanced ctxs (stopped r) s i v = v

  pub hear_verdict-IsBalanced :
      (ctxs : Contexts) (w : Sender) (s : Session)
      → s.sender ≡ w
      → Balanced s
      → Balanced (hear_verdict ctxs w s)
  unfolding hear_verdict stop count
  hear_verdict-IsBalanced ctxs (awaiting r e) s i v =
      let d = or_error (ctxs r.ctx) (or_error s.refusal e) in
      if_both Balanced s.verdict (stop none (reply_error r d s)) s
        (answer-stop r d s (ground (arith, i)) v) v
  hear_verdict-IsBalanced ctxs idle s i v = v
  hear_verdict-IsBalanced ctxs (holding r) s i v = v
  hear_verdict-IsBalanced ctxs (checked r) s i v = v
  hear_verdict-IsBalanced ctxs (sending r) s i v = v
  hear_verdict-IsBalanced ctxs (failing r e) s i v = v
  hear_verdict-IsBalanced ctxs (stopped r) s i v = v
