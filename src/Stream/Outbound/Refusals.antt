-- ===== src/Stream/Outbound/Refusals.antt =====
-- internal/stream/outbound.go: what follows a stream that the server refused.
use gorums.Prelude.{
  ℕ, ◌+◌, ◌≡◌, refl, sym, ◌∙◌, ap, subst, Bool, true, false, Option, none, some, List, [],
  if◌then◌else◌, ltb, arith,
}
use gorums.Errors.{Error, Code, ErrorsIs}
use gorums.Stream.Request.{Request}
use gorums.Stream.SendQueue.{SendQueue}
use gorums.Stream.Backoff
use gorums.Stream.Backoff.{Backoff, refusing, is_refusal}
use gorums.Stream.Backoff.Delays.{refusing_lem}
use gorums.Stream.Session.{
  Session, Sender, idle, holding, checked, sending, failing, awaiting, stopped, outcome,
}
use gorums.Stream.Session.Verdict.Final.{started, refusal_lem}
use gorums.Stream.Session.Verdict.Reached.{Reaches}
use gorums.Stream.Outbound.{
  Outbound, Awake, await, set_stream_up, stream_failed, session_end, ended_with, after_session,
  fail_request,
}
use gorums.Stream.Outbound.Waits.{returned, Before, await_refuses}

outcome_of :
    (w : Sender) (out : Option (Bool × Option Error)) (req : Option Request) (a : Bool)
    (e : Option Error)
    → ended_with w out ≡ some (req, a, e)
    → out ≡ some (a, e)
unfolding ended_with
outcome_of (stopped r) (some (b, d)) req a e h = cc h
outcome_of (stopped r) none req a e h = cc
outcome_of idle out req a e h = cc
outcome_of (holding r) out req a e h = cc
outcome_of (checked r) out req a e h = cc
outcome_of (sending r) out req a e h = cc
outcome_of (failing r d) out req a e h = cc
outcome_of (awaiting r d) out req a e h = cc

refusal_of :
    (s : Session) (a : Bool) (e : Error) → outcome s ≡ some (a, some e) → s.refusal ≡ some e
unfolding outcome
refusal_of s a e h = ground arith

-- A refusal puts the backoff in force, up to the end of the delay.
failed_refusal :
    (code : Error → Code) (now : ℕ) (e : Error) (b : Backoff)
    → is_refusal (code e) ≡ true
    → ((Backoff.failed code now e b).refusal ≡ some e)
      × ((Backoff.failed code now e b).until ≡ now + b.delay)
unfolding Backoff.failed Backoff.next
failed_refusal code now e b h = (ground arith, ground arith)

after_refusal :
    (code : Error → Code) (now stream : ℕ) (draining : Bool) (c : Outbound) (req : Option Request)
    (is_accepted : Bool) (e : Error)
    → is_accepted ≡ false
    → c.ended ≡ false
    → let c' = (after_session code now stream draining (req, is_accepted, some e) c).0 in
      (c'.queue ≡ fail_request req e c.queue)
      × (c'.health ≡ some e)
      × (c'.backoff ≡ Backoff.failed code now e c.backoff)
unfolding after_session stream_failed set_stream_up
after_refusal code now stream draining c req is_accepted e never running =
    (ground arith, ground arith, ground arith)

module _ (lib : ErrorsIs) (code : Error → Code) (id : ℕ)
    (server_requests requeue suspect has_handler : Bool) (queue : SendQueue)
    (first : Option Request) (s : Session)
    (r : Reaches lib code
      (started lib code id server_requests requeue suspect has_handler queue first)
      s) where
  end_refused :
      (req : Option Request) (is_accepted : Bool) (e : Error)
      → session_end s ≡ some (req, is_accepted, some e)
      → (is_accepted ≡ false) × (is_refusal (code e) ≡ true)
  unfolding session_end
  end_refused req is_accepted e h =
      let out = outcome_of s.sender (outcome s) req is_accepted (some e) h in
      let (never, _, refuses, _) =
        refusal_lem lib code id server_requests requeue suspect has_handler queue first s r e
          (refusal_of s is_accepted e out) in
      (cc (out, never), refuses)

  -- When the server has refused the stream of a session, a channel that has not ended fails the request
  -- that the send loop gave back with the refusal, opens no stream at once, and records the refusal as its
  -- health. From then until the delay of the backoff has ended, and no longer, requests fail with the
  -- refusal; `await` returns no request that it takes before that.
  pub refusal_backs_off :
      (now stream : ℕ) (draining : Bool) (c : Outbound) (req : Option Request) (is_accepted : Bool)
      (e : Error)
      → session_end s ≡ some (req, is_accepted, some e)
      → c.ended ≡ false
      → let (c', next) = after_session code now stream draining (req, is_accepted, some e) c in
        (next ≡ record { req = none; connect = false })
        × (c'.queue ≡ fail_request req e c.queue)
        × (c'.health ≡ some e)
        × ((later : ℕ)
            → refusing later c'.backoff
              ≡ (if ltb later (now + c.backoff.delay) then some e else none))
        × ((es : List Awake) → Before (now + c.backoff.delay) es → returned (await es c').1 ≡ [])
  unfolding after_session
  refusal_backs_off now stream draining c req is_accepted e h running =
      let (never, refuses) = end_refused req is_accepted e h in
      let c' = (after_session code now stream draining (req, is_accepted, some e) c).0 in
      let (queued, health, backoff) =
        after_refusal code now stream draining c req is_accepted e never running in
      let (refusal, until) = failed_refusal code now e c.backoff refuses in
      (
        refl,
        queued,
        health,
        λ later.
            ap (refusing later) backoff
            ∙ ground (arith, refusing_lem code c.backoff now later e, refuses),
        λ es b.
            await_refuses e es c' (ap (λ (k : Backoff). k.refusal) backoff ∙ refusal)
              (subst (λ t. Before t es) (sym (ap (λ (k : Backoff). k.until) backoff ∙ until)) b),
      )
