-- ===== src/Stream/Session/Calls/Once.antt =====
-- internal/stream/session.go: no two-way call of a session is lost, and none is answered twice.
use gorums.Prelude.{ℕ, ◌+◌, ◌≡◌, Bool, false, Option, none, some, List, [], map, arith}
use gorums.Errors.{Error, Code, ErrorsIs}
use gorums.Stream.Request.{Request}
use gorums.Stream.SendQueue.{SendQueue}
use gorums.Stream.SendQueue.Counts.{count, audible, IsQueue, one}
use gorums.Stream.Session.{Session, stopped, new_session, start_sending}
use gorums.Stream.Session.Verdict.Reached.{Reaches-IsSession}
use gorums.Stream.Session.Verdict.Final.{started, started-IsSession}
use gorums.Stream.Session.Calls.{call, open_calls, answered}
use gorums.Stream.Session.Calls.Balance.{IsBalanced}
use gorums.Stream.Session.Calls.Histories.{Runs, Runs-Reaches, Runs-IsBalanced}

module _ (f : Request → Bool) (lib : ErrorsIs) (code : Error → Code) (id : ℕ)
    (server_requests requeue suspect has_handler : Bool) (queue : SendQueue)
    (first : Option Request) where
  abbrev pub initial : Session
  initial = started lib code id server_requests requeue suspect has_handler queue first

  -- What the channel hands to its session: the queued calls, those that the queue has answered, and the
  -- call that the last session gave back.
  abbrev pub inherited : ℕ
  inherited =
      count (audible (call f)) queue.items
      + count (audible (call f)) (one first)
      + count (audible (call f)) (map (λ d. d.to) queue.sent)

  initial_calls : open_calls f initial + answered f initial ≡ inherited
  unfolding new_session start_sending count
  initial_calls =
      elim first
        as (λ r.
          open_calls f (started lib code id server_requests requeue suspect has_handler queue r)
            + answered f (started lib code id server_requests requeue suspect has_handler queue r)
          ≡ count (audible (call f)) queue.items
            + count (audible (call f)) (one r)
            + count (audible (call f)) (map (λ d. d.to) queue.sent)) [
              | none ↦ omega arith
              | some r ↦ omega arith
            ]

  initial_queue : IsQueue queue → IsQueue initial.queue
  unfolding new_session start_sending
  initial_queue q = q

  module _ (t : Session) (pushed gone : List Request) (r : Runs lib code initial t pushed gone)
      (q : IsQueue queue) where
    balance :
        IsBalanced f
          (open_calls f initial + answered f initial + count (audible (call f)) pushed)
          (count (audible (call f)) gone)
          t
    balance =
        Runs-IsBalanced lib code f initial t pushed gone r
          (started-IsSession lib code id server_requests requeue suspect has_handler queue first)
          (initial_queue q)

    -- In any history of a session, no two-way call with one response is lost or answered twice. Of each
    -- kind of such calls, as many were inherited or pushed as are queued, in the send loop's hands,
    -- pending or being disposed of, were answered once, or were given up as their contexts ended. A call
    -- enters the table under a message ID that no pending call has.
    pub calls_once :
        inherited + count (audible (call f)) pushed
        ≡ open_calls f t + answered f t + count (audible (call f)) gone
    calls_once = omega (arith, balance.amount, initial_calls)

    -- Once receiving has ended, the pending calls are disposed of and the send loop has returned, every
    -- such call is queued for the next session, is the one that the loop returned, was answered once, or
    -- was given up as its context ended.
    pub calls_over :
        (req : Option Request)
        → t.receiving ≡ false
        → t.disposing ≡ []
        → t.sender ≡ stopped req
        → inherited + count (audible (call f)) pushed
          ≡ count (audible (call f)) t.queue.items
            + count (audible (call f)) (one req)
            + answered f t
            + count (audible (call f)) gone
    unfolding count
    calls_over req over done stop =
        let v =
          Reaches-IsSession lib code none initial t (Runs-Reaches lib code initial t pushed gone r)
            (started-IsSession lib code id server_requests requeue suspect has_handler queue
              first) in
        let empty = v.facts.table.emptied (v.shut over) in
        ground (arith, calls_once, empty, done, stop)
