-- ===== src/Stream/Session/Tests.antt =====
-- The theorems on the sessions of internal/stream/session.go, at concrete histories.
use gorums.Prelude.{
  ℕ, ◌+◌, ◌≡◌, refl, Bool, true, false, Option, none, some, List, [], if◌then◌else◌, ltb, ◌∷◌, ◌++◌,
  ◌==◌,
}
use gorums.Prelude.Go.{Go, returns, panics, Returns}
use gorums.Errors.{Error, Code, ErrorsIs, Error-eq, status, permission_denied, other_code}
use gorums.Stream.Request.{Request, Message, Contexts}
use gorums.Stream.SendQueue.{SendQueue, new_send_queue}
use gorums.Stream.SendQueue.Counts.{count, one, audible}
use gorums.Stream.SendQueue.Accounts.{new-IsQueue}
use gorums.Stream.Pending
use gorums.Stream.Pending.{find, assign, delete}
use gorums.Stream.SendQueue.{push_now, pop}
use gorums.Stream.Backoff.{is_refusal}
use gorums.Stream.Request.{want_server_response, want_send_confirmation, send_error_response}
use gorums.Stream.Session.{
  Session, new_session, start_sending, outcome, settle, stopped, receive_failed, decide,
  close_verdict, end_session, retry_unless, refused, reply_error, end_if_drained,
}
use gorums.Stream.Session.SendLoop.{
  take_request, check_request, add_pending, send_ok, healthy, quit, stop,
}
use gorums.Stream.Session.Calls.{swept_by, swept}
use gorums.Stream.Session.Steps.{
  Step, step, takes, quits, oks, settles, checks, adds, recv_errs, pushes,
}
use gorums.Stream.Session.Verdict.{IsSession}
use gorums.Stream.Session.Verdict.Reached.{Reaches, now, after}
use gorums.Stream.Session.Verdict.Final.{started, verdict_once, receiving_ended, refusal_lem}
use gorums.Stream.Session.Calls.{call, open_calls, answered}
use gorums.Stream.Session.Calls.Histories.{Runs, begin, go_on, Runs-Reaches}
use gorums.Stream.Backoff.{new_backoff, refusing}
use gorums.Stream.Outbound.{
  Outbound, Awake, await, session_end, ended_with, after_session, fail_request,
}
use gorums.Stream.Outbound.Waits.{Before, returned}
use gorums.Stream.Outbound.Refusals.{refusal_backs_off}
use gorums.Stream.Session.Calls.Once.{inherited, calls_once, calls_over}

-- An error is the target itself.
abbrev is_same : Option Error → Error → Bool
is_same none t = false
is_same (some e) t = e == t

is_same_self : (t : Error) → is_same (some t) t ≡ true
is_same_self t = (Error-eq.same_iff t t).1 refl

abbrev same_error : ErrorsIs
same_error = record { is = is_same; is_nil = λ t. refl; is_self = is_same_self }

abbrev code_of : Error → Code
code_of (status c _) = c
code_of _ = other_code

abbrev message : ℕ → Message
message n = record { seq_no = n; method = 1; payload = 2; status = none }

abbrev two_way : ℕ → Request
two_way n = record {
  ctx = n;
  msg = message n;
  streaming = false;
  oneway = false;
  response_chan = some n;
}

abbrev live : Contexts
live n = none

abbrev denied : Error
denied = status permission_denied 1

-- An outbound session that is suspect, with a queue of two.
abbrev queue : SendQueue
queue = new_send_queue 7 2

abbrev fresh_session : Session
fresh_session = started same_error code_of 7 false true true false queue none

abbrev value : Session → Go Session → Session
value s (returns t) = t
value s panics = s

abbrev play : Session → Step → Session
play s a = value s (step same_error code_of s a)

-- A call is queued, sent and answered, and a second one is pending when the server refuses the stream.
abbrev s1 : Session
s1 = play fresh_session (pushes (two_way 1))

abbrev s2 : Session
s2 = play s1 takes

abbrev s3 : Session
s3 = play s2 (checks live)

abbrev s4 : Session
s4 = play s3 (adds live)

abbrev s5 : Session
s5 = play s4 oks

abbrev s6 : Session
s6 = play s5 (recv_errs denied)

abbrev s7 : Session
s7 = play s6 settles

abbrev s8 : Session
s8 = play s7 quits

-- The session while its call is pending, and after its end.
pending : Runs same_error code_of fresh_session s5 (two_way 1 ∷ []) []
unfolding new_session start_sending step push_now take_request pop check_request add_pending
    want_server_response Pending.add find assign delete send_ok healthy want_send_confirmation
    receive_failed decide close_verdict is_refusal end_session Pending.drain settle retry_unless
    refused reply_error send_error_response quit stop end_if_drained new_send_queue swept_by swept
pending =
    go_on s4 s5 oks _ _
      (go_on s3 s4 (adds live) _ _
        (go_on s2 s3 (checks live) _ _
          (go_on s1 s2 takes _ _
            (go_on fresh_session s1 (pushes (two_way 1)) [] [] begin tt tt refl) tt tt refl)
          tt tt refl)
        tt refl refl)
      tt tt refl

refused_run : Runs same_error code_of fresh_session s6 (two_way 1 ∷ []) []
unfolding new_session start_sending step push_now take_request pop check_request add_pending
    want_server_response Pending.add find assign delete send_ok healthy want_send_confirmation
    receive_failed decide close_verdict is_refusal end_session Pending.drain settle retry_unless
    refused reply_error send_error_response quit stop end_if_drained new_send_queue swept_by swept
refused_run = go_on s5 s6 (recv_errs denied) _ _ pending refl tt refl

over : Runs same_error code_of fresh_session s8 (two_way 1 ∷ []) []
unfolding new_session start_sending step push_now take_request pop check_request add_pending
    want_server_response Pending.add find assign delete send_ok healthy want_send_confirmation
    receive_failed decide close_verdict is_refusal end_session Pending.drain settle retry_unless
    refused reply_error send_error_response quit stop end_if_drained new_send_queue swept_by swept
over = go_on s7 s8 quits _ _ (go_on s6 s7 settles _ _ refused_run tt tt refl) tt tt refl

later : Reaches same_error code_of s6 s8
unfolding new_session start_sending step push_now take_request pop check_request add_pending
    want_server_response Pending.add find assign delete send_ok healthy want_send_confirmation
    receive_failed decide close_verdict is_refusal end_session Pending.drain settle retry_unless
    refused reply_error send_error_response quit stop end_if_drained new_send_queue swept_by swept
later = after s7 s8 quits (after s6 s7 settles now tt refl) tt refl

facts :
    (s6.receiving ≡ false)
    × (s6.refusal ≡ some denied)
    × (s8.receiving ≡ false)
    × (s8.disposing ≡ [])
    × (s8.sender ≡ stopped none)
unfolding new_session start_sending step push_now take_request pop check_request add_pending
    want_server_response Pending.add find assign delete send_ok healthy want_send_confirmation
    receive_failed decide close_verdict is_refusal end_session Pending.drain settle retry_unless
    refused reply_error send_error_response quit stop end_if_drained new_send_queue swept_by swept
facts = (refl, refl, refl, refl, refl)

still_receiving : s5.receiving ≡ true
unfolding new_session start_sending step push_now take_request pop check_request add_pending
    want_server_response Pending.add find assign delete send_ok healthy want_send_confirmation
    receive_failed decide close_verdict is_refusal end_session Pending.drain settle retry_unless
    refused reply_error send_error_response quit stop end_if_drained new_send_queue swept_by swept
still_receiving = refl

verdict_once_example :
    Returns (IsSession code_of none) (step same_error code_of s5 (recv_errs denied))
verdict_once_example =
    verdict_once same_error code_of 7 false true true false queue none s5
      (Runs-Reaches same_error code_of fresh_session s5 _ _ pending) (recv_errs denied)
      still_receiving

receiving_ended_example :
    (outcome s8 ≡ some (s6.is_accepted, s6.refusal))
    × (s8.pending.calls ≡ [])
    × (s8.pending.closed ≡ true)
receiving_ended_example =
    receiving_ended same_error code_of 7 false true true false queue none s6
      (Runs-Reaches same_error code_of fresh_session s6 _ _ refused_run) s8 facts.0 later

refusal_lem_example :
    (outcome s6 ≡ some (false, some denied))
    × (s6.requeue ≡ true)
    × (is_refusal (code_of denied) ≡ true)
    × ((req : Request) (err : Option Error) (rest : List (Request × Option Error))
        → settle code_of ((req, err) ∷ rest) s6
          ≡ record s6 { disposing = rest; sent = s6.sent ++ send_error_response req s6.id denied })
refusal_lem_example =
    refusal_lem same_error code_of 7 false true true false queue none s6
      (Runs-Reaches same_error code_of fresh_session s6 _ _ refused_run) denied facts.1

abbrev any : Request → Bool
any r = true

calls_once_example :
    inherited any same_error code_of 7 false true true false queue none
      + count (audible (call any)) (two_way 1 ∷ [])
    ≡ open_calls any s5 + answered any s5 + count (audible (call any)) []
calls_once_example =
    calls_once any same_error code_of 7 false true true false queue none s5 (two_way 1 ∷ []) []
      pending (new-IsQueue 7 2)

calls_over_example :
    inherited any same_error code_of 7 false true true false queue none
      + count (audible (call any)) (two_way 1 ∷ [])
    ≡ count (audible (call any)) s8.queue.items
      + count (audible (call any)) (one none)
      + answered any s8
      + count (audible (call any)) []
calls_over_example =
    calls_over any same_error code_of 7 false true true false queue none s8 (two_way 1 ∷ []) [] over
      (new-IsQueue 7 2) none facts.2 facts.3 facts.4

-- The channel of the session, whose send loop has returned.
abbrev channel : Outbound
channel = record {
  ended = false;
  queue = s8.queue;
  backoff = new_backoff true;
  health = none;
  live = some 1;
  stream_up = false;
  due = 0;
  seen = [];
}

at_end : session_end s8 ≡ some (none, false, some denied)
unfolding new_session start_sending step push_now take_request pop check_request add_pending
    want_server_response Pending.add find assign delete send_ok healthy want_send_confirmation
    receive_failed decide close_verdict is_refusal end_session Pending.drain settle retry_unless
    refused reply_error send_error_response quit stop end_if_drained new_send_queue swept_by swept
    session_end ended_with outcome
at_end = refl

refusal_backs_off_example :
    let (c', next) = after_session code_of 100 1 false (none, false, some denied) channel in
    (next ≡ record { req = none; connect = false })
    × (c'.queue ≡ fail_request none denied channel.queue)
    × (c'.health ≡ some denied)
    × ((later : ℕ)
        → refusing later c'.backoff
          ≡ (if ltb later (100 + channel.backoff.delay) then some denied else none))
    × ((es : List Awake) → Before (100 + channel.backoff.delay) es → returned (await es c').1 ≡ [])
refusal_backs_off_example =
    refusal_backs_off same_error code_of 7 false true true false queue none s8
      (Runs-Reaches same_error code_of fresh_session s8 _ _ over) 100 1 false channel none false
      denied at_end refl
