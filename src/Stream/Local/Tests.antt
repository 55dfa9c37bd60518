-- ===== src/Stream/Local/Tests.antt =====
-- The theorem on the local channel, at a concrete history.
use gorums.Prelude.{ℕ, ◌≡◌, refl, Bool, true, false, none, some, List, [], ◌∷◌}
use gorums.Errors.{context_ended}
use gorums.Stream.Request.{Message, Request, Contexts}
use gorums.Stream.SendQueue.Counts.{count, audible}
use gorums.Stream.Dispatch
use gorums.Stream.Local.{new_local_channel}
use gorums.Stream.Local.Accepts.{Serves}
use gorums.Stream.Local.Serves.{
  Op, enqueues, claims, gives_up, admits, replies, returns_at, given, step, run, run-Serves,
}

abbrev message : ℕ → Message
message n = record { seq_no = n; method = 1; payload = n; status = none }

abbrev call : ℕ → Bool → Request
call n oneway = record {
  ctx = n;
  msg = message n;
  streaming = false;
  oneway = oneway;
  response_chan = some n;
}

abbrev none_ended : Contexts
none_ended n = none

abbrev all_ended : Contexts
all_ended n = some context_ended

-- A call runs, a one-way call is queued behind it, another waits until its context ends, and the first
-- is answered.
abbrev history : List Op
history =
    enqueues none_ended (call 1 false)
    ∷ enqueues none_ended (call 2 true)
    ∷ claims 0
    ∷ admits none_ended 0
    ∷ enqueues none_ended (call 3 true)
    ∷ gives_up all_ended 0
    ∷ replies none_ended (message 7) 0
    ∷ returns_at 0
    ∷ []

abbrev any : Request → Bool
any r = true

-- Two requests are queued, and the channel starts them in turn.
both_started : (run (new_local_channel 7 true 1) history).requests.started ≡ 0 ∷ 1 ∷ []
unfolding run step new_local_channel gorums.Stream.Local.enqueue gorums.Stream.Local.take_in
    gorums.Stream.Local.pushed_now gorums.Stream.Local.claim_slot gorums.Stream.Local.admit_push
    gorums.Stream.Local.pushed gorums.Stream.Local.send gorums.Stream.Local.deliver_empty
    gorums.Stream.Local.give_up Dispatch.new_dispatcher Dispatch.try_push Dispatch.admit
    Dispatch.claim Dispatch.start Dispatch.finish gorums.Stream.Request.want_server_response
both_started = refl

run-Serves_example :
    Serves any (count (audible any) (given history)) (run (new_local_channel 7 true 1) history)
run-Serves_example = run-Serves any 7 1 true history
