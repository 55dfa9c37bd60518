-- ===== src/Stream/Outbound/Loop/Tests.antt =====
-- The theorem on the loop of internal/stream/outbound.go, at a request that is sent twice.
use gorums.Prelude.{◌+◌, ◌≡◌, refl, Bool, true, false, none, some, List, [], ◌∷◌}
use gorums.Errors.{Error, Code, other_code}
use gorums.Stream.Request.{Request}
use gorums.Stream.SendQueue.Counts.{count, audible, failed}
use gorums.Stream.Outbound.Loop.{
  Loop, new_outbound_channel, Move, rounds, opens, accepts, receives, returns, pushes, ends, move,
  begin_round, next_round,
}
use gorums.Stream.Outbound.Loop.Holds.{hand}
use gorums.Stream.Outbound.Loop.Ends.{AllCan, run, is_over, is_sending, CanEnd}
use gorums.Stream.Outbound.Loop.Accounts.{all_brought, all_passed, loop_accounts}

abbrev call : Request
call = record {
  ctx = 1;
  msg = record { seq_no = 1; method = 1; payload = 2; status = none };
  streaming = false;
  oneway = false;
  response_chan = some 1;
}

abbrev every : Request → Bool
every req = true

abbrev no_code : Error → Code
no_code e = other_code

-- The session of the first stream takes the call and gives it back, and the channel ends before the
-- second stream is opened.
abbrev history : List Move
history =
    pushes call
    ∷ rounds none
    ∷ opens 1 none
    ∷ accepts 1
    ∷ receives
    ∷ returns no_code 0 1 false (some call, true, none)
    ∷ ends
    ∷ rounds (some call)
    ∷ []

abbrev fresh : Loop
fresh = new_outbound_channel 7 1 false

possible : AllCan fresh history
unfolding new_outbound_channel move begin_round next_round
possible = (tt, (refl, (refl, (tt, ((1, refl), (refl, (tt, (refl, tt))))))))

loop_accounts_example :
    let s = run fresh history in
    (count (audible every) (all_brought history)
      ≡ count (audible every) (all_passed fresh history)
        + count (audible every) s.channel.queue.items
        + count (audible every) (hand s.phase)
        + count (audible every) (failed s.channel.queue))
    × (is_over s.phase ≡ true → (s.channel.queue.items ≡ []) × (hand s.phase ≡ []))
    × (s.channel.ended ≡ true → is_sending s.phase ≡ false → CanEnd s)
loop_accounts_example = loop_accounts every 7 1 false history possible
