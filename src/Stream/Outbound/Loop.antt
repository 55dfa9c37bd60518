-- ===== src/Stream/Outbound/Loop.antt =====
-- internal/stream/outbound.go: the loop `run` of an outbound channel as a whole, with what goes on
-- beside it. Its sessions are not part of the state: what they take from the queue and what their
-- send loops give back are data of the moves.
pub mod Holds
mod Tests
pub mod Ends
pub mod Accounts
use gorums.Prelude.{
  ℕ, ◌≡◌, Bool, true, false, Option, none, some, List, [], ◌∷◌, if◌then◌else◌, is_some,
}
use gorums.Errors.{Error, Code, node_closed}
use gorums.Stream.Request.{Request, Contexts}
use gorums.Stream.SendQueue
use gorums.Stream.SendQueue.{SendQueue, new_send_queue, Wake, Ready, push_now, push_waiting, pop}
use gorums.Stream.SendQueue.Counts.{one}
use gorums.Stream.Backoff.{new_backoff, attempt}
use gorums.Stream.Outbound.{
  Outbound, set_stream_up, call_back, open_session, fail_request, Awake, closes, takes, retries,
  Awaited, gone, gives, await_round, Next, open_failed, after_session,
}

-- Where the loop is: in `await`, at the test of the context, at the opening of a stream, in the send
-- loop of a session, or returned. The request is the one in its hands.
pub data Phase : Type 0 where
  waits : Phase
  begins opening : Option Request → Phase
  sends : ℕ → Phase
  returned : Phase

pub record Loop : Type 0 where
  pub channel : Outbound
  pub phase : Phase

-- `NewOutboundChannel`, which starts the loop.
unfoldable pub new_outbound_channel : ℕ → ℕ → Bool → Loop
unfolding new_send_queue new_backoff
new_outbound_channel id send_buffer_size eager = record {
  channel = record {
    ended = false;
    queue = new_send_queue id send_buffer_size;
    backoff = new_backoff eager;
    health = none;
    live = none;
    stream_up = false;
    due = 0;
    seen = [];
  };
  phase = begins none;
}

abbrev pub with_queue : (SendQueue → SendQueue) → Loop → Loop
with_queue f s = record s { channel = record s.channel { queue = f s.channel.queue } }

-- The return of `run`, with the deferred close of the queue.
unfoldable pub finish : Outbound → Loop
unfolding SendQueue.close
finish c = record { channel = record c { queue = SendQueue.close c.queue }; phase = returned }

-- After a round of `await`.
unfoldable pub after_await : Outbound × Option Awaited → Loop
unfolding finish
after_await (c, none) = record { channel = c; phase = waits }
after_await (c, some gone) = finish c
after_await (c, some (gives req)) = record { channel = c; phase = begins req }

-- The test of the context, and the attempt.
unfoldable pub begin_round : Option Request → Outbound → Loop
unfolding finish fail_request attempt
begin_round req c =
    if c.ended
    then finish (record c { queue = fail_request req node_closed c.queue })
    else record { channel = record c { backoff = attempt c.backoff }; phase = opening req }

-- The next round, by `connect`; `await` takes the place of the request.
unfoldable pub next_round : Outbound × Next → Loop
next_round (c, n) = record { channel = c; phase = if n.connect then begins n.req else waits }

-- What the loop does, the session that it runs, its callers, and the end of the channel.
pub data Move : Type 0 where
  wakes : Awake → Move
  rounds : Option Request → Move
  fails : (Error → Code) → ℕ → Error → Option Request → Move
  opens : ℕ → Option Request → Move
  accepts : ℕ → Move
  receives tells : Move
  returns : (Error → Code) → ℕ → ℕ → Bool → Option Request × Bool × Option Error → Move
  pushes : Request → Move
  push_waits : Contexts → Wake → Request → Move
  ends shuts : Move

unfoldable pub move : Move → Loop → Loop
unfolding after_await begin_round next_round open_failed after_session set_stream_up open_session
move (wakes a) s = after_await (await_round a s.channel)
move (rounds req) s = begin_round req s.channel
move (fails code now e req) s = next_round (open_failed code now req e s.channel)
move (opens n req) s = record { channel = open_session n s.channel; phase = sends n }
move (accepts n) s = record s { channel = set_stream_up n true s.channel }
move tells s = record s { channel = call_back s.channel }
move receives s = with_queue (λ q. (pop q).0) s
move (returns code now n draining out) s =
    next_round (after_session code now n draining out s.channel)
move (pushes req) s = with_queue (push_now req) s
move (push_waits ctxs wake req) s = with_queue (push_waiting wake req) s
move ends s = record s { channel = record s.channel { ended = true } }
move shuts s = with_queue SendQueue.close s

-- The case of the select statement of `await` can be taken.
abbrev pub IsAwake : Awake → Outbound → Type 0
IsAwake closes c = c.ended ≡ true
IsAwake (takes _) c = Unit
IsAwake retries c = is_some c.backoff.retry ≡ true

-- The move can be made. A session takes requests from the queue while its send loop runs.
abbrev pub Can : Move → Loop → Type 0
Can (wakes a) s = (s.phase ≡ waits) × IsAwake a s.channel
Can (rounds req) s = s.phase ≡ begins req
Can (fails code now e req) s = s.phase ≡ opening req
Can (opens n req) s = s.phase ≡ opening req
Can (accepts n) s = Unit
Can tells s = Unit
Can receives s = (n : ℕ) × (s.phase ≡ sends n)
Can (returns code now n draining out) s = s.phase ≡ sends n
Can (pushes req) s = Unit
Can (push_waits ctxs wake req) s = Ready ctxs s.channel.ended req s.channel.queue wake
Can ends s = Unit
Can shuts s = Unit
