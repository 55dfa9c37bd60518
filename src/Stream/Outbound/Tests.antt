-- ===== src/Stream/Outbound/Tests.antt =====
-- The theorems on the state of the stream and on the timer of internal/stream/outbound.go, at concrete
-- histories.
use gorums.Prelude.{List, some, arith, ◌+◌, length, ◌≡◌, refl, true, false, none, [], ◌∷◌}
use gorums.Stream.SendQueue.{new_send_queue}
use gorums.Stream.Backoff.{new_backoff}
use gorums.Stream.Outbound.{Outbound, is_live, set_stream_up, call_back, open_session}
use gorums.Stream.Outbound.Up.{
  opens, accepts, downs, step, Reached, begin, go_on, is_odd, latest, calls, is_up, stream_up_lem,
}
use gorums.Errors.{
  Error, skip_node, incomplete, send_failure, type_mismatch, no_node, empty_config, node_closed,
  stream_down, send_queue_full, send_stalled, stopped, eof, status, other, Code, other_code,
  invalid_argument, unavailable, resource_exhausted, context_ended,
}
use gorums.Stream.Backoff.Delays.{doubled}
use gorums.Stream.Outbound.Rounds.{Round, unopened, ended, round, run, delays, timer, timer_lem}

abbrev channel : Outbound
channel = record {
  ended = false;
  queue = new_send_queue 1 2;
  backoff = new_backoff false;
  health = none;
  live = none;
  stream_up = false;
  due = 0;
  seen = [];
}

abbrev eager : Outbound
eager = record channel { backoff = new_backoff true }

-- Stream 1 comes up and goes down before the callback is called, which then sees it down twice, and
-- stream 2 is open.
abbrev later : Outbound
later =
    step (step (step (step (step (step channel (opens 1)) (accepts 1)) (downs 1)) calls) calls)
      (opens 2)

history : Reached later (1 ∷ [])
unfolding step set_stream_up open_session call_back
history =
    go_on _ (1 ∷ []) (opens 2)
      (go_on _ (1 ∷ []) calls
        (go_on _ (1 ∷ []) calls
          (go_on _ (1 ∷ []) (downs 1)
            (go_on _ [] (accepts 1)
              (go_on channel [] (opens 1) (begin channel refl refl refl refl) (refl, refl)) tt)
            refl)
          (omega arith))
        (omega arith))
      (refl, refl)

seen_twice : later.seen ≡ false ∷ false ∷ []
unfolding step set_stream_up open_session call_back
seen_twice = refl

stream_up_lem_example :
    (later.stream_up ≡ is_up later.live (1 ∷ []))
    × (later.stream_up ≡ is_odd (later.due + length later.seen))
    × (later.due ≡ 0 → latest false later.seen ≡ later.stream_up)
    × ((is_live 1 later.live ≡ false) → set_stream_up 1 true later ≡ later)
stream_up_lem_example = stream_up_lem later (1 ∷ []) 1 history

-- The code of a gRPC status.
abbrev code_of : Error → Code
code_of (status c _) = c
code_of skip_node = other_code
code_of incomplete = other_code
code_of send_failure = other_code
code_of type_mismatch = other_code
code_of no_node = invalid_argument
code_of empty_config = invalid_argument
code_of node_closed = other_code
code_of stream_down = unavailable
code_of send_queue_full = resource_exhausted
code_of send_stalled = unavailable
code_of stopped = other_code
code_of eof = other_code
code_of context_ended = other_code
code_of (other _) = other_code

-- A stream that the server had accepted is lost, and no stream can be opened at first.
abbrev rounds : List Round
rounds = ended 10 none 1 false true none ∷ unopened 70 none stream_down ∷ []

timer_lem_example :
    (round code_of (run code_of eager rounds) (unopened 200 none stream_down)).backoff.retry
    ≡ timer (delays 0 rounds) (unopened 200 none stream_down)
timer_lem_example = timer_lem code_of eager rounds (unopened 200 none stream_down) refl refl

-- The third delay is of 200 ms.
third_delay : timer (delays 0 rounds) (unopened 200 none stream_down) ≡ some 400
unfolding doubled
third_delay = refl
