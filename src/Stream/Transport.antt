-- ===== src/Stream/Transport.antt =====
-- internal/stream/transport.go and the endpoint of channel.go: how a request reaches a node's channel. The
-- reference to the channel is part of the transport; the latency estimate is left out.
pub mod Answers
use gorums.Prelude.{
  ℕ, ◌-◌, ◌≡◌, Bool, true, false, not, ◌&&◌, Option, none, some, List, [], ◌∷◌, ◌++◌, if◌then◌else◌,
  leb, nat_beq,
}
use gorums.Prelude.Go.{Go, returns, panics, ◌>>=◌}
use gorums.Errors.{Error, stream_down, send_stalled}
use gorums.Stream.Request.{
  Request, Message, Contexts, Delivery, send_error_response, want_server_response,
}
use gorums.Stream.SendQueue
use gorums.Stream.SendQueue.{SendQueue, push_now, push_waiting, Wake}

-- `send_start` is in milliseconds, with 0 for no send.
pub record Endpoint : Type 0 where
  pub ctx : ℕ
  pub queue : SendQueue
  pub last_err : Option Error
  pub send_start : ℕ
  pub waiting_replies : Bool

abbrev pub stall_report_delay : ℕ
stall_report_delay = 1000

-- `endpoint.Enqueue`; a push that waits is woken as given.
unfoldable pub enqueue : Wake → Request → Endpoint → Go Endpoint
unfolding push_now push_waiting
enqueue wake req e =
    if req.oneway && req.streaming
    then panics
    else if want_server_response req
    then returns (record e { queue = push_now req e.queue })
    else returns (record e { queue = push_waiting wake req e.queue })

-- `reply`
unfoldable pub reply : Wake → Message → Endpoint → Endpoint
unfolding push_now push_waiting
reply wake msg e =
    let req : Request = record {
      ctx = e.ctx;
      msg = msg;
      streaming = false;
      oneway = false;
      response_chan = none;
    } in
    record e {
      queue = if e.waiting_replies then push_waiting wake req e.queue else push_now req e.queue;
    }

-- `LastErr`, at a time.
unfoldable pub last_err : ℕ → Endpoint → Option Error
last_err now e =
    if not (nat_beq e.send_start 0) && leb stall_report_delay (now - e.send_start)
    then some send_stalled
    else e.last_err

-- `recordHealth`
unfoldable pub record_health : Option Error → Endpoint → Endpoint
record_health err e = record e { last_err = err }

-- A node's transport and what its requests were answered with when there was no channel.
pub record Transport : Type 0 where
  pub id : ℕ
  pub channel : Option Endpoint
  pub shared : Bool
  pub sent : List Delivery

-- `Transport.Enqueue`, by the channel that it loads.
unfoldable pub enqueue_via : Wake → Request → Option Endpoint → Transport → Go Transport
unfolding enqueue send_error_response
enqueue_via wake req none t =
    returns (record t { sent = t.sent ++ send_error_response req t.id stream_down })
enqueue_via wake req (some e) t = do
  e' ← enqueue wake req e
  returns (record t { channel = some e' })

abbrev pub enqueue_on : Wake → Request → Transport → Go Transport
enqueue_on wake req t = enqueue_via wake req t.channel t
