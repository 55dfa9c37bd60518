-- ===== src/Stream/Outbound.antt =====
-- internal/stream/outbound.go: the loop that opens the streams of an outbound channel, and whether the
-- channel's stream is up. A stream is named by a number; what opens it, gRPC, is an event.
pub mod Up
pub mod Waits
pub mod Refusals
pub mod Rounds
pub mod Loop
mod Tests
use gorums.Prelude.{
  ℕ, zero, suc, ◌≡◌, Bool, true, false, not, ◌&&◌, ◌||◌, Option, none, some, List, [], ◌∷◌, ◌++◌,
  if◌then◌else◌, is_some, nat_beq,
}
use gorums.Errors.{Error, Code, node_closed}
use gorums.Stream.Request.{Request}
use gorums.Stream.SendQueue
use gorums.Stream.SendQueue.{SendQueue, pop}
use gorums.Stream.Backoff
use gorums.Stream.Backoff.{Backoff, refusing, recovered, pace}
use gorums.Stream.Session.{Session, Sender, stopped, outcome}

-- `ended` is whether the channel's context has ended. `due` counts the calls of `onStreamChange` that
-- are still to be made, and `seen` is what each of those that were made could see, in order.
pub record Outbound : Type 0 where
  pub ended : Bool
  pub queue : SendQueue
  pub backoff : Backoff
  pub health : Option Error
  pub live : Option ℕ
  pub stream_up : Bool
  pub due : ℕ
  pub seen : List Bool

abbrev pub is_live : ℕ → Option ℕ → Bool
is_live s none = false
is_live s (some t) = nat_beq s t

abbrev pub same_bool : Bool → Bool → Bool
same_bool true b = b
same_bool false b = not b

-- `setStreamUp` up to the unlock: a change leaves its goroutine with a call to make.
unfoldable pub set_stream_up : ℕ → Bool → Outbound → Outbound
set_stream_up s up c =
    if up && not (is_live s c.live)
    then c
    else (let live = if not up && is_live s c.live then none else c.live in
        if same_bool c.stream_up up
        then record c { live = live }
        else record c { live = live; stream_up = up; due = suc c.due })

-- The call of `onStreamChange` after the unlock, by any goroutine that has one to make.
unfoldable pub call_back : Outbound → Outbound
call_back c = elim c.due [
  | zero ↦ c
  | suc n ↦ record c { due = n; seen = c.seen ++ c.stream_up ∷ [] }
]

-- `open`, once gRPC has a stream: the new session is live.
unfoldable pub open_session : ℕ → Outbound → Outbound
open_session s c = record c { live = some s }

-- `failRequest`
unfoldable pub fail_request : Option Request → Error → SendQueue → SendQueue
fail_request none e q = q
fail_request (some req) e q = SendQueue.fail req e q

-- `streamFailed`, at a time.
unfoldable pub stream_failed : (Error → Code) → ℕ → Option Request → Error → Outbound → Outbound
unfolding fail_request
stream_failed code now req e c =
    if c.ended then record c { queue = fail_request req node_closed c.queue } else record c {
      health = some e;
      backoff = Backoff.failed code now e c.backoff;
      queue = fail_request req e c.queue;
    }

-- What wakes `await`: the end of the channel, a request in the queue, at a time, and the retry timer.
pub data Awake : Type 0 where
  closes : Awake
  takes : ℕ → Awake
  retries : Awake

pub data Awaited : Type 0 where
  gone : Awaited
  gives : Option Request → Awaited

-- What `await` makes of a request from the queue, by the refusal that is in force; without one in the
-- queue, it waits on.
unfoldable pub await_taken :
    Option Request → Option Error → SendQueue → Outbound → Outbound × Option Awaited
await_taken none refusal queue c = (c, none)
await_taken (some req) (some e) queue c = (record c { queue = SendQueue.fail req e queue }, none)
await_taken (some req) none queue c = (record c { queue = queue }, some (gives (some req)))

-- One round of `await`.
unfoldable pub await_round : Awake → Outbound → Outbound × Option Awaited
unfolding await_taken
await_round closes c = (c, some gone)
await_round retries c = (c, some (gives none))
await_round (takes now) c =
    let (queue, taken) = pop c.queue in await_taken taken (refusing now c.backoff) queue c

-- `await`, over what wakes it; without a result, it waits on.
unfoldable pub await : List Awake → Outbound → Outbound × Option Awaited
unfolding await_round
await [] c = (c, none)
await (a ∷ es) c =
    let (c', result) = await_round a c in
    let waits = await es c' in elim result [ none ↦ waits | some x ↦ (c', some x) ]

-- What `run` learns of a session whose send loop has returned: the request that it gives back and the
-- outcome. There is nothing while the loop runs or the outcome waits.
unfoldable pub ended_with :
    Sender → Option (Bool × Option Error) → Option (Option Request × Bool × Option Error)
ended_with (stopped req) (some out) = some (req, out.0, out.1)
ended_with _ _ = none

unfoldable pub session_end : Session → Option (Option Request × Bool × Option Error)
unfolding ended_with outcome
session_end s = ended_with s.sender (outcome s)

-- The next round's request and whether it opens a stream at once.
pub record Next : Type 0 where
  pub req : Option Request
  pub connect : Bool

-- A round of `run` whose stream could not be opened.
unfoldable pub open_failed :
    (Error → Code) → ℕ → Option Request → Error → Outbound → Outbound × Next
unfolding stream_failed
open_failed code now req e c =
    (stream_failed code now req e c, record { req = none; connect = false })

-- A round of `run` from the return of the send loop on.
unfoldable pub after_session :
    (Error → Code)
    → ℕ
    → ℕ
    → Bool
    → Option Request × Bool × Option Error
    → Outbound
    → Outbound × Next
unfolding set_stream_up stream_failed
after_session code now s draining (req, is_accepted, refusal) c =
    let down = set_stream_up s false c in
    let c' = if is_accepted then record down { backoff = recovered down.backoff } else down in
    elim refusal [
      | some e ↦ (stream_failed code now req e c', record { req = none; connect = false })
      | none ↦
          let connect = is_some req || (draining && c'.backoff.eager) in
          (
            if connect then c' else record c' { backoff = pace now c'.backoff },
            record { req = req; connect = connect },
          )
    ]
