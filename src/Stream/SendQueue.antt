-- ===== src/Stream/SendQueue.antt =====
-- internal/stream/send_queue.go: the bounded queue of requests that await a send. The lock makes a
-- push and a close exclude one another; a push that waits ends before a close goes on.
pub mod Counts
pub mod Steps
pub mod Accounts
use gorums.Prelude.{
  ℕ, suc, ◌+◌, ◌<◌, ◌≡◌, ◌≢◌, Bool, true, false, Option, none, some, List, [], ◌∷◌, ◌++◌, map,
  if◌then◌else◌, is_some, ltb, length,
}
use gorums.Errors.{Error, node_closed, send_queue_full}
use gorums.Stream.Request.{Request, Contexts, Delivery, send_error_response}

-- `items` are the requests in the channel `ch`, oldest first. `sent` are the deliveries of failures.
pub record SendQueue : Type 0 where
  pub id : ℕ
  pub capacity : ℕ
  pub items : List Request
  pub closed : Bool
  pub dropped : ℕ
  pub sent : List Delivery

unfoldable pub new_send_queue : ℕ → ℕ → SendQueue
new_send_queue id capacity = record {
  id = id;
  capacity = capacity;
  items = [];
  closed = false;
  dropped = 0;
  sent = [];
}

-- `sendQueue.fail`
unfoldable pub fail : Request → Error → SendQueue → SendQueue
unfolding send_error_response
fail req e q = elim req.response_chan [
  | none ↦ record q { dropped = suc q.dropped }
  | some _ ↦ record q { sent = q.sent ++ send_error_response req q.id e }
]

abbrev pub enqueue : Request → SendQueue → SendQueue
enqueue req q = record q { items = q.items ++ req ∷ [] }

-- Which case of the select statement of a push that waits is taken.
pub data Wake : Type 0 where
  space done : Wake
  ctx_ended : Error → Wake

-- The cases that can be taken: there is room, the request's context has ended, or the queue's done
-- channel is closed.
abbrev pub Ready : Contexts → Bool → Request → SendQueue → Wake → Type 0
Ready ctxs is_done req q space = length q.items < q.capacity
Ready ctxs is_done req q done = is_done ≡ true
Ready ctxs is_done req q (ctx_ended e) = ctxs req.ctx ≡ some e

-- `push` without waiting.
unfoldable pub push_now : Request → SendQueue → SendQueue
unfolding fail
push_now req q =
    if q.closed
    then fail req node_closed q
    else if ltb (length q.items) q.capacity
    then enqueue req q
    else fail req send_queue_full q

-- `push` that waits, and is woken as given.
unfoldable pub push_waiting : Wake → Request → SendQueue → SendQueue
unfolding fail
push_waiting wake req q = if q.closed then fail req node_closed q else elim wake [
  | space ↦ enqueue req q
  | done ↦ fail req node_closed q
  | ctx_ended e ↦ fail req e q
]

-- The loop of `close` over what is left in the channel.
unfoldable pub fail_all : List Request → SendQueue → SendQueue
unfolding fail
fail_all [] q = q
fail_all (req ∷ reqs) q = fail_all reqs (fail req node_closed q)

unfoldable pub close : SendQueue → SendQueue
unfolding fail_all
close q = fail_all q.items (record q { closed = true; items = [] })

-- A receive from the channel, by a session.
unfoldable pub pop : SendQueue → SendQueue × Option Request
pop q = elim q.items [ [] ↦ (q, none) | req ∷ rest ↦ (record q { items = rest }, some req) ]
