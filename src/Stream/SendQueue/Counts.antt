-- ===== src/Stream/SendQueue/Counts.antt =====
-- What a queue of internal/stream/send_queue.go answers for, and its operations as data.
use gorums.Prelude.{
  ℕ, ◌+◌, ◌≤◌, ◌≡◌, Bool, true, false, Option, none, some, List, [], ◌∷◌, ◌++◌, map, if◌then◌else◌,
  length, arith, is_some,
}
use gorums.Stream.Request.{Request, Contexts}
use gorums.Stream.SendQueue.{SendQueue, Wake, Ready, push_now, push_waiting, close, pop}

-- How often a request of a given kind stands in a list.
unfoldable pub count : (Request → Bool) → List Request → ℕ
count f [] = 0
count f (r ∷ rs) = (if f r then 1 else 0) + count f rs

pub count-append :
    (f : Request → Bool) (rs ss : List Request) → count f (rs ++ ss) ≡ count f rs + count f ss
unfolding count
count-append f [] ss = omega arith
count-append f (r ∷ rs) ss = omega (arith, count-append f rs ss)

-- The operations on a queue. A push that waits comes with how it was woken.
pub data Op : Type 0 where
  pushes : Request → Op
  waits : Wake → Request → Op
  pops closes : Op

unfoldable pub step : SendQueue → Op → SendQueue
step q (pushes r) = push_now r q
step q (waits w r) = push_waiting w r q
step q pops = (pop q).0
step q closes = close q

-- The case of the select statement can be taken, at the state of the contexts and the done channel.
abbrev pub Enabled : Contexts → Bool → SendQueue → Op → Type 0
Enabled ctxs is_done q (waits w r) = Ready ctxs is_done r q w
Enabled ctxs is_done q (pushes r) = Unit
Enabled ctxs is_done q pops = Unit
Enabled ctxs is_done q closes = Unit

-- The queue is within its capacity, and empty once it is closed.
pub record IsQueue (q : SendQueue) : Type 0 where
  pub bounded : length q.items ≤ q.capacity
  pub emptied : q.closed ≡ true → q.items ≡ []

-- What the operation takes in and gives out: the request pushed, and the request popped.
abbrev pub given : Op → List Request
given (pushes r) = r ∷ []
given (waits w r) = r ∷ []
given pops = []
given closes = []

abbrev pub one : Option Request → List Request
one none = []
one (some r) = r ∷ []

unfoldable pub taken : SendQueue → Op → List Request
taken q pops = one (pop q).1
taken q (pushes r) = []
taken q (waits w r) = []
taken q closes = []

-- The requests with a response channel that were failed, as the deliveries show.
abbrev pub failed : SendQueue → List Request
failed q = map (λ d. d.to) q.sent

abbrev pub can_hear : Request → Bool
can_hear r = is_some r.response_chan

abbrev pub audible : (Request → Bool) → Request → Bool
audible f r = if can_hear r then f r else false

abbrev pub silent : Request → Bool
silent r = if can_hear r then false else true

-- All requests of a kind that the queue has to answer for: those that can hear of a failure and
-- those that are only counted.
abbrev pub heard : (Request → Bool) → SendQueue → ℕ
heard f q = count (audible f) (failed q) + count (audible f) q.items

abbrev pub unheard : SendQueue → ℕ
unheard q = q.dropped + count silent q.items
