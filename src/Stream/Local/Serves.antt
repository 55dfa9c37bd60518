-- ===== src/Stream/Local/Serves.antt =====
-- What becomes of the requests that the channel of internal/stream/local.go is given.
use gorums.Prelude.{
  ℕ, ◌+◌, ◌≡◌, refl, Bool, ◌&&◌, List, [], ◌∷◌, if◌then◌else◌, arith, Bool-cases, inl, inr,
  get_elem?, length, subst, ◌∙◌,
}
use gorums.Prelude.Go.{Go, returns, panics}
use gorums.Stream.Request.{Contexts, Message, Request}
use gorums.Stream.SendQueue.Counts.{count, audible}
use gorums.Stream.Dispatch
use gorums.Stream.Dispatch.{Dispatcher, claim, admit, try_push, release, finish}
use gorums.Stream.Dispatch.Serial.{IsSerial, release-IsSerial, finish-IsSerial}
use gorums.Stream.Dispatch.History.{new-IsSerial}
use gorums.Stream.Local.{
  LocalChannel, new_local_channel, enqueue, claim_slot, give_up, admit_push, send,
}
use gorums.Stream.Local.Steady.{release-Steady, finish-Steady}
use gorums.Stream.Local.Accepts.{upto, Serves, take_in-Serves}
use gorums.Stream.Local.Moves.{claim_slot-Serves, give_up-Serves, admit_push-Serves, send-Serves}

-- The steps of a channel: calls of `Enqueue`, of `push` that gets a slot, has its context end, or goes on
-- with its slot, and a handler's replies, releases and returns.
pub data Op : Type 0 where
  enqueues : Contexts → Request → Op
  claims : ℕ → Op
  gives_up admits : Contexts → ℕ → Op
  replies : Contexts → Message → ℕ → Op
  releases returns_at : ℕ → Op

-- A call that panics changes nothing.
abbrev settled : LocalChannel → Go LocalChannel → LocalChannel
settled c (returns d) = d
settled c panics = c

unfoldable pub step : LocalChannel → Op → LocalChannel
step c (enqueues ctxs r) = settled c (enqueue ctxs r c)
step c (claims i) = claim_slot i (get_elem? c.waiting i) c
step c (gives_up ctxs i) = give_up i (get_elem? c.waiting i) ctxs c
step c (admits ctxs i) = admit_push i (get_elem? c.claimed i) ctxs c
step c (replies ctxs msg i) = send msg (get_elem? c.runs i) ctxs c
step c (releases i) = record c { requests = release i c.requests }
step c (returns_at i) = record c { requests = finish i c.requests }

-- The requests that are not both one-way and streaming, with which `Enqueue` panics.
unfoldable pub given : List Op → List Request
given [] = []
given (enqueues ctxs r ∷ ops) =
    let rest = given ops in if r.oneway && r.streaming then rest else r ∷ rest
given (claims i ∷ ops) = given ops
given (gives_up ctxs i ∷ ops) = given ops
given (admits ctxs i ∷ ops) = given ops
given (replies ctxs msg i ∷ ops) = given ops
given (releases i ∷ ops) = given ops
given (returns_at i ∷ ops) = given ops

unfoldable pub run : LocalChannel → List Op → LocalChannel
run c [] = c
run c (op ∷ ops) = run (step c op) ops

module _ (f : Request → Bool) where
  no_more : {n : ℕ} {c : LocalChannel} → Serves f n c → Serves f (n + 0) c
  no_more {n} {c} v = subst (λ k. Serves f k c) (omega arith) v

  enqueue-Serves :
      (ctxs : Contexts) (r : Request) (c : LocalChannel) (n : ℕ)
      → Serves f n c
      → Serves f
          (n + count (audible f) (given (enqueues ctxs r ∷ [])))
          (settled c (enqueue ctxs r c))
  unfolding enqueue given count
  enqueue-Serves ctxs r c n v = elim (Bool-cases (r.oneway && r.streaming)) [
    | inl bad ↦ rw (bad, enqueue) (subst (λ k. Serves f k c) (omega arith) v)
    | inr ok ↦ rw (ok, enqueue) (take_in-Serves f (ctxs r.ctx) r c n v)
  ]

  quiet-Serves :
      (c : LocalChannel) (n : ℕ) (d : Dispatcher)
      → Serves f n c
      → IsSerial (upto (length c.runs)) d
      → (d.stopped ≡ c.requests.stopped) × (d.held ≡ c.requests.held)
      → Serves f n (record c { requests = d })
  quiet-Serves c n d v s steady = record {
    ordered = record {
      serial = s;
      going = steady.0 ∙ v.ordered.going;
      held = steady.1 ∙ v.ordered.held;
    };
    accounts = v.accounts;
    confirms = v.confirms;
  }

  step-Serves :
      (c : LocalChannel) (op : Op) (n : ℕ)
      → Serves f n c
      → Serves f (n + count (audible f) (given (op ∷ []))) (step c op)
  unfolding step given count
  step-Serves c (enqueues ctxs r) n v = enqueue-Serves ctxs r c n v
  step-Serves c (claims i) n v = no_more (claim_slot-Serves f i (get_elem? c.waiting i) c n refl v)
  step-Serves c (gives_up ctxs i) n v =
      no_more (give_up-Serves f i (get_elem? c.waiting i) ctxs c n refl v)
  step-Serves c (admits ctxs i) n v =
      no_more (admit_push-Serves f i (get_elem? c.claimed i) ctxs c n refl v)
  step-Serves c (replies ctxs msg i) n v =
      no_more (send-Serves f msg (get_elem? c.runs i) ctxs c n v)
  step-Serves c (releases i) n v = no_more (
      quiet-Serves c n (release i c.requests) v
        (release-IsSerial (upto (length c.runs)) c.requests i v.ordered.serial)
        (release-Steady i c.requests))
  step-Serves c (returns_at i) n v = no_more (
      quiet-Serves c n (finish i c.requests) v
        (finish-IsSerial (upto (length c.runs)) c.requests i v.ordered.serial)
        (finish-Steady i c.requests))

  given_cons :
      (op : Op) (ops : List Op)
      → count (audible f) (given (op ∷ ops))
        ≡ count (audible f) (given (op ∷ [])) + count (audible f) (given ops)
  unfolding given count
  given_cons (enqueues ctxs r) ops = ground arith
  given_cons (claims i) ops = omega arith
  given_cons (gives_up ctxs i) ops = omega arith
  given_cons (admits ctxs i) ops = omega arith
  given_cons (replies ctxs msg i) ops = omega arith
  given_cons (releases i) ops = omega arith
  given_cons (returns_at i) ops = omega arith

  run-from-Serves :
      (ops : List Op) (c : LocalChannel) (n : ℕ)
      → Serves f n c
      → Serves f (n + count (audible f) (given ops)) (run c ops)
  unfolding run
  run-from-Serves [] c n v = unfold given count in no_more v
  run-from-Serves (op ∷ ops) c n v =
      subst (λ k. Serves f k (run (step c op) ops)) (omega (arith, given_cons op ops))
        (run-from-Serves ops (step c op) _ (step-Serves c op n v))

  -- In any history of a local channel, whatever its handler does: the queued requests are handled in the
  -- order in which they were queued, one at a time until it releases or returns, and no more of them wait
  -- than there are slots; of each kind of requests with a response channel, as many were
  -- enqueued as wait in `push`, were queued, or were refused with an error; and of the queued requests,
  -- just the one-way ones are confirmed, once each.
  pub run-Serves :
      (id size : ℕ) (handler : Bool) (ops : List Op)
      → Serves f (count (audible f) (given ops)) (run (new_local_channel id handler size) ops)
  unfolding new_local_channel Dispatch.new_dispatcher count
  run-Serves id size handler ops =
      let c = new_local_channel id handler size in
      subst (λ k. Serves f k (run c ops)) (omega arith)
        (run-from-Serves ops c 0 (record {
          ordered = record { serial = new-IsSerial size; going = refl; held = refl };
          accounts = refl;
          confirms = refl;
        }))
