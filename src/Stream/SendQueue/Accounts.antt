-- ===== src/Stream/SendQueue/Accounts.antt =====
-- What becomes of the requests of internal/stream/send_queue.go.
use gorums.Prelude.{ℕ, ◌+◌, ◌≤◌, ◌≡◌, refl, Bool, true, List, [], ◌∷◌, ◌++◌, length, arith}
use gorums.Stream.Request.{Request, Contexts}
use gorums.Stream.SendQueue.{SendQueue, new_send_queue}
use gorums.Stream.SendQueue.Counts.{
  count, count-append, Op, step, Enabled, IsQueue, given, taken, failed, audible, silent, heard,
  unheard,
}
use gorums.Stream.SendQueue.Steps.{step-Accounted}

-- A history of operations, each with the state of the contexts and of the done channel before it.
abbrev pub Events : Type 0
Events = List (Contexts × Bool × Op)

unfoldable pub run : SendQueue → Events → SendQueue
run q [] = q
run q ((_, _, op) ∷ es) = run (step q op) es

abbrev pub AllEnabled : SendQueue → Events → Type 0
AllEnabled q [] = Unit
AllEnabled q ((ctxs, is_done, op) ∷ es) = Enabled ctxs is_done q op × AllEnabled (step q op) es

unfoldable pub all_taken : SendQueue → Events → List Request
all_taken q [] = []
all_taken q ((_, _, op) ∷ es) = taken q op ++ all_taken (step q op) es

unfoldable pub all_given : Events → List Request
all_given [] = []
all_given ((_, _, op) ∷ es) = given op ++ all_given es

run_from :
    (f : Request → Bool) (q : SendQueue) (es : Events)
    → IsQueue q
    → AllEnabled q es
    → (heard f (run q es) + count (audible f) (all_taken q es)
        ≡ heard f q + count (audible f) (all_given es))
      × (unheard (run q es) + count silent (all_taken q es)
          ≡ unheard q + count silent (all_given es))
      × IsQueue (run q es)
unfolding run all_taken all_given
run_from f q [] v en = (refl, refl, v)
run_from f q ((ctxs, is_done, op) ∷ es) v en =
    let (h, u, v') = step-Accounted f ctxs is_done q v op en.0 in
    let ih = run_from f (step q op) es v' en.1 in
    (
      omega (
        arith,
        ih.0,
        h,
        count-append (audible f) (taken q op) (all_taken (step q op) es),
        count-append (audible f) (given op) (all_given es),
      ),
      omega (
        arith,
        ih.1,
        u,
        count-append silent (taken q op) (all_taken (step q op) es),
        count-append silent (given op) (all_given es),
      ),
      ih.2,
    )

pub new-IsQueue : (id capacity : ℕ) → IsQueue (new_send_queue id capacity)
unfolding new_send_queue
new-IsQueue id capacity = record { bounded = omega arith; emptied = λ h. refl }

pub new_accounts :
    (f : Request → Bool) (id capacity : ℕ)
    → (heard f (new_send_queue id capacity) ≡ 0) × (unheard (new_send_queue id capacity) ≡ 0)
unfolding new_send_queue count
new_accounts f id capacity = (omega arith, omega arith)

-- In any history of pushes, receives and closes of a new queue, no request is lost or doubled. Of
-- each kind of request with a response channel, as many were pushed as were received, are queued or
-- got an error response; of those without one, as many as were received, are queued or are counted
-- as dropped. The queue stays within its capacity and is empty once closed.
pub run_accounts :
    (f : Request → Bool) (id capacity : ℕ) (es : Events)
    → AllEnabled (new_send_queue id capacity) es
    → let q = run (new_send_queue id capacity) es in
      let out = all_taken (new_send_queue id capacity) es in
      (count (audible f) (all_given es)
        ≡ count (audible f) out + count (audible f) q.items + count (audible f) (failed q))
      × (count silent (all_given es) ≡ count silent out + count silent q.items + q.dropped)
      × (length q.items ≤ q.capacity)
      × ((q.closed ≡ true) → q.items ≡ [])
run_accounts f id capacity es en =
    let a = run_from f (new_send_queue id capacity) es (new-IsQueue id capacity) en in
    (
      omega (arith, a.0, new_accounts f id capacity),
      omega (arith, a.1, new_accounts f id capacity),
      a.2.bounded,
      a.2.emptied,
    )
