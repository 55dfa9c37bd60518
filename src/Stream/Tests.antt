-- ===== src/Stream/Tests.antt =====
-- The theorems on internal/stream at concrete requests.
use gorums.Prelude.{
  ◌*◌, max, ℕ, ◌≡◌, ◌≤◌, ◌+◌, refl, true, false, none, some, List, [], ◌∷◌, if◌then◌else◌, nat_beq,
  length,
}
use gorums.Errors.{context_ended}
use gorums.Stream.Request.{Request, Message, Contexts}
use gorums.Stream.Pending.{new_pending}
use gorums.Stream.Pending.Invariant.{IsTable}
use gorums.Stream.Pending.History.{Op, adds, watches, run}
use gorums.Stream.Pending.Sweeps.{left, run_swept}
use gorums.Stream.Pending.Spec.{Conforms}
use gorums.Stream.Pending.Refines.{answers, none_awaited, table_refines}
use gorums.Stream.SendQueue.{new_send_queue, ctx_ended}
use gorums.Stream.SendQueue.Accounts
use gorums.Stream.SendQueue.Counts

abbrev message : ℕ → Message
message n = record { seq_no = n; method = 1; payload = 2; status = none }

-- A two-way call in context n, with message ID n.
abbrev two_way : ℕ → Request
two_way n = record {
  ctx = n;
  msg = message n;
  streaming = false;
  oneway = false;
  response_chan = some n;
}

-- A handler's reply, which has no response channel.
abbrev reply : ℕ → Request
reply n = record {
  ctx = n;
  msg = message n;
  streaming = false;
  oneway = false;
  response_chan = none;
}

-- Context 2 has ended.
abbrev some_ended : Contexts
some_ended n = if nat_beq n 2 then some context_ended else none

abbrev calls : List Op
calls = adds some_ended 1 (two_way 1) ∷ adds some_ended 2 (two_way 2) ∷ watches ∷ []

run_swept_example :
    IsTable (run new_pending calls)
    × (length (run new_pending calls).calls ≤ max 64 (2 * left 0 new_pending calls))
run_swept_example = run_swept calls

table_refines_example : Conforms none_awaited calls (answers new_pending calls)
table_refines_example = table_refines calls

abbrev queue_events : Accounts.Events
queue_events =
    (some_ended, false, Counts.pushes (two_way 1))
    ∷ (some_ended, false, Counts.pushes (reply 3))
    ∷ (some_ended, false, Counts.waits (ctx_ended context_ended) (two_way 2))
    ∷ (some_ended, false, Counts.pops)
    ∷ (some_ended, true, Counts.closes)
    ∷ []

run_accounts_example :
    let q = Accounts.run (new_send_queue 9 1) queue_events in
    let out = Accounts.all_taken (new_send_queue 9 1) queue_events in
    (Counts.count (Counts.audible (λ _. true)) (Accounts.all_given queue_events)
      ≡ Counts.count (Counts.audible (λ _. true)) out
        + Counts.count (Counts.audible (λ _. true)) q.items
        + Counts.count (Counts.audible (λ _. true)) (Counts.failed q))
    × (Counts.count Counts.silent (Accounts.all_given queue_events)
        ≡ Counts.count Counts.silent out + Counts.count Counts.silent q.items + q.dropped)
    × (length q.items ≤ q.capacity)
    × ((q.closed ≡ true) → q.items ≡ [])
run_accounts_example =
    Accounts.run_accounts (λ _. true) 9 1 queue_events (tt, (tt, (refl, (tt, (tt, tt)))))
