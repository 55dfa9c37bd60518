-- ===== src/Stream/Pending/Sweeps.antt =====
-- How the sweeps of internal/stream/pending.go bound its table.
use gorums.Prelude.{
  ℕ, ◌*◌, ◌≤◌, ◌≡◌, refl, ap, true, false, not, List, [], ◌∷◌, if◌then◌else◌, is_some, leb, length,
  keep, max, arith, Bool-cases, inl, inr,
}
use gorums.Stream.Request.{Contexts, Request}
use gorums.Stream.Pending.{
  PendingCall, PendingCalls, new_pending, min_sweep_size, sweep_calls, sweep, add, take, drain,
  watch_expiry, expire,
}
use gorums.Stream.Pending.Invariant.{IsTable, add-closed, add-swept, add-unswept}
use gorums.Stream.Pending.History.{
  Op, adds, takes, drains, watches, expires, step, run, run-IsTable,
}

-- The number of calls whose contexts have not ended.
abbrev pub live : Contexts → List (ℕ × PendingCall) → ℕ
live ctxs calls = length (keep (λ e. not (is_some (ctxs e.1.req.ctx))) calls)

-- How many calls the last sweep left, given how many the one before it left. An add to a table that is
-- not drained sweeps if the table has 64 calls or more and twice as many as the last sweep left.
abbrev pub left_by : ℕ → PendingCalls → Op → ℕ
left_by n p (adds ctxs msg_id req) =
    if p.closed then n else if leb (max 64 (2 * n)) (length p.calls) then live ctxs p.calls else n
left_by n p (takes _) = n
left_by n p drains = n
left_by n p watches = n
left_by n p (expires _ _) = n

-- The same of a history; no sweep yet counts as one that left none.
unfoldable pub left : ℕ → PendingCalls → List Op → ℕ
left n p [] = n
left n p (op ∷ ops) = left (left_by n p op) (step p op) ops

length-sweep_calls :
    (ctxs : Contexts) (calls : List (ℕ × PendingCall))
    → length (sweep_calls ctxs calls) ≡ live ctxs calls
unfolding sweep_calls
length-sweep_calls ctxs [] = refl
length-sweep_calls ctxs (e ∷ calls) = ground (arith, length-sweep_calls ctxs calls)

add-sweep_at :
    (ctxs : Contexts) (msg_id : ℕ) (req : Request) (p : PendingCalls) (n : ℕ)
    → p.sweep_at ≡ 2 * n
    → (add ctxs msg_id req p).0.sweep_at ≡ 2 * left_by n p (adds ctxs msg_id req)
unfolding sweep
add-sweep_at ctxs msg_id req p n e = elim (Bool-cases p.closed) [
  | inl shut ↦ rw (add-closed ctxs msg_id req p shut, shut) e
  | inr o ↦ elim (Bool-cases (leb (max p.sweep_at min_sweep_size) (length p.calls))) [
    | inl full ↦
        let same : leb (max 64 (2 * n)) (length p.calls) ≡ true = ground (arith, e) in
        rw (add-swept ctxs msg_id req p o full, o, same)
          (ap (λ k. 2 * k) (length-sweep_calls ctxs p.calls))
    | inr room ↦
        let same : leb (max 64 (2 * n)) (length p.calls) ≡ false = ground (arith, e) in
        rw (add-unswept ctxs msg_id req p o room, o, same) e
  ]
]

step-sweep_at :
    (p : PendingCalls) (op : Op) (n : ℕ)
    → p.sweep_at ≡ 2 * n
    → (step p op).sweep_at ≡ 2 * left_by n p op
unfolding step take drain watch_expiry expire
step-sweep_at p (adds ctxs msg_id req) n e = add-sweep_at ctxs msg_id req p n e
step-sweep_at p (takes msg_id) n e = ground (arith, e)
step-sweep_at p drains n e = e
step-sweep_at p watches n e = ground (arith, e)
step-sweep_at p (expires msg_id seq) n e = ground (arith, e)

run-sweep_at :
    (p : PendingCalls) (ops : List Op) (n : ℕ)
    → p.sweep_at ≡ 2 * n
    → (run p ops).sweep_at ≡ 2 * left n p ops
unfolding run left
run-sweep_at p [] n e = e
run-sweep_at p (op ∷ ops) n e =
    run-sweep_at (step p op) ops (left_by n p op) (step-sweep_at p op n e)

-- After any operations on a new table: the message IDs are distinct, each call has its own number, a
-- drained table is empty, a watching table watches every call, and the table holds no more than the
-- larger of 64 and twice the calls that its last sweep left.
pub run_swept :
    (ops : List Op)
    → IsTable (run new_pending ops)
      × (length (run new_pending ops).calls ≤ max 64 (2 * left 0 new_pending ops))
run_swept ops =
    let v = run-IsTable ops in (v, omega (arith, v.bounded, run-sweep_at new_pending ops 0 refl))
