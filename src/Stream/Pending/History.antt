-- ===== src/Stream/Pending/History.antt =====
-- Histories of the table of internal/stream/pending.go.
use gorums.Prelude.{ℕ, ◌≡◌, refl, Bool, true, false, List, [], ◌∷◌, arith, ap}
use gorums.Stream.Request.{Contexts, Request}
use gorums.Stream.Pending.{PendingCalls, find, new_pending, add, take, drain, watch_expiry, expire}
use gorums.Stream.Pending.Invariant.{
  IsTable, add-closed, add-IsTable, take-IsTable, drain-IsTable, watch_expiry-IsTable,
  expire-IsTable,
}

-- The operations on a table; an expiry is the function that watches a call.
pub data Op : Type 0 where
  adds : Contexts → ℕ → Request → Op
  takes : ℕ → Op
  drains watches : Op
  expires : ℕ → ℕ → Op

unfoldable pub step : PendingCalls → Op → PendingCalls
step p (adds ctxs msg_id req) = (add ctxs msg_id req p).0
step p (takes msg_id) = (take msg_id p).0
step p drains = (drain p).0
step p watches = watch_expiry p
step p (expires msg_id seq) = (expire msg_id seq p).0

unfoldable pub run : PendingCalls → List Op → PendingCalls
run p [] = p
run p (op ∷ ops) = run (step p op) ops

pub step-IsTable : (p : PendingCalls) (op : Op) → IsTable p → IsTable (step p op)
unfolding step
step-IsTable p (adds ctxs msg_id req) v = add-IsTable ctxs msg_id req p v
step-IsTable p (takes msg_id) v = take-IsTable msg_id p v
step-IsTable p drains v = drain-IsTable p v
step-IsTable p watches v = watch_expiry-IsTable p v
step-IsTable p (expires msg_id seq) v = expire-IsTable msg_id seq p v

run-from-IsTable : (p : PendingCalls) (ops : List Op) → IsTable p → IsTable (run p ops)
unfolding run
run-from-IsTable p [] v = v
run-from-IsTable p (op ∷ ops) v = run-from-IsTable (step p op) ops (step-IsTable p op v)

pub new-IsTable : IsTable new_pending
new-IsTable = record {
  keys = tt;
  numbered = λ k c h. unfold find in cc;
  distinct = λ j k c d h g e. unfold find in cc;
  emptied = λ h. refl;
  watched = λ w. cc;
  bounded = omega arith;
}

pub run-IsTable : (ops : List Op) → IsTable (run new_pending ops)
run-IsTable ops = run-from-IsTable new_pending ops new-IsTable

step-closed : (p : PendingCalls) (op : Op) → p.closed ≡ true → (step p op).closed ≡ true
unfolding step add take drain watch_expiry expire
step-closed p (adds ctxs msg_id req) h = ground arith
step-closed p (takes msg_id) h = ground arith
step-closed p drains h = refl
step-closed p watches h = ground arith
step-closed p (expires msg_id seq) h = ground arith

run-closed : (p : PendingCalls) (ops : List Op) → p.closed ≡ true → (run p ops).closed ≡ true
unfolding run
run-closed p [] h = h
run-closed p (op ∷ ops) h = run-closed (step p op) ops (step-closed p op h)

-- Once drained, a table stays closed and empty: every later add fails.
pub drained_forever :
    (p : PendingCalls) (ops : List Op) (ctxs : Contexts) (msg_id : ℕ) (req : Request)
    → IsTable p
    → let q = run (drain p).0 ops in
      (q.calls ≡ []) × ((add ctxs msg_id req q).1 ≡ false) × ((add ctxs msg_id req q).0 ≡ q)
drained_forever p ops ctxs msg_id req v =
    let q = run (drain p).0 ops in
    let shut : q.closed ≡ true = run-closed (drain p).0 ops (unfold drain in refl) in
    let same = add-closed ctxs msg_id req q shut in
    (
      (run-from-IsTable (drain p).0 ops (drain-IsTable p v)).emptied shut,
      ap (λ (r : PendingCalls × Bool). r.1) same,
      ap (λ (r : PendingCalls × Bool). r.0) same,
    )
