-- ===== src/Stream/Pending/Refines.antt =====
-- The table of internal/stream/pending.go keeps its promises.
use gorums.Prelude.{
  ℕ, suc, ◌≡◌, ◌⊎◌, inl, inr, refl, false, Option, none, some, List, [], ◌∷◌, map, nat_beq,
  contains, comparable_nat, arith, Bool-cases, Option-cases, is_some, leb, length, max, ap, ◌∙◌,
  if_case,
}
use gorums.Stream.Request.{Contexts, Request}
use gorums.Stream.Pending.{
  PendingCall, PendingCalls, sweep, find, delete, new_pending, add, take, drain, watch_expiry,
  expire, min_sweep_size,
}
use gorums.Stream.Pending.Table.{IsMap, find-delete, find-watch_calls, live_only}
use gorums.Stream.Pending.Invariant.{IsTable, add-closed, add-swept, add-unswept}
use gorums.Stream.Pending.Calls.{add_lem}
use gorums.Stream.Pending.History.{
  Op, adds, takes, drains, watches, expires, step, step-IsTable, new-IsTable,
}
use gorums.Stream.Pending.Spec.{
  Awaited, Answer, did, found, left, done, MayForget, Unchanged, Removed, Reads, AfterTake,
  AfterExpiry, Promise, Conforms,
}

abbrev entry : Option PendingCall → Option (Request × ℕ)
entry none = none
entry (some c) = some (c.req, c.seq)

-- What is seen of a table.
abbrev pub view : PendingCalls → Awaited
view p = record { call = λ k. entry (find k p.calls); closed = p.closed; given = p.seq }

unfoldable pub answer : PendingCalls → Op → Answer
answer p (adds ctxs id req) = did (add ctxs id req p).1
answer p (takes id) = found (take id p).1
answer p drains = left (drain p).1
answer p watches = done
answer p (expires id seq) = did (expire id seq p).1

unfoldable pub answers : PendingCalls → List Op → List Answer
unfolding answer
answers p [] = []
answers p (op ∷ ops) = answer p op ∷ answers (step p op) ops

same : (p : PendingCalls) → Unchanged (view p) (view p)
same p = (λ k. refl, refl, refl)

live_only-MayForget :
    (ctxs : Contexts) (o q : Option PendingCall)
    → (q ≡ o) ⊎ (q ≡ live_only ctxs o)
    → MayForget ctxs (entry o) (entry q)
live_only-MayForget ctxs none q h = ground arith
live_only-MayForget ctxs (some c) q (inl kept) = inl (ap entry kept)
live_only-MayForget ctxs (some c) q (inr swept) = elim (Option-cases (ctxs c.req.ctx)) [
  | inl lives ↦ inl (ground arith)
  | inr (e, ended) ↦ inr (e, ended, ground arith)
]

removed :
    (id : ℕ) (p : PendingCalls)
    → Removed id (view p) (view (record p { calls = delete id p.calls }))
removed id p = (λ k. ground (arith, find-delete k id p.calls), refl, refl)

take-AfterTake :
    (id : ℕ) (p : PendingCalls)
    → AfterTake id (entry (find id p.calls)) (view p) (found (take id p).1) (view (take id p).0)
unfolding take
take-AfterTake id p = elim (Option-cases (find id p.calls)) [
  | inl absent ↦ rw (absent, take) (refl, same p)
  | inr (c, there) ↦ elim (Bool-cases c.req.streaming) [
    | inl stays ↦ rw (there, take) (rw stays (refl, same p))
    | inr once ↦ rw (there, take) (rw once (refl, removed id p))
  ]
]

expire-AfterExpiry :
    (id seq : ℕ) (p : PendingCalls)
    → AfterExpiry id seq
        (entry (find id p.calls))
        (view p)
        (did (expire id seq p).1)
        (view (expire id seq p).0)
unfolding expire
expire-AfterExpiry id seq p = elim (Option-cases (find id p.calls)) [
  | inl absent ↦ rw (absent, expire) (refl, same p)
  | inr (c, there) ↦ elim (Bool-cases (nat_beq c.seq seq)) [
    | inl its ↦ rw (there, expire) (rw its (refl, removed id p))
    | inr other ↦ rw (there, expire) (rw other (refl, same p))
  ]
]

watch_expiry-Unchanged : (p : PendingCalls) → Unchanged (view p) (view (watch_expiry p))
unfolding watch_expiry
watch_expiry-Unchanged p =
    if_case (λ q. Unchanged (view p) (view q)) p.watching _ _ (λ _. same p)
      (λ _. (λ k. ground (arith, find-watch_calls k p.calls), refl, refl))

add_counts :
    (ctxs : Contexts) (id : ℕ) (req : Request) (p : PendingCalls)
    → p.closed ≡ false
    → ((add ctxs id req p).0.closed ≡ false) × ((add ctxs id req p).0.seq ≡ suc p.seq)
add_counts ctxs id req p o =
    elim (Bool-cases (leb (max p.sweep_at min_sweep_size) (length p.calls))) [
      | inl full ↦ rw (add-swept ctxs id req p o full) (unfold sweep in o, unfold sweep in refl)
      | inr room ↦ rw (add-unswept ctxs id req p o room) (o, refl)
    ]

add_promised :
    (ctxs : Contexts) (id : ℕ) (req : Request) (p : PendingCalls)
    → IsTable p
    → Promise (view p) (adds ctxs id req) (did (add ctxs id req p).1) (view (add ctxs id req p).0)
add_promised ctxs id req p v =
    if_case (λ (t : Type 0). t) p.closed _ _
      (λ shut. rw (add-closed ctxs id req p shut) (refl, same p))
      (λ o.
        let (ok, (c, there, is, number), others) = add_lem ctxs id req p v o in
        (
          ap did ok,
          ground (arith, there, is, number),
          (add_counts ctxs id req p o).0,
          (add_counts ctxs id req p o).1,
          λ k other.
              live_only-MayForget ctxs (find k p.calls) _
                (elim (Bool-cases (leb (max p.sweep_at min_sweep_size) (length p.calls))) [
                  | inl full ↦ inr (others k other ∙ rw full refl)
                  | inr room ↦ inl (others k other ∙ rw room refl)
                ]),
        ))

-- The calls of a table, under their IDs.
abbrev keys : List (ℕ × PendingCall) → List ℕ
keys m = map (λ e. e.0) m

contains-keys : (m : List (ℕ × PendingCall)) (k : ℕ) → contains (keys m) k ≡ is_some (find k m)
unfolding find
contains-keys [] k = refl
contains-keys ((j, c) ∷ m) k = ground (arith, contains-keys m k)

keys-Reads :
    (p : PendingCalls) (m : List (ℕ × PendingCall))
    → IsMap m
    → ((k : ℕ) (c : PendingCall) → find k m ≡ some c → find k p.calls ≡ some c)
    → Reads (view p) (keys m) (map (λ e. e.1.req) m)
unfolding find
keys-Reads p [] u h = tt
keys-Reads p ((j, c) ∷ m) u h = (
  (c.seq, ap entry (h j c (ground arith))),
  contains-keys m j ∙ ap is_some u.0,
  keys-Reads p m u.1 (λ k d g. h k d (ground (arith, u.0, g, ap (λ i. find i m)))),
)

drain_promised :
    (p : PendingCalls) → IsTable p → Promise (view p) drains (left (drain p).1) (view (drain p).0)
unfolding drain find
drain_promised p v = (
  (
    keys p.calls,
    map (λ e. e.1.req) p.calls,
    refl,
    keys-Reads p p.calls v.keys (λ k c h. h),
    λ k. elim (Option-cases (find k p.calls)) [
      | inl absent ↦ inl (ap entry absent)
      | inr (c, there) ↦ inr (contains-keys p.calls k ∙ ap is_some there)
    ],
  ),
  (λ k. refl),
  refl,
  refl,
)

step_promised :
    (p : PendingCalls) (op : Op) → IsTable p → Promise (view p) op (answer p op) (view (step p op))
unfolding step answer
step_promised p (adds ctxs id req) v = add_promised ctxs id req p v
step_promised p (takes id) v = take-AfterTake id p
step_promised p drains v = drain_promised p v
step_promised p watches v = (refl, watch_expiry-Unchanged p)
step_promised p (expires id seq) v = expire-AfterExpiry id seq p

answers-Conforms :
    (p : PendingCalls) (ops : List Op) → IsTable p → Conforms (view p) ops (answers p ops)
unfolding answers
answers-Conforms p [] v = tt
answers-Conforms p (op ∷ ops) v =
    (view (step p op), step_promised p op v, answers-Conforms (step p op) ops (step-IsTable p op v))

abbrev pub none_awaited : Awaited
none_awaited = record { call = λ k. none; closed = false; given = 0 }

-- Whatever operations run on a new table, their answers are those of a plain map from message IDs to
-- calls, which an add extends unless it was drained, a take reads, and removes unless the call streams,
-- a drain empties, giving back each call once, and an expiry removes the call of its number from. All
-- that sweeps and watches do to it is that an add may forget calls whose contexts have ended.
pub table_refines : (ops : List Op) → Conforms none_awaited ops (answers new_pending ops)
unfolding find
table_refines ops = answers-Conforms new_pending ops new-IsTable
