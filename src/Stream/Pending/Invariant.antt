-- ===== src/Stream/Pending/Invariant.antt =====
-- What holds of the table of internal/stream/pending.go between two operations.
use gorums.Prelude.{
  ℕ, suc, ◌≤◌, ◌<◌, ◌≡◌, refl, true, false, some, List, [], if◌then◌else◌, nat_beq, length, arith,
  Bool-cases, Option-cases, inl, inr, max, leb, ap,
}
use gorums.Stream.Request.{Contexts, Request}
use gorums.Stream.Pending.{
  PendingCall, PendingCalls, find, delete, assign, sweep_calls, watch_calls, sweep, add, take,
  drain, watch_expiry, expire, min_sweep_size,
}
use gorums.Stream.Pending.Table.{
  IsMap, find-delete, find-assign, find-watch_calls, find-sweep_calls, assign-IsMap, delete-IsMap,
  watch_calls-IsMap, sweep_calls-IsMap, length-delete-le, length-watch_calls,
}

-- The keys are distinct; each call's number was given out; no two calls have one number; a closed
-- table is empty; once the table watches, each call is watched; and the table is no larger than
-- where the next sweep runs.
pub record IsTable (p : PendingCalls) : Type 0 where
  pub keys : IsMap p.calls
  pub numbered : (k : ℕ) (c : PendingCall) → find k p.calls ≡ some c → c.seq ≤ p.seq
  pub distinct :
      (j k : ℕ) (c d : PendingCall)
      → find j p.calls ≡ some c
      → find k p.calls ≡ some d
      → c.seq ≡ d.seq
      → j ≡ k
  pub emptied : p.closed ≡ true → p.calls ≡ []
  pub watched :
      p.watching ≡ true → (k : ℕ) (c : PendingCall) → find k p.calls ≡ some c → c.watched ≡ true
  pub bounded : length p.calls ≤ max p.sweep_at min_sweep_size

sweep-IsTable : (ctxs : Contexts) (p : PendingCalls) → IsTable p → IsTable (sweep ctxs p)
unfolding sweep
sweep-IsTable ctxs p v = record {
  keys = sweep_calls-IsMap ctxs p.calls v.keys;
  numbered = λ k c h. ground (arith, find-sweep_calls ctxs k p.calls v.keys, v.numbered k c);
  distinct = λ j k c d h g e. ground (
    arith,
    find-sweep_calls ctxs j p.calls v.keys,
    find-sweep_calls ctxs k p.calls v.keys,
    v.distinct j k c d,
  );
  emptied = λ h. ap (sweep_calls ctxs) (v.emptied h);
  watched = λ w k c h. ground (arith, find-sweep_calls ctxs k p.calls v.keys, v.watched w k c);
  bounded = ground arith;
}

abbrev pub insert : ℕ → Request → PendingCalls → PendingCalls
insert msg_id req p = record p {
  seq = suc p.seq;
  calls = assign msg_id (record { req = req; seq = suc p.seq; watched = p.watching }) p.calls;
}

insert-IsTable :
    (msg_id : ℕ) (req : Request) (p : PendingCalls)
    → IsTable p
    → p.closed ≡ false
    → length p.calls < max p.sweep_at min_sweep_size
    → IsTable (insert msg_id req p)
insert-IsTable msg_id req p v o room = record {
  keys = assign-IsMap msg_id _ p.calls v.keys;
  numbered = λ k c h. ground (arith, found k, v.numbered k c);
  distinct = λ j k c d h g e.
      ground (arith, found j, found k, v.numbered j c, v.numbered k d, v.distinct j k c d);
  emptied = λ h. cc;
  watched = λ w k c h. ground (arith, found k, v.watched w k c);
  bounded = unfold assign in omega (arith, length-delete-le msg_id p.calls);
}
  where
    fresh : PendingCall
    fresh = record { req = req; seq = suc p.seq; watched = p.watching }

    found :
        (k : ℕ)
        → find k (assign msg_id fresh p.calls)
          ≡ (if nat_beq msg_id k then some fresh else find k p.calls)
    found k = find-assign k msg_id fresh p.calls

module _ (ctxs : Contexts) (msg_id : ℕ) (req : Request) (p : PendingCalls) where
  pub add-closed : p.closed ≡ true → add ctxs msg_id req p ≡ (p, false)
  unfolding add
  add-closed shut = ground arith

  pub add-swept :
      p.closed ≡ false
      → leb (max p.sweep_at min_sweep_size) (length p.calls) ≡ true
      → add ctxs msg_id req p ≡ (insert msg_id req (sweep ctxs p), true)
  unfolding add
  add-swept o full = ground arith

  pub add-unswept :
      p.closed ≡ false
      → leb (max p.sweep_at min_sweep_size) (length p.calls) ≡ false
      → add ctxs msg_id req p ≡ (insert msg_id req p, true)
  unfolding add
  add-unswept o room = ground arith

  pub add-IsTable : IsTable p → IsTable (add ctxs msg_id req p).0
  add-IsTable v = elim (Bool-cases p.closed) [
    | inl shut ↦ rw (add-closed shut) v
    | inr o ↦ elim (Bool-cases (leb (max p.sweep_at min_sweep_size) (length p.calls))) [
      | inl full ↦ rw (add-swept o full) (
          insert-IsTable msg_id req (sweep ctxs p) (sweep-IsTable ctxs p v) (unfold sweep in o)
            (unfold sweep in omega arith))
      | inr room ↦ rw (add-unswept o room) (insert-IsTable msg_id req p v o (ground arith))
    ]
  ]

remove-IsTable :
    (k : ℕ) (p : PendingCalls) → IsTable p → IsTable (record p { calls = delete k p.calls })
remove-IsTable k p v = record {
  keys = delete-IsMap k p.calls v.keys;
  numbered = λ j c h. ground (arith, find-delete j k p.calls, v.numbered j c);
  distinct = λ i j c d h g e.
      ground (arith, find-delete i k p.calls, find-delete j k p.calls, v.distinct i j c d);
  emptied = λ h. unfold delete in ap (delete k) (v.emptied h);
  watched = λ w j c h. ground (arith, find-delete j k p.calls, v.watched w j c);
  bounded = omega (arith, v.bounded, length-delete-le k p.calls);
}

pub take-IsTable : (msg_id : ℕ) (p : PendingCalls) → IsTable p → IsTable (take msg_id p).0
unfolding take
take-IsTable msg_id p v = elim (Option-cases (find msg_id p.calls)) [
  | inl absent ↦ rw (absent, take) v
  | inr (c, there) ↦ elim (Bool-cases c.req.streaming) [
    | inl stays ↦ rw (there, take) (rw stays v)
    | inr once ↦ rw (there, take) (rw once (remove-IsTable msg_id p v))
  ]
]

pub drain-IsTable : (p : PendingCalls) → IsTable p → IsTable (drain p).0
unfolding drain
drain-IsTable p v = record {
  keys = tt;
  numbered = λ k c h. unfold find in cc;
  distinct = λ j k c d h g e. unfold find in cc;
  emptied = λ h. refl;
  watched = λ w k c h. unfold find in cc;
  bounded = omega arith;
}

watch_expiry-again : (p : PendingCalls) → p.watching ≡ true → watch_expiry p ≡ p
unfolding watch_expiry
watch_expiry-again p on = ground arith

watch_expiry-first :
    (p : PendingCalls)
    → p.watching ≡ false
    → watch_expiry p ≡ record p { watching = true; calls = watch_calls p.calls }
unfolding watch_expiry
watch_expiry-first p off = ground arith

watched-from :
    (k : ℕ) (m : List (ℕ × PendingCall)) {c : PendingCall}
    → find k (watch_calls m) ≡ some c
    → (d : PendingCall) × (find k m ≡ some d) × (c.seq ≡ d.seq) × (c.watched ≡ true)
watched-from k m h = elim (Option-cases (find k m)) [
  | inl absent ↦ absurd (ground (arith, find-watch_calls k m))
  | inr (d, there) ↦
      (d, there, ground (arith, find-watch_calls k m), ground (arith, find-watch_calls k m))
]

pub watch_expiry-IsTable : (p : PendingCalls) → IsTable p → IsTable (watch_expiry p)
watch_expiry-IsTable p v = elim (Bool-cases p.watching) [
  | inl on ↦ rw (watch_expiry-again p on) v
  | inr off ↦ rw (watch_expiry-first p off) (record {
    keys = watch_calls-IsMap p.calls v.keys;
    numbered = λ k c h.
        let (c', there, same, _) = watched-from k p.calls h in omega (arith, v.numbered k c' there);
    distinct = λ j k c d h g e.
        let (c', there, same, _) = watched-from j p.calls h in
        let (d', there', same', _) = watched-from k p.calls g in
        v.distinct j k c' d' there there' (omega arith);
    emptied = λ h. unfold watch_calls in ap watch_calls (v.emptied h);
    watched = λ w k c h. (watched-from k p.calls h).3;
    bounded = omega (arith, v.bounded, length-watch_calls p.calls);
  })
]

pub expire-IsTable :
    (msg_id seq : ℕ) (p : PendingCalls) → IsTable p → IsTable (expire msg_id seq p).0
unfolding expire
expire-IsTable msg_id seq p v = elim (Option-cases (find msg_id p.calls)) [
  | inl absent ↦ rw (absent, expire) v
  | inr (c, there) ↦ elim (Bool-cases (nat_beq c.seq seq)) [
    | inl same ↦ rw (there, expire) (rw same (remove-IsTable msg_id p v))
    | inr other ↦ rw (there, expire) (rw other v)
  ]
]
