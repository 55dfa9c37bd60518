-- ===== src/Conn/Pool/Closing.antt =====
-- What `Close` of internal/conn/outbound_manager.go releases, whatever calls build nodes meanwhile.
use gorums.Prelude.{
  ℕ, ◌+◌, ◌≡◌, refl, Bool, true, false, List, [], ◌∷◌, ◌++◌, if◌then◌else◌, length, keep, arith,
  length-keep-append, if_case, Bool-cases, inl, inr,
}
use gorums.Conn.Pool.{PoolNode, new_pool, add_node, Shared, finish_new, start_close, close_next}

-- A node is made by a call of `newNode`, a call goes on to `addNode`, in any order, `Close` starts, and
-- it closes a node.
pub data Op : Type 0 where
  makes : PoolNode → Op
  takes_turn : Op
  adds starts_close closes : Op

-- The call whose node stands first lets the others go first.
unfoldable pub rotate : List PoolNode → List PoolNode
rotate [] = []
rotate (n ∷ ns) = ns ++ n ∷ []

unfoldable pub step : Shared → Op → Shared
step s (makes n) = record s { in_flight = s.in_flight ++ n ∷ [] }
step s takes_turn = record s { in_flight = rotate s.in_flight }
step s adds = finish_new s.in_flight s
step s starts_close = start_close s
step s closes = close_next s.to_close s

unfoldable pub run : Shared → List Op → Shared
run s [] = s
run s (op ∷ ops) = run (step s op) ops

abbrev pub count : (PoolNode → Bool) → List PoolNode → ℕ
count f ns = length (keep f ns)

-- The nodes that a history makes.
unfoldable pub made_by : List Op → List PoolNode
made_by [] = []
made_by (makes n ∷ ops) = n ∷ made_by ops
made_by (takes_turn ∷ ops) = made_by ops
made_by (adds ∷ ops) = made_by ops
made_by (starts_close ∷ ops) = made_by ops
made_by (closes ∷ ops) = made_by ops

abbrev pub new_shared : ℕ → Shared
new_shared id = record { pool = new_pool id; in_flight = []; to_close = [] }

-- The nodes that are not lost: those in flight, the closed ones, and those of an open pool or those that
-- `Close` has yet to close.
abbrev pub held : (PoolNode → Bool) → Shared → ℕ
held f s =
    count f s.in_flight
    + count f s.pool.released
    + (if s.pool.closed then count f s.to_close else count f s.pool.nodes)

-- A pool that is not closed has closed no node.
abbrev pub Untouched : Shared → Type 0
Untouched s = s.pool.closed ≡ false → (s.pool.released ≡ []) × (s.to_close ≡ [])

module _ (f : PoolNode → Bool) where
  abbrev Moves : ℕ → Shared → Type 0
  Moves total s = (held f s ≡ total) × Untouched s

  count-rotate : (ns : List PoolNode) → count f (rotate ns) ≡ count f ns
  unfolding rotate
  count-rotate [] = refl
  count-rotate (n ∷ ns) = ground (arith, length-keep-append f ns (n ∷ []))

  finish_new-Moves :
      (ns : List PoolNode) (s : Shared)
      → s.in_flight ≡ ns
      → Untouched s
      → Moves (held f s) (finish_new ns s)
  unfolding finish_new
  finish_new-Moves [] s at u = (refl, u)
  finish_new-Moves (n ∷ ns) s at u = elim (Bool-cases s.pool.closed) [
    | inl shut ↦
        rw (shut, add_node)
          (ground (arith, at, shut, length-keep-append f s.pool.released (n ∷ [])), λ up. cc)
    | inr up ↦
        rw (up, add_node)
          (ground (arith, at, up, length-keep-append f s.pool.nodes (n ∷ [])), λ _. u up)
  ]

  start_close-Moves : (s : Shared) → Untouched s → Moves (held f s) (start_close s)
  unfolding start_close
  start_close-Moves s u =
      if_case (Moves (held f s)) s.pool.closed _ _ (λ shut. (refl, u))
        (λ up. (ground (arith, u up), λ bad. cc))

  close_next-Moves :
      (ns : List PoolNode) (s : Shared)
      → s.to_close ≡ ns
      → Untouched s
      → Moves (held f s) (close_next ns s)
  unfolding close_next
  close_next-Moves [] s at u = (refl, u)
  close_next-Moves (n ∷ ns) s at u = elim (Bool-cases s.pool.closed) [
    | inl shut ↦ (
      ground (arith, at, shut, length-keep-append f s.pool.released (n ∷ [])),
      λ up. absurd (ground arith),
    )
    | inr up ↦ absurd (ground (arith, u up, at))
  ]

  step-Moves :
      (s : Shared) (op : Op)
      → Untouched s
      → Moves (held f s + count f (made_by (op ∷ []))) (step s op)
  unfolding step made_by
  step-Moves s (makes n) u = (ground (arith, length-keep-append f s.in_flight (n ∷ [])), u)
  step-Moves s takes_turn u = (ground (arith, count-rotate s.in_flight), u)
  step-Moves s adds u = let m = finish_new-Moves s.in_flight s refl u in (omega (arith, m.0), m.1)
  step-Moves s starts_close u = let m = start_close-Moves s u in (omega (arith, m.0), m.1)
  step-Moves s closes u = let m = close_next-Moves s.to_close s refl u in (omega (arith, m.0), m.1)

  count-made_by :
      (op : Op) (ops : List Op)
      → count f (made_by (op ∷ ops)) ≡ count f (made_by (op ∷ [])) + count f (made_by ops)
  unfolding made_by
  count-made_by (makes n) ops = ground arith
  count-made_by takes_turn ops = omega arith
  count-made_by adds ops = omega arith
  count-made_by starts_close ops = omega arith
  count-made_by closes ops = omega arith

  run-Moves :
      (ops : List Op) (s : Shared)
      → Untouched s
      → Moves (held f s + count f (made_by ops)) (run s ops)
  unfolding run
  run-Moves [] s u = (unfold made_by in omega arith, u)
  run-Moves (op ∷ ops) s u =
      let m = step-Moves s op u in
      let r = run-Moves ops (step s op) m.1 in (omega (arith, m.0, r.0, count-made_by op ops), r.1)

  -- In any history of calls that build nodes while the pool closes, no node is lost and none is closed
  -- twice: of each kind of nodes, as many were made as are in the hands of a call, are closed, or are held
  -- by the pool or by `Close`. A pool that is not closed has closed no node; and when `Close` and the calls
  -- are done, each node that was made is closed once.
  pub close_once :
      (id : ℕ) (ops : List Op)
      → let s = run (new_shared id) ops in
        (held f s ≡ count f (made_by ops))
        × (s.pool.closed ≡ false → s.pool.released ≡ [])
        × (s.pool.closed ≡ true
            → s.in_flight ≡ []
            → s.to_close ≡ []
            → count f s.pool.released ≡ count f (made_by ops))
  close_once id ops =
      let m = run-Moves ops (new_shared id) (λ _. (refl, refl)) in
      let s = run (new_shared id) ops in
      (omega (arith, m.0), λ up. (m.1 up).0, λ shut none_made none_left. ground (arith, m.0))
