-- ===== src/Conn/Inbound/Assigned.antt =====
-- Histories of the registry of internal/conn/inbound_manager.go.
use gorums.Prelude.{
  ℕ, suc, ◌≤◌, ◌≡◌, refl, sym, ap, subst, ◌∙◌, false, Option, none, some, List, [], ◌∷◌, ◌++◌,
  nat_beq, is_some, arith, Bool-cases, Option-cases, inl, inr,
}
use gorums.Conn.Streams.{Streams, attach, detach, no_streams}
use gorums.Conn.Inbound.{
  InboundManager, max_node_id, find, assign, next_available_client_id, accept_client, Views,
  leave_client, register_peer, leave_peer, set_peer_config, rebuild_config, on_stream_change,
}
use gorums.Conn.Inbound.ClientIds.{Found, next_available_client_id_lem}

pub data Op : Type 0 where
  accepts : ℕ → Op
  leaves registers unregisters : ℕ → ℕ → Op
  configures : List ℕ → Op
  stream_changes : Op

unfoldable pub step : Views → InboundManager → Op → InboundManager
step w im (accepts ch) = (accept_client w ch im).0
step w im (leaves id ch) = leave_client w id ch im
step w im (registers id ch) = register_peer w id ch im
step w im (unregisters id ch) = leave_peer w id ch im
step w im (configures ids) = set_peer_config w ids im
step w im stream_changes = on_stream_change w im

abbrev pub one : Option ℕ → List ℕ
one none = []
one (some id) = id ∷ []

-- The IDs that the operations give to clients, in order.
unfoldable pub assigned : Views → InboundManager → List Op → List ℕ
assigned w im [] = []
assigned w im (accepts ch ∷ ops) =
    one (accept_client w ch im).1 ++ assigned w (step w im (accepts ch)) ops
assigned w im (leaves id ch ∷ ops) = assigned w (step w im (leaves id ch)) ops
assigned w im (registers id ch ∷ ops) = assigned w (step w im (registers id ch)) ops
assigned w im (unregisters id ch ∷ ops) = assigned w (step w im (unregisters id ch)) ops
assigned w im (configures ids ∷ ops) = assigned w (step w im (configures ids)) ops
assigned w im (stream_changes ∷ ops) = assigned w (step w im stream_changes) ops

-- Each ID is at least the bound and above the one before, within 32 bits, and of no known peer.
abbrev pub AscendFrom : InboundManager → ℕ → List ℕ → Type 0
AscendFrom im bound [] = Unit
AscendFrom im bound (id ∷ ids) =
    (bound ≤ id)
    × (id ≤ max_node_id)
    × (is_some (find id im.known_nodes) ≡ false)
    × AscendFrom im (suc id) ids

find-assign_known :
    (i id : ℕ) (s t : Streams) (nodes : List (ℕ × Streams))
    → find id nodes ≡ some t
    → is_some (find i (assign id s nodes)) ≡ is_some (find i nodes)
unfolding find assign
find-assign_known i id s t [] e = cc
find-assign_known i id s t ((k, u) ∷ nodes) e = elim (Bool-cases (nat_beq k id)) [
  | inl here ↦ ground (arith, here)
  | inr there ↦ ground (arith, there, find-assign_known i id s t nodes)
]

-- What an operation leaves as it is: the IDs of the known peers, and the next candidate.
abbrev pub Keeps : InboundManager → InboundManager → Type 0
Keeps im im' =
    ((i : ℕ) → is_some (find i im'.known_nodes) ≡ is_some (find i im.known_nodes))
    × (im'.next_client_id ≡ im.next_client_id)

module _ (w : Views) where
  leave_client-Keeps : (id ch : ℕ) (im : InboundManager) → Keeps im (leave_client w id ch im)
  unfolding leave_client rebuild_config
  leave_client-Keeps id ch im = elim (Option-cases (find id im.client_nodes)) [
    | inl absent ↦ rw (leave_client, absent) (λ i. refl, refl)
    | inr (s, e) ↦ elim (Bool-cases (detach ch s).1) [
      | inl gone ↦ rw (leave_client, e, gone) (λ i. refl, refl)
      | inr stays ↦ rw (leave_client, e, stays) (λ i. refl, refl)
    ]
  ]

  register_peer-Keeps : (id ch : ℕ) (im : InboundManager) → Keeps im (register_peer w id ch im)
  unfolding register_peer rebuild_config
  register_peer-Keeps id ch im = elim (Option-cases (find id im.known_nodes)) [
    | inl absent ↦ rw (register_peer, absent) (λ i. refl, refl)
    | inr (s, e) ↦
        rw (register_peer, e) (λ i. find-assign_known i id (attach ch s) s im.known_nodes e, refl)
  ]

  leave_peer-Keeps : (id ch : ℕ) (im : InboundManager) → Keeps im (leave_peer w id ch im)
  unfolding leave_peer rebuild_config
  leave_peer-Keeps id ch im = elim (Option-cases (find id im.known_nodes)) [
    | inl absent ↦ rw (leave_peer, absent) (λ i. refl, refl)
    | inr (s, e) ↦ elim (Bool-cases (detach ch s).1) [
      | inl gone ↦
          rw (leave_peer, e, gone)
            (λ i. find-assign_known i id (detach ch s).0 s im.known_nodes e, refl)
      | inr stays ↦
          rw (leave_peer, e, stays)
            (λ i. find-assign_known i id (detach ch s).0 s im.known_nodes e, refl)
    ]
  ]

  AscendFrom-Keeps :
      (im im' : InboundManager) (bound : ℕ) (ids : List ℕ)
      → ((i : ℕ) → is_some (find i im'.known_nodes) ≡ is_some (find i im.known_nodes))
      → AscendFrom im' bound ids
      → AscendFrom im bound ids
  AscendFrom-Keeps im im' bound [] k a = tt
  AscendFrom-Keeps im im' bound (id ∷ ids) k (a, b, c, d) =
      (a, b, sym (k id) ∙ c, AscendFrom-Keeps im im' (suc id) ids k d)

  AscendFrom-weaken :
      (im : InboundManager) (low bound : ℕ) (ids : List ℕ)
      → low ≤ bound
      → AscendFrom im bound ids
      → AscendFrom im low ids
  AscendFrom-weaken im low bound [] h a = tt
  AscendFrom-weaken im low bound (id ∷ ids) h (a, b, c, d) = (omega arith, b, c, d)

  other :
      (im im' : InboundManager) (ids : List ℕ)
      → Keeps im im'
      → AscendFrom im' im'.next_client_id ids
      → AscendFrom im im.next_client_id ids
  other im im' ids (k, e) a =
      AscendFrom-Keeps im im' im.next_client_id ids k (subst (λ n. AscendFrom im' n ids) e a)

  next_available-keeps :
      (im : InboundManager) → (next_available_client_id im).0.known_nodes ≡ im.known_nodes
  unfolding next_available_client_id
  next_available-keeps im = refl

  abbrev Accepted : InboundManager → InboundManager × Option ℕ → Type 0
  Accepted im (im', none) =
      ((i : ℕ) → is_some (find i im'.known_nodes) ≡ is_some (find i im.known_nodes))
      × (im'.next_client_id ≡ suc max_node_id)
  Accepted im (im', some id) =
      ((i : ℕ) → is_some (find i im'.known_nodes) ≡ is_some (find i im.known_nodes))
      × (im.next_client_id ≤ id)
      × (id ≤ max_node_id)
      × (is_some (find id im.known_nodes) ≡ false)
      × (im'.next_client_id ≡ suc id)

  accept_client-Accepted :
      (ch : ℕ) (im : InboundManager)
      → im.next_client_id ≤ suc max_node_id
      → Accepted im (accept_client w ch im)
  unfolding accept_client rebuild_config
  accept_client-Accepted ch im h =
      go (next_available_client_id im) (next_available-keeps im) (next_available_client_id_lem im h)
    where
      go :
          (t : InboundManager × Option ℕ)
          → t.0.known_nodes ≡ im.known_nodes
          → Found im im.next_client_id (t.1, t.0.next_client_id)
          → Accepted im (elim t.1 [
            | none ↦ (t.0, none)
            | some i ↦ (
              rebuild_config w
                  (record t.0 { client_nodes = assign i (attach ch no_streams) t.0.client_nodes }),
              some i,
            )
          ])
      go (im', none) k (_, e) = (λ i. ap (λ l. is_some (find i l)) k, e)
      go (im', some id) k (a, b, c, d, e) =
          (λ i. ap (λ l. is_some (find i l)) k, a, b, ground arith, e)

  Accepted-bound :
      (im : InboundManager) (t : InboundManager × Option ℕ)
      → Accepted im t
      → t.0.next_client_id ≤ suc max_node_id
  Accepted-bound im (im', none) (k, e) = omega (arith, e)
  Accepted-bound im (im', some id) (k, a, b, c, e) = omega (arith, e)

  grown :
      (im : InboundManager) (t : InboundManager × Option ℕ) (ids : List ℕ)
      → Accepted im t
      → AscendFrom t.0 t.0.next_client_id ids
      → im.next_client_id ≤ suc max_node_id
      → AscendFrom im im.next_client_id (one t.1 ++ ids)
  grown im (im', none) ids (k, e) v h =
      AscendFrom-Keeps im im' im.next_client_id ids k
        (AscendFrom-weaken im' im.next_client_id im'.next_client_id ids (omega (arith, e)) v)
  grown im (im', some id) ids (k, a, b, c, e) v h =
      (a, b, c, AscendFrom-Keeps im im' (suc id) ids k (subst (λ n. AscendFrom im' n ids) e v))

  -- In any history of the registry, the IDs given to clients ascend from the first candidate, so
  -- that none is given twice, fit 32 bits, and are never the ID of a known peer.
  pub assigned-AscendFrom :
      (im : InboundManager) (ops : List Op)
      → im.next_client_id ≤ suc max_node_id
      → AscendFrom im im.next_client_id (assigned w im ops)
  unfolding assigned step set_peer_config rebuild_config
  assigned-AscendFrom im [] h = tt
  assigned-AscendFrom im (accepts ch ∷ ops) h =
      let t = accept_client-Accepted ch im h in
      grown im (accept_client w ch im) (assigned w (accept_client w ch im).0 ops) t
        (assigned-AscendFrom (accept_client w ch im).0 ops
          (Accepted-bound im (accept_client w ch im) t))
        h
  assigned-AscendFrom im (leaves id ch ∷ ops) h =
      other im (leave_client w id ch im) (assigned w (leave_client w id ch im) ops)
        (leave_client-Keeps id ch im)
        (assigned-AscendFrom (leave_client w id ch im) ops
          (omega (arith, (leave_client-Keeps id ch im).1)))
  assigned-AscendFrom im (registers id ch ∷ ops) h =
      other im (register_peer w id ch im) (assigned w (register_peer w id ch im) ops)
        (register_peer-Keeps id ch im)
        (assigned-AscendFrom (register_peer w id ch im) ops
          (omega (arith, (register_peer-Keeps id ch im).1)))
  assigned-AscendFrom im (unregisters id ch ∷ ops) h =
      other im (leave_peer w id ch im) (assigned w (leave_peer w id ch im) ops)
        (leave_peer-Keeps id ch im)
        (assigned-AscendFrom (leave_peer w id ch im) ops
          (omega (arith, (leave_peer-Keeps id ch im).1)))
  assigned-AscendFrom im (configures ids ∷ ops) h =
      other im (set_peer_config w ids im) (assigned w (set_peer_config w ids im) ops)
        (λ i. refl, refl) (assigned-AscendFrom (set_peer_config w ids im) ops h)
  assigned-AscendFrom im (stream_changes ∷ ops) h =
      other im (on_stream_change w im) (assigned w (on_stream_change w im) ops) (λ i. refl, refl)
        (assigned-AscendFrom (on_stream_change w im) ops h)
