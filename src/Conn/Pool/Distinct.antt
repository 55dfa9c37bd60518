-- ===== src/Conn/Pool/Distinct.antt =====
-- The nodes of a pool of internal/conn/outbound_manager.go: how they differ, and what they send on.
use gorums.Prelude.{
  ℕ, ◌≡◌, refl, true, false, not, Option, none, some, List, [], ◌∷◌, ◌++◌, if◌then◌else◌, nat_beq,
  is_some, All, All-append, arith, if_case, if_both, Option-cases, inl, inr,
}
use gorums.Conn.Config.{Node}
use gorums.Conn.Pool.{
  Link, in_process, borrowed, dialed, PoolNode, Made, made, fails, dial_failed, Net,
  comparable_addr, Server, DialOptions, in_process_id, borrows_stream, known_peer_of, Pool,
  new_pool, put, add_node, link_node, verifier_for, check_node, new_node,
}

-- Two nodes have different IDs and different addresses.
abbrev pub Differ : Net → PoolNode → PoolNode → Type 0
Differ net n m =
    (nat_beq m.node.id n.node.id ≡ false)
    × (nat_beq (comparable_addr net m.node.addr) (comparable_addr net n.node.addr) ≡ false)

abbrev pub IsDistinct : Net → List PoolNode → Type 0
IsDistinct net [] = Unit
IsDistinct net (n ∷ ns) = All (λ m. Differ net m n) ns × IsDistinct net ns

abbrev pub find_id : ℕ → List PoolNode → Option PoolNode
find_id id [] = none
find_id id (n ∷ ns) = if nat_beq n.node.id id then some n else find_id id ns

-- A node of this server sends to the handler; one that borrows a stream is a known peer of that
-- address; any other dials, with the server's verifier if it is a known peer, and with a verifier
-- only if there are credentials.
abbrev pub IsLink : Net → DialOptions → Node → Link → Type 0
IsLink net opts n in_process = in_process_id opts n.id ≡ true
IsLink net opts n borrowed =
    (in_process_id opts n.id ≡ false)
    × (borrows_stream opts n.id ≡ true)
    × (a : ℕ) × (known_peer_of opts.inbound_manager n.id ≡ some a)
    × (nat_beq (comparable_addr net a) (comparable_addr net n.addr) ≡ true)
IsLink net opts n (dialed v) =
    (in_process_id opts n.id ≡ false)
    × (borrows_stream opts n.id ≡ false)
    × (verifier_for opts.inbound_manager (known_peer_of opts.inbound_manager n.id) v ≡ v)
    × (is_some v ≡ true → opts.credentials ≡ true)

abbrev pub IsPoolNode : Net → DialOptions → ℕ → PoolNode → Type 0
IsPoolNode net opts pool n =
    (nat_beq n.node.id 0 ≡ false) × (n.node.mgr ≡ some pool) × IsLink net opts n.node n.link

pub record IsPoolState (net : Net) (opts : DialOptions) (p : Pool) : Type 0 where
  pub distinct : IsDistinct net p.nodes
  pub found : (id : ℕ) → p.lookup id ≡ find_id id p.nodes
  pub each : All (IsPoolNode net opts p.id) p.nodes

find_id-append :
    (id : ℕ) (ns : List PoolNode) (n : PoolNode)
    → find_id n.node.id ns ≡ none
    → find_id id (ns ++ n ∷ []) ≡ put n.node.id n (λ i. find_id i ns) id
unfolding put
find_id-append id [] n h = refl
find_id-append id (m ∷ ns) n h = ground (arith, find_id-append id ns n)

IsDistinct-append :
    (net : Net) (ns : List PoolNode) (n : PoolNode)
    → IsDistinct net ns
    → All (λ m. Differ net n m) ns
    → IsDistinct net (ns ++ n ∷ [])
IsDistinct-append net [] n d f = (tt, tt)
IsDistinct-append net (m ∷ ns) n d f = (
  All-append (λ o. Differ net o m) ns (n ∷ []) d.0
      (((ground (arith, f.0.0), ground (arith, f.0.1)), tt)),
  IsDistinct-append net ns n d.1 f.1,
)

-- No node of the pool has the address.
abbrev pub Unused : Net → ℕ → List PoolNode → Type 0
Unused net addr ns =
    All (λ m. nat_beq (comparable_addr net m.node.addr) (comparable_addr net addr) ≡ false) ns

Unused-Differ :
    (net : Net) (n : PoolNode) (ns : List PoolNode)
    → find_id n.node.id ns ≡ none
    → Unused net n.node.addr ns
    → All (λ m. Differ net n m) ns
Unused-Differ net n [] absent free = tt
Unused-Differ net n (m ∷ ns) absent free =
    ((ground arith, free.0), Unused-Differ net n ns (ground arith) free.1)

-- What a call that makes a node with an ID and an address leaves.
abbrev pub Outcome : Net → DialOptions → Node → List PoolNode → Pool × Made PoolNode → Type 0
Outcome net opts n before (p, made m) =
    IsPoolState net opts p × (m.node ≡ n) × (p.nodes ≡ before ++ m ∷ []) × (p.lookup n.id ≡ some m)
Outcome net opts n before (p, fails e) = IsPoolState net opts p × (p.nodes ≡ before)

module _ (net : Net) (opts : DialOptions) where
  pub new-IsPoolState : (id : ℕ) → IsPoolState net opts (new_pool id)
  new-IsPoolState id = record { distinct = tt; found = λ i. refl; each = tt }

  pub add_node-Outcome :
      (n : PoolNode) (p : Pool)
      → IsPoolState net opts p
      → p.lookup n.node.id ≡ none
      → Unused net n.node.addr p.nodes
      → IsPoolNode net opts p.id n
      → Outcome net opts n.node p.nodes (add_node n p)
  unfolding add_node
  add_node-Outcome n p v absent free good =
      let gone : find_id n.node.id p.nodes ≡ none = ground (arith, v.found n.node.id) in
      if_both (Outcome net opts n.node p.nodes) p.closed _ _
        (record { distinct = v.distinct; found = v.found; each = v.each }, refl)
        (
          record {
            distinct =
                IsDistinct-append net p.nodes n v.distinct (Unused-Differ net n p.nodes gone free);
            found =
                λ id. unfold put in ground (arith, find_id-append id p.nodes n gone, v.found id);
            each = All-append (IsPoolNode net opts p.id) p.nodes (n ∷ []) v.each (good, tt);
          },
          refl,
          refl,
          unfold put in ground arith,
        )

  module _ (id addr : ℕ) where
    abbrev named : Pool → Node
    named p = record { id = id; addr = addr; mgr = some p.id }

    module _ (p : Pool) (v : IsPoolState net opts p) (absent : p.lookup id ≡ none)
        (free : Unused net addr p.nodes) (some_id : nat_beq id 0 ≡ false) where
      link_node-Outcome :
          (verify : Option ℕ)
          → verifier_for opts.inbound_manager (known_peer_of opts.inbound_manager id) verify
            ≡ verify
          → (is_some verify ≡ true → opts.credentials ≡ true)
          → Outcome net opts
              (named p)
              p.nodes
              (link_node net opts id addr (known_peer_of opts.inbound_manager id) verify p)
      unfolding link_node
      link_node-Outcome verify same needs =
          if_case (Outcome net opts (named p) p.nodes) (in_process_id opts id) _ _
            (λ own.
              add_node-Outcome (record { node = named p; link = in_process }) p v absent free
                (some_id, refl, own))
            (λ remote.
              if_case (Outcome net opts (named p) p.nodes) (borrows_stream opts id) _ _
                (λ borrows. elim (Option-cases (known_peer_of opts.inbound_manager id)) [
                  | inl unknown ↦ rw unknown (v, refl)
                  | inr (a, known) ↦ rw known (
                      if_case (Outcome net opts (named p) p.nodes)
                        (nat_beq (comparable_addr net a) (comparable_addr net addr)) _ _
                        (λ there.
                          add_node-Outcome (record { node = named p; link = borrowed }) p v absent
                            free (some_id, refl, (remote, borrows, a, known, there)))
                        (λ elsewhere. (v, refl)))
                ])
                (λ dials.
                  elim (net.dial addr)
                    as (λ e. Outcome net opts (named p) p.nodes (elim e [
                      | some e ↦ (p, fails (dial_failed id e))
                      | none ↦ add_node (record { node = named p; link = dialed verify }) p
                    ])) [
                      | some e ↦ (v, refl)
                      | none ↦
                          add_node-Outcome (record { node = named p; link = dialed verify }) p v
                            absent free (some_id, refl, (remote, dials, same, needs))
                    ]))

    check_node-Outcome :
        (p : Pool) (v : IsPoolState net opts p)
        → p.lookup id ≡ none
        → Unused net addr p.nodes
        → nat_beq id 0 ≡ false
        → (verify : Option ℕ)
        → verifier_for opts.inbound_manager (known_peer_of opts.inbound_manager id) verify ≡ verify
        → Outcome net opts
            (named p)
            p.nodes
            (check_node net opts id addr (known_peer_of opts.inbound_manager id) verify p)
    unfolding check_node
    check_node-Outcome p v absent free some_id none same =
        link_node-Outcome p v absent free some_id none same (λ h. cc)
    check_node-Outcome p v absent free some_id (some w) same =
        if_case (Outcome net opts (named p) p.nodes) (not opts.credentials) _ _ (λ lacks. (v, refl))
          (λ has.
            link_node-Outcome (record p { verifies = true })
              (record { distinct = v.distinct; found = v.found; each = v.each }) absent free some_id
              (some w) same (λ _. ground arith))

  verifier-again :
      (im : Option Server) (peer verify : Option ℕ)
      → verifier_for im peer (verifier_for im peer verify) ≡ verifier_for im peer verify
  unfolding verifier_for
  verifier-again none peer verify = refl
  verifier-again (some im) none verify = refl
  verifier-again (some im) (some a) verify = refl

  -- A new node joins the pool under an ID that the pool did not have, or the pool keeps its nodes.
  pub new_node-Outcome :
      (id addr : ℕ) (verify : Option ℕ) (p : Pool)
      → IsPoolState net opts p
      → Unused net addr p.nodes
      → nat_beq id 0 ≡ false
      → Outcome net opts (named id addr p) p.nodes (new_node net opts id addr verify p)
  unfolding new_node
  new_node-Outcome id addr verify p v free some_id =
      if_case (Outcome net opts (named id addr p) p.nodes) (is_some (p.lookup id)) _ _
        (λ there. (v, refl))
        (λ absent.
          check_node-Outcome id addr p v (ground arith) free some_id
            (verifier_for opts.inbound_manager (known_peer_of opts.inbound_manager id) verify)
            (verifier-again opts.inbound_manager (known_peer_of opts.inbound_manager id) verify))
