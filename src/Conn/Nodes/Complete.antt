-- ===== src/Conn/Nodes/Complete.antt =====
-- When a client's configuration is built by internal/conn/node_source.go.
use gorums.Prelude.{
  ℕ, ◌≡◌, refl, true, false, none, some, List, [], ◌∷◌, nat_beq, is_some, All, arith, ap, sym,
  subst, ◌∙◌, if_case, Option-cases, inl, inr,
}
use gorums.Conn.Config.{Node, SortFunc, by_id}
use gorums.Conn.Pool.{
  PoolNode, Made, made, fails, Net, DialOptions, comparable_addr, Pool, new_pool, put, add_node,
  link_node, new_node, dialed, check_node, in_process, in_process_id, borrows_stream, known_peer_of,
  verifier_for,
}
use gorums.Conn.Nodes.{
  NodeBuilder, populate, new_node_builder, Building, append_new, add_resolved, add, add_all,
  configuration, build, new_config_map,
}

-- A node joined a pool that is up, under an ID.
abbrev Joins : ℕ → Pool → Pool × Made PoolNode → Type 0
Joins id p (q, fails e) = true ≡ false
Joins id p (q, made m) = (q.closed ≡ false) × ((i : ℕ) → q.lookup i ≡ put id m p.lookup i)

module _ (net : Net) where
  -- The entry's ID is not 0, its address resolves, and gRPC takes it.
  abbrev pub IsSound : ℕ × ℕ → Type 0
  IsSound (id, addr) =
      (nat_beq id 0 ≡ false) × (is_some (net.resolve addr) ≡ true) × (net.dial addr ≡ none)

  -- Two entries have different IDs and addresses.
  abbrev pub Apart : ℕ × ℕ → ℕ × ℕ → Type 0
  Apart (id, addr) (j, other) =
      (nat_beq id j ≡ false)
      × (nat_beq (comparable_addr net addr) (comparable_addr net other) ≡ false)

  -- The entries are sound and stand apart.
  abbrev pub AreSound : List (ℕ × ℕ) → Type 0
  AreSound [] = Unit
  AreSound (e ∷ entries) = IsSound e × All (Apart e) entries × AreSound entries

module _ (net : Net) (opts : DialOptions) (client : opts.inbound_manager ≡ none) where
  add_node-Joins : (n : PoolNode) (p : Pool) → p.closed ≡ false → Joins n.node.id p (add_node n p)
  unfolding add_node
  add_node-Joins n p up =
      if_case (Joins n.node.id p) p.closed _ _ (λ shut. ground arith) (λ _. (up, λ i. refl))

  link_node-Joins :
      (id addr : ℕ) (p : Pool)
      → p.closed ≡ false
      → net.dial addr ≡ none
      → Joins id p (link_node net opts id addr none none p)
  unfolding link_node
  link_node-Joins id addr p up dials =
      let n : Node = record { id = id; addr = addr; mgr = some p.id } in
      if_case (Joins id p) (in_process_id opts id) _ _
        (λ own. add_node-Joins (record { node = n; link = in_process }) p up)
        (λ remote.
          if_case (Joins id p) (borrows_stream opts id) _ _
            (λ borrows. unfold borrows_stream in ground arith)
            (λ _. rw dials (add_node-Joins (record { node = n; link = dialed none }) p up)))

  no_peer : (id : ℕ) → known_peer_of opts.inbound_manager id ≡ none
  unfolding known_peer_of
  no_peer id = rw client

  no_verifier :
      (id : ℕ)
      → verifier_for opts.inbound_manager (known_peer_of opts.inbound_manager id) none ≡ none
  unfolding verifier_for
  no_verifier id = rw client

  new_node-Joins :
      (id addr : ℕ) (p : Pool)
      → p.closed ≡ false
      → p.lookup id ≡ none
      → net.dial addr ≡ none
      → Joins id p (new_node net opts id addr none p)
  unfolding new_node check_node
  new_node-Joins id addr p up absent dials =
      rw (absent, no_verifier id, no_peer id) (link_node-Joins id addr p up dials)

  -- What an entry that is added leaves.
  abbrev Went : ℕ → ℕ → NodeBuilder → Pool → Building → Type 0
  Went id addr b p s =
      (s.err ≡ none)
      × (s.builder.verify ≡ none)
      × ((i : ℕ) → s.builder.id_to_node i ≡ b.id_to_node i)
      × ((i : ℕ) → s.builder.addr_to_id i ≡ put (comparable_addr net addr) id b.addr_to_id i)
      × (s.pool.closed ≡ false)
      × (m : PoolNode) × ((i : ℕ) → s.pool.lookup i ≡ put id m p.lookup i)

  append_new-Went :
      (id addr : ℕ) (b : NodeBuilder) (p : Pool) (r : Pool × Made PoolNode)
      → b.verify ≡ none
      → Joins id p r
      → Went id addr b p
          (append_new (record b { addr_to_id = put (comparable_addr net addr) id b.addr_to_id }) r)
  unfolding append_new
  append_new-Went id addr b p (q, fails e) plain bad = absurd cc
  append_new-Went id addr b p (q, made m) plain (up, joined) =
      (refl, plain, (λ i. refl), (λ i. refl), up, m, joined)

  -- The entry can be added: neither its ID nor its address is in use.
  abbrev Free : NodeBuilder → Pool → ℕ × ℕ → Type 0
  Free b p (id, addr) =
      (b.id_to_node id ≡ none)
      × (b.addr_to_id (comparable_addr net addr) ≡ none)
      × (p.lookup id ≡ none)

  add_resolved-Went :
      (id addr r : ℕ) (b : NodeBuilder) (p : Pool)
      → b.verify ≡ none
      → p.closed ≡ false
      → IsSound net (id, addr)
      → Free b p (id, addr)
      → comparable_addr net addr ≡ r
      → Went id addr b p (add_resolved net opts id addr r none b p)
  unfolding add_resolved
  add_resolved-Went id addr r b p plain up sound free lies =
      let unused : b.addr_to_id r ≡ none = ap b.addr_to_id (sym lies) ∙ free.1 in
      rw (unused, add_resolved)
        (subst
          (λ a. Went id addr b p (
            append_new (record b { addr_to_id = put a id b.addr_to_id })
              (new_node net opts id addr b.verify p)))
          lies
          (append_new-Went id addr b p (new_node net opts id addr b.verify p) plain
            (rw plain (new_node-Joins id addr p up free.2 sound.2))))

  add-Went :
      (id addr : ℕ) (b : NodeBuilder) (p : Pool)
      → b.verify ≡ none
      → p.closed ≡ false
      → IsSound net (id, addr)
      → Free b p (id, addr)
      → Went id addr b p (add net opts id addr b p)
  unfolding add
  add-Went id addr b p plain up sound free = elim (Option-cases (net.resolve addr)) [
    | inl bad ↦ absurd (ground arith)
    | inr (r, to) ↦
        rw (sound.0, to, free.0)
          (add_resolved-Went id addr r b p plain up sound free (rw (to, comparable_addr) refl))
  ]

  add-Free :
      (id addr : ℕ) (b : NodeBuilder) (p : Pool) (s : Building)
      → Went id addr b p s
      → (entries : List (ℕ × ℕ)) → All (Apart net (id, addr)) entries
      → All (Free b p) entries
      → All (Free s.builder s.pool) entries
  unfolding put
  add-Free id addr b p s w [] apart free = tt
  add-Free id addr b p s w ((j, other) ∷ entries) apart free = (
    (
      w.2 j ∙ free.0.0,
      ground (arith, w.3 (comparable_addr net other), apart.0.1, free.0.1),
      ground (arith, w.6 j, apart.0.0, free.0.2),
    ),
    add-Free id addr b p s w entries apart.1 free.1,
  )

  add_all_succeeds :
      (entries : List (ℕ × ℕ)) (s : Building)
      → s.err ≡ none
      → s.builder.verify ≡ none
      → s.pool.closed ≡ false
      → AreSound net entries
      → All (Free s.builder s.pool) entries
      → (add_all net opts entries s).err ≡ none
  unfolding add_all
  add_all_succeeds [] s ok plain up sound free = ok
  add_all_succeeds ((id, addr) ∷ entries) s ok plain up sound free =
      let w = add-Went id addr s.builder s.pool plain up sound.0 free.0 in
      let next = add net opts id addr s.builder s.pool in
      rw ok (
        add_all_succeeds entries next w.0 w.1 w.4 sound.2
          (add-Free id addr s.builder s.pool next w entries sound.1 free.1))

  new_pool-Free :
      (k : ℕ) (entries : List (ℕ × ℕ))
      → All (Free (new_node_builder net (new_pool k) none) (new_pool k)) entries
  unfolding new_node_builder populate
  new_pool-Free k [] = tt
  new_pool-Free k (e ∷ entries) = ((refl, refl, refl), new_pool-Free k entries)

  -- On a new pool of a client, building from a map of nodes without identities that is not empty
  -- succeeds if no ID is 0 or stands twice, each address resolves and is taken by gRPC, and no two
  -- addresses resolve to the same.
  pub new_config_map_complete :
      (sort_func : SortFunc) (k : ℕ) (e : ℕ × ℕ) (nm : List (ℕ × ℕ))
      → AreSound net (e ∷ nm)
      → (c : List Node) × ((new_config_map net opts sort_func (made none) (e ∷ nm) (new_pool k)).1
          ≡ made c)
  unfolding new_config_map build configuration new_node_builder populate
  new_config_map_complete sort_func k e nm sound =
      let s : Building = record {
        builder = new_node_builder net (new_pool k) none;
        pool = new_pool k;
        err = none;
      } in
      let done = add_all_succeeds (e ∷ nm) s refl refl refl sound (new_pool-Free k (e ∷ nm)) in
      (sort_func by_id (add_all net opts (e ∷ nm) s).builder.nodes, rw done refl)
