-- ===== src/Conn/Opening/Releases.antt =====
-- What NewConfig of internal/conn/config.go does with the nodes of a configuration that it cannot build.
use gorums.Prelude.{
  ℕ, ◌≡◌, refl, true, false, not, Option, none, some, List, [], ◌∷◌, ◌++◌, if◌then◌else◌, nat_beq,
  is_some, arith, ap, ◌∙◌, if_both, if_case, Option-cases, inl, inr,
}
use gorums.Errors.{Error}
use gorums.Conn.Config.{Node, SortFunc}
use gorums.Conn.Pool.{
  PoolNode, Made, made, fails, not_a_peer, wrong_address, Net, comparable_addr, DialOptions,
  in_process_id, borrows_stream, in_process, borrowed, dialed, dial_failed, known_peer_of, Pool,
  new_pool, add_node, link_node, check_node, new_node,
}
use gorums.Conn.Nodes.{
  NodeBuilder, new_node_builder, Building, append_new, add_resolved, add, add_all, configuration,
  build, new_config_map, new_config_list,
}
use gorums.Conn.Nodes.Built.{numbered}
use gorums.Conn.Opening.{
  Source, of_map, of_list, Opened, opened, failed, build_source, close_pool, close_on_error,
  new_config,
}
use gorums.Conn.Opening.Extends.{entries_of, Opens, new_config-Opens}

-- The pool is open, and no more of its nodes are closed.
abbrev StaysOpen : Pool → Pool → Type 0
StaysOpen p q = (q.closed ≡ false) × (q.released ≡ p.released)

module _ (net : Net) (opts : DialOptions) where
  module _ (p : Pool) (up : p.closed ≡ false) where
    abbrev After : Pool × Made PoolNode → Type 0
    After r = StaysOpen p r.0

    add_node-StaysOpen : (n : PoolNode) → After (add_node n p)
    unfolding add_node
    add_node-StaysOpen n =
        if_case After p.closed _ _ (λ shut. absurd (ground arith)) (λ _. (up, refl))

    link_node-StaysOpen :
        (id addr : ℕ) (peer verify : Option ℕ) → After (link_node net opts id addr peer verify p)
    unfolding link_node
    link_node-StaysOpen id addr peer verify =
        let n : Node = record { id = id; addr = addr; mgr = some p.id } in
        if_both After (in_process_id opts id) _ _
          (add_node-StaysOpen (record { node = n; link = in_process }))
          (if_both After (borrows_stream opts id) _ _ (by_peer peer) (by_dial (net.dial addr)))
      where
        by_peer :
            (peer : Option ℕ)
            → After (elim peer as (λ _. Pool × Made PoolNode) [
              | none ↦ (p, fails (not_a_peer id))
              | some peer_addr ↦
                  if nat_beq (comparable_addr net peer_addr) (comparable_addr net addr)
                  then add_node
                      (record {
                        node = record { id = id; addr = addr; mgr = some p.id };
                        link = borrowed;
                      })
                      p
                  else (p, fails (wrong_address id peer_addr))
            ])
        by_peer none = (up, refl)
        by_peer (some a) =
            if_both After (nat_beq (comparable_addr net a) (comparable_addr net addr)) _ _
              (add_node-StaysOpen _) (up, refl)

        by_dial :
            (e : Option Error)
            → After (elim e as (λ _. Pool × Made PoolNode) [
              | some e ↦ (p, fails (dial_failed id e))
              | none ↦
                  add_node
                    (record {
                      node = record { id = id; addr = addr; mgr = some p.id };
                      link = dialed verify;
                    })
                    p
            ])
        by_dial none = add_node-StaysOpen _
        by_dial (some e) = (up, refl)

  check_node-StaysOpen :
      (p : Pool)
      → p.closed ≡ false
      → (id addr : ℕ) (peer verify : Option ℕ)
      → StaysOpen p (check_node net opts id addr peer verify p).0
  unfolding check_node
  check_node-StaysOpen p up id addr peer none = link_node-StaysOpen p up id addr peer none
  check_node-StaysOpen p up id addr peer (some v) =
      if_both (λ (r : Pool × Made PoolNode). StaysOpen p r.0) (not opts.credentials) _ _ (up, refl)
        (link_node-StaysOpen (record p { verifies = true }) up id addr peer (some v))

  new_node-StaysOpen :
      (p : Pool)
      → p.closed ≡ false
      → (id addr : ℕ) (verify : Option ℕ) → StaysOpen p (new_node net opts id addr verify p).0
  unfolding new_node
  new_node-StaysOpen p up id addr verify =
      if_both (λ (r : Pool × Made PoolNode). StaysOpen p r.0) (is_some (p.lookup id)) _ _ (up, refl)
        (check_node-StaysOpen p up id addr (known_peer_of opts.inbound_manager id) _)

  append_new-StaysOpen :
      (p : Pool) (b : NodeBuilder) (r : Pool × Made PoolNode)
      → StaysOpen p r.0
      → StaysOpen p (append_new b r).pool
  unfolding append_new
  append_new-StaysOpen p b (q, made m) h = h
  append_new-StaysOpen p b (q, fails e) h = h

  add_resolved-StaysOpen :
      (p : Pool)
      → p.closed ≡ false
      → (id addr resolved : ℕ) (o : Option Node) (b : NodeBuilder)
      → StaysOpen p (add_resolved net opts id addr resolved o b p).pool
  unfolding add_resolved
  add_resolved-StaysOpen p up id addr resolved (some n) b =
      if_both (λ (s : Building). StaysOpen p s.pool) (nat_beq (comparable_addr net n.addr) resolved)
        _ _ (up, refl) (up, refl)
  add_resolved-StaysOpen p up id addr resolved none b =
      elim (Option-cases (b.addr_to_id resolved)) [
        | inr (i, taken) ↦ rw (taken, add_resolved) (up, refl)
        | inl free ↦
            rw (free, add_resolved)
              (append_new-StaysOpen p _ _ (new_node-StaysOpen p up id addr b.verify))
      ]

  add-StaysOpen :
      (p : Pool)
      → p.closed ≡ false
      → (id addr : ℕ) (b : NodeBuilder) → StaysOpen p (add net opts id addr b p).pool
  unfolding add
  add-StaysOpen p up id addr b =
      if_both (λ (s : Building). StaysOpen p s.pool) (nat_beq id 0) _ _ (up, refl)
        (elim (Option-cases (net.resolve addr)) [
          | inl bad ↦ rw bad (up, refl)
          | inr (r, to) ↦ rw to (add_resolved-StaysOpen p up id addr r (b.id_to_node id) b)
        ])

  add_all-StaysOpen :
      (p : Pool) (entries : List (ℕ × ℕ)) (s : Building)
      → StaysOpen p s.pool
      → StaysOpen p (add_all net opts entries s).pool
  unfolding add_all
  add_all-StaysOpen p [] s h = h
  add_all-StaysOpen p ((id, addr) ∷ entries) s h = elim (Option-cases s.err) [
    | inr (e, stopped) ↦ rw (stopped, add_all) h
    | inl ok ↦
        let next = add-StaysOpen s.pool h.0 id addr s.builder in
        rw (ok, add_all)
          (add_all-StaysOpen p entries (add net opts id addr s.builder s.pool)
            (next.0, next.1 ∙ h.1))
  ]

  module _ (sort_func : SortFunc) (p : Pool) (up : p.closed ≡ false) where
    build-StaysOpen :
        (verify : Option ℕ) (entries : List (ℕ × ℕ))
        → StaysOpen p (build net opts sort_func verify entries p).0
    unfolding build configuration
    build-StaysOpen verify entries =
        add_all-StaysOpen p entries
          (record { builder = new_node_builder net p verify; pool = p; err = none }) (up, refl)

    build_source-StaysOpen :
        (source : Source) → StaysOpen p (build_source net opts sort_func source p).0
    unfolding build_source new_config_map new_config_list
    build_source-StaysOpen (of_map verifier declares []) = (up, refl)
    build_source-StaysOpen (of_map (fails e) declares (n ∷ nm)) = (up, refl)
    build_source-StaysOpen (of_map (made v) declares (n ∷ nm)) = build-StaysOpen v (n ∷ nm)
    build_source-StaysOpen (of_list []) = (up, refl)
    build_source-StaysOpen (of_list (addr ∷ addrs)) =
        build-StaysOpen none (numbered net p (addr ∷ addrs))

-- The pool after NewConfig: open, or closed with each of its nodes.
abbrev pub Settled : Pool × Opened → Type 0
Settled (q, opened c) = (q.closed ≡ false) × (q.released ≡ [])
Settled (q, failed e) = (q.closed ≡ true) × (q.released ≡ q.nodes)

close_on_error-Settled :
    (id : ℕ) (b : Pool × Made (List Node))
    → StaysOpen (new_pool id) b.0
    → Settled (close_on_error b)
unfolding close_on_error close_pool
close_on_error-Settled id (q, made c) h = h
close_on_error-Settled id (q, fails e) h =
    if_case (λ (r : Pool). (r.closed ≡ true) × (r.released ≡ r.nodes)) q.closed _ _
      (λ shut. absurd (ground (arith, h.0))) (λ _. (refl, ap (λ ns. ns ++ q.nodes) h.1))

-- NewConfig by a source returns a configuration on an open pool that has closed no node, with a node for
-- each entry of the source, which suits it, in the order of the sort; or it fails, and then the pool is
-- closed and each node that was built for it is closed, once.
pub open_lem :
    (net : Net) (opts : DialOptions) (sort_func : SortFunc) (source : Source) (id : ℕ)
    → Settled (new_config net opts sort_func (some source) id)
      × Opens net opts sort_func
          (entries_of net (new_pool id) (some source))
          (new_config net opts sort_func (some source) id)
unfolding new_config
open_lem net opts sort_func source id = (
  close_on_error-Settled id (build_source net opts sort_func source (new_pool id))
      (build_source-StaysOpen net opts sort_func (new_pool id) refl source),
  new_config-Opens net opts sort_func source id,
)
