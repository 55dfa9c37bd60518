-- ===== src/Conn/Nodes/Built.antt =====
-- The configurations that internal/conn/node_source.go builds, and what building leaves in the pool.
use gorums.Prelude.{ℕ, ◌+◌, ◌≡◌, Option, none, some, List, [], ◌∷◌, ap, subst}
use gorums.Conn.Config.{Node, SortFunc, by_id}
use gorums.Conn.Pool.{PoolError, Made, made, fails, Net, DialOptions, Pool}
use gorums.Conn.Pool.Distinct.{IsPoolState}
use gorums.Conn.Nodes.{
  NodeBuilder, new_node_builder, Building, add_all, configuration, build, new_config_map,
  new_config_list, number_from,
}
use gorums.Conn.Nodes.Known.{Grows, new_node_builder-Knows, no_nodes_yet}
use gorums.Conn.Nodes.Added.{Match, Steps, add_all-Steps}

-- What building leaves. The pool is in order and has lost no node. A configuration that is built has
-- in the order of the sort a node for each entry, which suits it.
abbrev pub Built :
    Net → DialOptions → SortFunc → List (ℕ × ℕ) → Pool → Pool × Made (List Node) → Type 0
Built net opts sort_func entries p (q, fails e) = IsPoolState net opts q × Grows p q
Built net opts sort_func entries p (q, made c) =
    IsPoolState net opts q
    × Grows p q
    × (ns : List Node) × (c ≡ sort_func by_id ns)
    × Match net q entries ns

abbrev pub numbered : Net → Pool → List ℕ → List (ℕ × ℕ)
numbered net p addrs = number_from ((new_node_builder net p none).max_id + 1) addrs

module _ (net : Net) (opts : DialOptions) (sort_func : SortFunc) where
  configuration-Built :
      (entries : List (ℕ × ℕ)) (p : Pool) (s : Building)
      → Steps net opts entries [] p s
      → Built net opts sort_func entries p (configuration sort_func s)
  unfolding configuration
  configuration-Built entries p s h = go s.builder s.pool s.err h
    where
      go :
          (b : NodeBuilder) (q : Pool) (o : Option PoolError)
          → Steps net opts entries [] p (record { builder = b; pool = q; err = o })
          → Built net opts sort_func entries p
              (configuration sort_func (record { builder = b; pool = q; err = o }))
      go b q (some e) (w, g, _) = (w, g)
      go b q none (w, g, (ns, e, m)) = (w, g, ns, ap (sort_func by_id) e, m)

  module _ (p : Pool) (v : IsPoolState net opts p) where
    build-Built :
        (verify : Option ℕ) (entries : List (ℕ × ℕ))
        → Built net opts sort_func entries p (build net opts sort_func verify entries p)
    unfolding build
    build-Built verify entries =
        configuration-Built entries p
          (add_all net opts entries
            (record { builder = new_node_builder net p verify; pool = p; err = none }))
          (subst
            (λ before. Steps net opts entries before p (
              add_all net opts entries
                (record { builder = new_node_builder net p verify; pool = p; err = none })))
            (no_nodes_yet net p verify)
            (add_all-Steps net opts entries (new_node_builder net p verify) p v
              (new_node_builder-Knows net opts p verify v)))

    new_config_map-Built :
        (verifier : Made (Option ℕ)) (nm : List (ℕ × ℕ))
        → Built net opts sort_func nm p (new_config_map net opts sort_func verifier nm p)
    unfolding new_config_map
    new_config_map-Built verifier [] = (v, λ i m h. h)
    new_config_map-Built (fails e) (n ∷ nm) = (v, λ i m h. h)
    new_config_map-Built (made verify) (n ∷ nm) = build-Built verify (n ∷ nm)

    new_config_list-Built :
        (addrs : List ℕ)
        → Built net opts sort_func
            (numbered net p addrs)
            p
            (new_config_list net opts sort_func addrs p)
    unfolding new_config_list
    new_config_list-Built [] = (v, λ i m h. h)
    new_config_list-Built (addr ∷ addrs) = build-Built none (numbered net p (addr ∷ addrs))

    -- A configuration that is built from a map or from a list has, in the order of the sort, one node
    -- for each entry: it has the entry's ID, where a list numbers its addresses upwards from the ID after
    -- the pool's highest, modulo 2^32; its address resolves as the entry's does; and the pool has it under
    -- its ID. Whether or not building succeeds, the pool loses no node; its nodes have different IDs, which
    -- are not 0, and different addresses; and each sends as its ID asks for: to the handler, on the stream
    -- of a known peer of its address, or on one that it dials, with the server's verifier for known peers.
    pub new_config_lem :
        (verifier : Made (Option ℕ)) (nm : List (ℕ × ℕ)) (addrs : List ℕ)
        → Built net opts sort_func nm p (new_config_map net opts sort_func verifier nm p)
          × Built net opts sort_func
              (numbered net p addrs)
              p
              (new_config_list net opts sort_func addrs p)
    new_config_lem verifier nm addrs =
        (new_config_map-Built verifier nm, new_config_list-Built addrs)
