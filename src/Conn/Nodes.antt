-- ===== src/Conn/Nodes.antt =====
-- internal/conn/node_source.go: how a configuration is built from a map or a list of addresses. A
-- map is the list of its entries in the order of their IDs, in which the code reads it.
pub mod Known
pub mod Added
pub mod Built
pub mod Complete
mod Tests
use gorums.Prelude.{
  ℕ, ◌+◌, ◌%◌, ◌^◌, Bool, true, false, Option, none, some, List, [], ◌∷◌, ◌++◌, if◌then◌else◌,
  nat_beq, max,
}
use gorums.Conn.Config.{Node, SortFunc, by_id}
use gorums.Conn.Pool.{
  Pool, PoolNode, PoolError, Made, made, fails, Net, DialOptions, comparable_addr, put, new_node,
  no_nodes, reserved_node, invalid_address, id_in_use, address_in_use,
}

pub record NodeBuilder : Type 0 where
  pub verify : Option ℕ
  pub addr_to_id : ℕ → Option ℕ
  pub id_to_node : ℕ → Option Node
  pub max_id : ℕ
  pub nodes : List Node

-- The loop of `newNodeBuilder`.
unfoldable pub populate : Net → List PoolNode → NodeBuilder → NodeBuilder
unfolding comparable_addr put
populate net [] b = b
populate net (n ∷ ns) b = populate net ns (record b {
  addr_to_id = put (comparable_addr net n.node.addr) n.node.id b.addr_to_id;
  id_to_node = put n.node.id n.node b.id_to_node;
  max_id = max b.max_id n.node.id;
})

unfoldable pub new_node_builder : Net → Pool → Option ℕ → NodeBuilder
unfolding populate
new_node_builder net p verify = populate net p.nodes (record {
  verify = verify;
  addr_to_id = λ _. none;
  id_to_node = λ _. none;
  max_id = 0;
  nodes = [];
})

-- What a call of `add` leaves: the builder, the registry, and the error.
pub record Building : Type 0 where
  pub builder : NodeBuilder
  pub pool : Pool
  pub err : Option PoolError

-- The end of `add`, with the result of `newNode`.
unfoldable pub append_new : NodeBuilder → Pool × Made PoolNode → Building
append_new b (p, made n) = record {
  builder = record b { nodes = b.nodes ++ n.node ∷ [] };
  pool = p;
  err = none;
}
append_new b (p, fails e) = record { builder = b; pool = p; err = some e }

-- `add`, where the address is resolved; the option is the node that has the ID.
unfoldable pub add_resolved :
    Net → DialOptions → ℕ → ℕ → ℕ → Option Node → NodeBuilder → Pool → Building
unfolding comparable_addr put new_node append_new
add_resolved net opts id addr resolved (some n) b p =
    if nat_beq (comparable_addr net n.addr) resolved
    then record { builder = record b { nodes = b.nodes ++ n ∷ [] }; pool = p; err = none }
    else record { builder = b; pool = p; err = some (id_in_use id n.addr) }
add_resolved net opts id addr resolved none b p = elim (b.addr_to_id resolved) [
  | some i ↦ record { builder = b; pool = p; err = some (address_in_use resolved i) }
  | none ↦
      append_new (record b { addr_to_id = put resolved id b.addr_to_id })
        (new_node net opts id addr b.verify p)
]

-- `add`
unfoldable pub add : Net → DialOptions → ℕ → ℕ → NodeBuilder → Pool → Building
unfolding add_resolved
add net opts id addr b p =
    if nat_beq id 0
    then record { builder = b; pool = p; err = some reserved_node }
    else elim (net.resolve addr) [
      | none ↦ record { builder = b; pool = p; err = some (invalid_address addr) }
      | some resolved ↦ add_resolved net opts id addr resolved (b.id_to_node id) b p
    ]

-- The loops of `newConfig`, which stop at an error.
unfoldable pub add_all : Net → DialOptions → List (ℕ × ℕ) → Building → Building
unfolding add
add_all net opts [] s = s
add_all net opts ((id, addr) ∷ entries) s = elim s.err [
  | some e ↦ s
  | none ↦ add_all net opts entries (add net opts id addr s.builder s.pool)
]

-- `configuration`, or the error.
unfoldable pub configuration : SortFunc → Building → Pool × Made (List Node)
configuration sort_func s =
    (s.pool, elim s.err [ none ↦ made (sort_func by_id s.builder.nodes) | some e ↦ fails e ])

unfoldable pub build :
    Net → DialOptions → SortFunc → Option ℕ → List (ℕ × ℕ) → Pool → Pool × Made (List Node)
unfolding new_node_builder add_all configuration
build net opts sort_func verify entries p = configuration sort_func (
    add_all net opts entries
      (record { builder = new_node_builder net p verify; pool = p; err = none }))

-- `nodeMap.newConfig`, with the result of `NewPeerVerifier` on the map.
unfoldable pub new_config_map :
    Net → DialOptions → SortFunc → Made (Option ℕ) → List (ℕ × ℕ) → Pool → Pool × Made (List Node)
unfolding build
new_config_map net opts sort_func verifier [] p = (p, fails no_nodes)
new_config_map net opts sort_func (fails e) (n ∷ nm) p = (p, fails e)
new_config_map net opts sort_func (made verify) (n ∷ nm) p =
    build net opts sort_func verify (n ∷ nm) p

-- IDs are of 32 bits.
unfoldable pub number_from : ℕ → List ℕ → List (ℕ × ℕ)
number_from next [] = []
number_from next (addr ∷ addrs) = (next % 2 ^ 32, addr) ∷ number_from (next + 1) addrs

-- `nodeList.newConfig`
unfoldable pub new_config_list :
    Net → DialOptions → SortFunc → List ℕ → Pool → Pool × Made (List Node)
unfolding new_node_builder number_from build
new_config_list net opts sort_func [] p = (p, fails no_nodes)
new_config_list net opts sort_func (addr ∷ addrs) p =
    build net opts sort_func none
      (number_from ((new_node_builder net p none).max_id + 1) (addr ∷ addrs)) p
