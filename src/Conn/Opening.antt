-- ===== src/Conn/Opening.antt =====
-- internal/conn/config.go: NewConfig and Extend, which build a configuration on a pool. Options that
-- record a misuse are left out, as is the close function that NewConfig returns.
pub mod Extends
pub mod Releases
use gorums.Prelude.{
  ℕ, Bool, true, false, not, Option, none, some, List, [], ◌∷◌, ◌++◌, if◌then◌else◌,
}
use gorums.Prelude.Go.{Go, returns, panics, ◌>>=◌}
use gorums.Conn.Config.{Node, Pools, SortFunc, union}
use gorums.Conn.Pool.{
  PoolNode, PoolError, Made, made, fails, Net, DialOptions, Pool, new_pool, pool_closed, no_nodes,
}
use gorums.Conn.Nodes.{new_config_map, new_config_list}

-- A node source: a map, with the result of `NewPeerVerifier` on it and whether a node declares an
-- identity, or a list of addresses.
pub data Source : Type 0 where
  of_map : Made (Option ℕ) → Bool → List (ℕ × ℕ) → Source
  of_list : List ℕ → Source

abbrev pub declares_identity : Source → Bool
declares_identity (of_map verifier declares nm) = declares
declares_identity (of_list addrs) = false

pub data OpenError : Type 0 where
  missing_source empty_configuration lacks_identities has_identities : OpenError
  building : PoolError → OpenError

pub data Opened : Type 0 where
  opened : List Node → Opened
  failed : OpenError → Opened

unfoldable pub build_source : Net → DialOptions → SortFunc → Source → Pool → Pool × Made (List Node)
unfolding new_config_map new_config_list
build_source net opts sort_func (of_map verifier declares nm) p =
    new_config_map net opts sort_func verifier nm p
build_source net opts sort_func (of_list addrs) p = new_config_list net opts sort_func addrs p

-- `Close`, with nothing else going on.
unfoldable pub close_pool : Pool → Pool
close_pool p = if p.closed then p else record p { closed = true; released = p.released ++ p.nodes }

unfoldable pub close_on_error : Pool × Made (List Node) → Pool × Opened
unfolding close_pool
close_on_error (p, made c) = (p, opened c)
close_on_error (p, fails e) = (close_pool p, failed (building e))

-- `NewConfig`, on its new pool.
unfoldable pub new_config : Net → DialOptions → SortFunc → Option Source → ℕ → Pool × Opened
unfolding build_source close_on_error
new_config net opts sort_func none id = (new_pool id, failed missing_source)
new_config net opts sort_func (some source) id =
    close_on_error (build_source net opts sort_func source (new_pool id))

-- The lookup in the pool, as the set algebra sees it.
abbrev pub lookups : Pool → Pools
lookups p k id = elim (p.lookup id) [ none ↦ none | some m ↦ some m.node ]

-- `Extend`, from where the new nodes are built.
unfoldable pub join : SortFunc → List Node → Pool × Made (List Node) → Go (Pool × Opened)
unfolding union
join sort_func c (p, fails e) = returns (p, failed (building e))
join sort_func c (p, made new) = do r ← union (lookups p) sort_func c new; returns (p, opened r)

-- The same without a pool: the builder locks it, unless an error comes before.
unfoldable pub build_unpooled : Source → Pool → Go (Pool × Opened)
build_unpooled (of_map verifier declares []) p = returns (p, failed (building no_nodes))
build_unpooled (of_map (fails e) declares (n ∷ nm)) p = returns (p, failed (building e))
build_unpooled (of_map (made v) declares (n ∷ nm)) p = panics
build_unpooled (of_list []) p = returns (p, failed (building no_nodes))
build_unpooled (of_list (addr ∷ addrs)) p = panics

unfoldable pub extend_from :
    Net → DialOptions → SortFunc → Option ℕ → List Node → Option Source → Pool → Go (Pool × Opened)
unfolding build_source join build_unpooled
extend_from net opts sort_func none c none p = returns (p, opened c)
extend_from net opts sort_func none c (some source) p = build_unpooled source p
extend_from net opts sort_func (some mgr) c none p =
    if p.closed then returns (p, failed (building pool_closed)) else returns (p, opened c)
extend_from net opts sort_func (some mgr) c (some source) p =
    if p.closed
    then returns (p, failed (building pool_closed))
    else if p.verifies
    then if declares_identity source
      then join sort_func c (build_source net opts sort_func source p)
      else returns (p, failed lacks_identities)
    else if declares_identity source
    then returns (p, failed has_identities)
    else join sort_func c (build_source net opts sort_func source p)

-- `Extend`, on the pool of the configuration's first node.
unfoldable pub extend :
    Net → DialOptions → SortFunc → List Node → Option Source → Pool → Go (Pool × Opened)
unfolding extend_from
extend net opts sort_func [] source p = returns (p, failed empty_configuration)
extend net opts sort_func (n ∷ c) source p = extend_from net opts sort_func n.mgr (n ∷ c) source p
