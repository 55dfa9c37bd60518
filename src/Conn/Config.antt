-- ===== src/Conn/Config.antt =====
-- internal/conn/config.go: the set algebra of configurations. Sorting is Go's slices package, which
-- the functions that use it take as a parameter.
pub mod Algebra
pub mod Watches
use gorums.Prelude.{
  ℕ, zero, suc, Bool, true, false, not, ◌&&◌, ◌||◌, Option, none, some, List, [], ◌∷◌, ◌++◌, map,
  if◌then◌else◌, ltb, length, contains, comparable_nat, nat_beq, keep, is_some, Comparable, ◌==◌,
}
use gorums.Prelude.Go.{Go, returns, panics, ◌>>=◌, ◌>>◌}
use gorums.Prelude.Int.{ℤ, pos, negsuc}
use gorums.Errors.{Error, NodeError, QuorumCallError, ErrorsIs}

-- A node of node.go: its ID, its address, and the connection pool that it belongs to. The nodes that
-- a server has of its clients and peers belong to none.
pub record Node : Type 0 where
  pub id : ℕ
  pub addr : ℕ
  pub mgr : Option ℕ

-- `outboundManager.Node` of each pool: the nodes by their IDs.
abbrev pub Pools : Type 0
Pools = ℕ → ℕ → Option Node

-- `cmp.Compare(a.id, b.id)`
unfoldable pub by_id : Node → Node → ℤ
by_id a b = if ltb a.id b.id then negsuc 0 else if ltb b.id a.id then pos 1 else pos 0

-- `slices.SortFunc` and `slices.SortStableFunc` on nodes.
abbrev pub SortFunc : Type 0
SortFunc = (Node → Node → ℤ) → List Node → List Node

abbrev pub node_ids : List Node → List ℕ
node_ids c = map (λ n. n.id) c

unfoldable pub equal_ids : List Node → List Node → Bool
equal_ids [] [] = true
equal_ids [] (_ ∷ _) = false
equal_ids (_ ∷ _) [] = false
equal_ids (n ∷ c) (m ∷ b) = if nat_beq n.id m.id then equal_ids c b else false

-- `Config.Equal`
unfoldable pub equal : List Node → List Node → Bool
unfolding equal_ids
equal c b = if nat_beq (length c) (length b) then equal_ids c b else false

-- `Config.Node`: the first node with the ID.
unfoldable pub node : List Node → ℕ → Option Node
node [] id = none
node (n ∷ c) id = if nat_beq n.id id then some n else node c id

-- `Config.Contains`
unfoldable pub has : List Node → ℕ → Bool
unfolding node
has c id = is_some (node c id)

-- The loop of `Config.Add`, with the IDs that are in the set `seenIDs`. The lookup locks the pool,
-- which panics if there is none.
unfoldable pub add_loop : Option (ℕ → Option Node) → List ℕ → List Node → List ℕ → Go (List Node)
add_loop pool [] nodes seen = returns nodes
add_loop pool (id ∷ ids) nodes seen =
    if contains seen id then add_loop pool ids nodes seen else elim pool [
      | none ↦ panics
      | some lookup ↦ elim (lookup id) [
        | none ↦ add_loop pool ids nodes seen
        | some n ↦ add_loop pool ids (nodes ++ n ∷ []) (id ∷ seen)
      ]
    ]

-- `Config.mgr`, of a configuration with a first node.
unfoldable pub pool_of : Pools → Node → Option (ℕ → Option Node)
pool_of pools n = elim n.mgr [ none ↦ none | some m ↦ some (pools m) ]

-- `Config.Add`
unfoldable pub add : Pools → SortFunc → List Node → List ℕ → Go (List Node)
unfolding add_loop pool_of
add pools sort_func [] ids = returns []
add pools sort_func (n ∷ c) ids = do
  nodes ← add_loop (pool_of pools n) ids (n ∷ c) (node_ids (n ∷ c))
  returns (sort_func by_id nodes)

-- `Config.Union`
unfoldable pub union : Pools → SortFunc → List Node → List Node → Go (List Node)
unfolding add
union pools sort_func [] other = returns other
union pools sort_func (n ∷ c) [] = returns (n ∷ c)
union pools sort_func (n ∷ c) (m ∷ other) = add pools sort_func (n ∷ c) (node_ids (m ∷ other))

-- `Config.Remove`
unfoldable pub remove : List Node → List ℕ → List Node
remove c ids = keep (λ n. not (contains ids n.id)) c

-- `Config.Difference`
unfoldable pub difference : List Node → List Node → List Node
unfolding remove
difference [] other = []
difference (n ∷ c) [] = n ∷ c
difference (n ∷ c) (m ∷ other) = remove (n ∷ c) (node_ids (m ∷ other))

-- `exclude` of `Config.WithoutErrors`, on the types given.
unfoldable pub matches_one : ErrorsIs → Error → List Error → Bool
matches_one lib e [] = false
matches_one lib e (t ∷ ts) = if lib.is (some e) t then true else matches_one lib e ts

unfoldable pub exclude : ErrorsIs → List Error → Error → Bool
unfolding matches_one
exclude lib [] e = true
exclude lib (t ∷ ts) e = matches_one lib e (t ∷ ts)

unfoldable pub exclude_set : ErrorsIs → List Error → List NodeError → List ℕ
unfolding exclude
exclude_set lib types [] = []
exclude_set lib types (ne ∷ errs) =
    let rest = exclude_set lib types errs in
    if exclude lib types ne.cause then ne.node_id ∷ rest else rest

-- `Config.WithoutErrors`
unfoldable pub without_errors : ErrorsIs → List Node → QuorumCallError → List Error → List Node
unfolding exclude_set
without_errors lib c err types =
    keep (λ n. not (contains (exclude_set lib types err.errors) n.id)) c

-- `Config.Watch`: the last result, and what stands in the channel of one place.
pub record Watch : Type 0 where
  pub current : List Node
  pub channel : Option (List Node)

-- One tick, at which `derive` returns `fresh`.
unfoldable pub tick : List Node → Watch → Watch
unfolding equal
tick fresh w = if equal fresh w.current then w else elim w.channel [
  | none ↦ record { current = fresh; channel = some fresh }
  | some unread ↦ record { current = fresh; channel = some unread }
]

-- The start, with the first result.
unfoldable pub watch : List Node → Watch
watch initial = record { current = initial; channel = some initial }

-- The consumer's receive.
unfoldable pub receive : Watch → Watch × Option (List Node)
receive w = (record w { channel = none }, w.channel)
