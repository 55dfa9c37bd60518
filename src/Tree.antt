-- ===== src/Tree.antt =====
-- tree.go: a tree topology over a configuration. A node is any type with an ID; the tree's nodes are
-- a list in breadth-first order. A Go int has 64 bits.
pub mod Levels
pub mod Positions
pub mod Heap
pub mod Build
pub mod Family
pub mod Height
mod Tests
use gorums.Prelude.{
  ℕ, zero, suc, ◌+◌, ◌-◌, ◌*◌, ◌/◌, ◌^◌, ◌≡◌, Bool, true, false, ◌||◌, Option, none, some, List, [],
  ◌∷◌, ◌++◌, if◌then◌else◌, leb, ltb, length, get_elem?, take, drop, min, max, nat_beq, is_some,
}
use gorums.Prelude.Int.{ℤ, pos, negsuc}
use gorums.Prelude.Go.{Go, returns, panics}

pub data TreeError : Type 0 where
  branching_factor depth empty_config unrepresentable over_capacity duplicate : TreeError

pub data TreeResult {ℓ} (A : Type ℓ) : Type ℓ where
  ok : A → TreeResult A
  err : TreeError → TreeResult A

pub record TreeOptions : Type 0 where
  pub branching_factor : ℕ
  pub depth : ℕ

abbrev pub max_int : ℕ
max_int = 9223372036854775807

abbrev pub uint_mod : ℕ
uint_mod = 18446744073709551616

-- The loop of `treeLevelStart`, with k rounds left: `bits.Add` and `bits.Mul` with their carries.
unfoldable pub level_start_loop : ℕ → ℕ → ℕ → ℕ → Option ℕ
level_start_loop bf zero sum pow = some sum
level_start_loop bf (suc k) sum pow =
    let sum' = sum + pow in
    let pow' = pow * bf in
    elim (leb uint_mod sum' || ltb max_int sum') [
      | true ↦ none
      | false ↦ elim (ltb 0 k) [
        | false ↦ level_start_loop bf k sum' pow
        | true ↦ elim (leb uint_mod pow') [ true ↦ none | false ↦ level_start_loop bf k sum' pow' ]
      ]
    ]

-- `treeLevelStart(k, bf)`, with `none` for -1.
unfoldable pub tree_level_start : ℕ → ℕ → Option ℕ
unfolding level_start_loop
tree_level_start k bf = level_start_loop bf k 0 1

-- `treePow`, whose result is an int.
unfoldable pub tree_pow : ℕ → ℕ → ℕ
tree_pow base zero = 1
tree_pow base (suc exp) = tree_pow base exp * base

-- `pos < start` and `pos - start`, where `none` is -1. Where the code subtracts, pos is not below.
abbrev pub before_start : ℕ → Option ℕ → Bool
before_start p none = false
before_start p (some s) = ltb p s

abbrev pub offset_from : ℕ → Option ℕ → ℕ
offset_from p none = p + 1
offset_from p (some s) = p - s

abbrev pub start_plus : Option ℕ → ℕ → ℕ
start_plus none n = n - 1
start_plus (some s) n = s + n

pub record TreeConfig {ℓ} (N : Type ℓ) : Type ℓ where
  pub nodes : List N
  pub opts : TreeOptions
  pub position_of : ℕ → Option ℕ

module _ {ℓ} {N : Type ℓ} (id_of : N → ℕ) where
  -- The loop that fills the position map from index i on; `none` at a duplicate ID.
  unfoldable pub index_nodes : ℕ → List N → (ℕ → Option ℕ) → Option (ℕ → Option ℕ)
  index_nodes i [] positions = some positions
  index_nodes i (n ∷ ns) positions = elim (positions (id_of n)) [
    | some _ ↦ none
    | none ↦ index_nodes (suc i) ns (λ id. if nat_beq (id_of n) id then some i else positions id)
  ]

  -- `NewTree` on options that are not negative.
  unfoldable pub new_tree_checked : List N → TreeOptions → TreeResult (TreeConfig N)
  unfolding tree_level_start index_nodes
  new_tree_checked cfg opts =
      if ltb opts.branching_factor 2
      then err branching_factor
      else if ltb opts.depth 1
      then err depth
      else if nat_beq (length cfg) 0
      then err empty_config
      else elim (tree_level_start (opts.depth + 1) opts.branching_factor) [
        | none ↦ err unrepresentable
        | some capacity ↦
            if ltb capacity (length cfg)
            then err over_capacity
            else elim (index_nodes 0 cfg (λ _. none)) [
              | none ↦ err duplicate
              | some positions ↦ ok (record { nodes = cfg; opts = opts; position_of = positions })
            ]
      ]

  -- `NewTree`; a negative option is below its bound.
  unfoldable pub new_tree : List N → ℤ → ℤ → TreeResult (TreeConfig N)
  unfolding new_tree_checked
  new_tree cfg (negsuc bf) d = err branching_factor
  new_tree cfg (pos bf) (negsuc d) = if ltb bf 2 then err branching_factor else err depth
  new_tree cfg (pos bf) (pos d) = new_tree_checked cfg (record { branching_factor = bf; depth = d })

  unfoldable pub new_star : List N → TreeResult (TreeConfig N)
  unfolding new_tree
  new_star cfg = new_tree cfg (pos (max (length cfg - 1) 2)) (pos 1)

module _ {ℓ} {N : Type ℓ} (t : TreeConfig N) where
  -- The loop of `posLevel` at depth d, with the rounds left; `none` is (-1, -1).
  unfoldable pub pos_level_loop : ℕ → ℕ → ℕ → Option (ℕ × ℕ)
  pos_level_loop p d zero = none
  pos_level_loop p d (suc rounds) =
      elim (before_start p (tree_level_start (d + 1) t.opts.branching_factor)) [
        | true ↦ some (d, offset_from p (tree_level_start d t.opts.branching_factor))
        | false ↦ pos_level_loop p (d + 1) rounds
      ]

  unfoldable pub pos_level : ℕ → Option (ℕ × ℕ)
  unfolding pos_level_loop
  pos_level p = if leb (length t.nodes) p then none else pos_level_loop p 0 (t.opts.depth + 1)

  -- The index expression `t.nodes[i]`.
  unfoldable pub node_at : ℕ → Go (Option N)
  node_at i = elim (get_elem? t.nodes i) [ none ↦ panics | some n ↦ returns (some n) ]

  -- `ParentOf` at a position.
  unfoldable pub parent_at : ℕ → Go (Option N)
  parent_at p = elim (pos_level p) [
    | none ↦ returns none
    | some (d, idx) ↦
        if leb d 0
        then returns none
        else node_at (
            start_plus (tree_level_start (d - 1) t.opts.branching_factor)
              (idx / t.opts.branching_factor))
  ]

  unfoldable pub parent_of : ℕ → Go (Option N)
  unfolding parent_at
  parent_of id = elim (t.position_of id) [ none ↦ returns none | some p ↦ parent_at p ]

  -- `ChildrenOf` at a position; nil is the empty list.
  unfoldable pub children_at : ℕ → List N
  children_at p = elim (pos_level p) [
    | none ↦ []
    | some (d, idx) ↦
        let bf = t.opts.branching_factor in
        let first = start_plus (tree_level_start (d + 1) bf) (idx * bf) in
        if leb t.opts.depth d
        then []
        else if leb (length t.nodes) first
        then []
        else take (min (first + bf) (length t.nodes) - first) (drop first t.nodes)
  ]

  unfoldable pub children_of : ℕ → List N
  unfolding children_at
  children_of id = elim (t.position_of id) [ none ↦ [] | some p ↦ children_at p ]

  -- `Level`, with `none` for -1.
  unfoldable pub level : ℕ → Option ℕ
  level id = elim (t.position_of id) [
    | none ↦ none
    | some p ↦ elim (pos_level p) [ none ↦ none | some (d, idx) ↦ some d ]
  ]

  unfoldable pub is_leaf : ℕ → Bool
  unfolding children_of
  is_leaf id = elim (t.position_of id) [
    | none ↦ false
    | some p ↦ nat_beq (length (children_of id)) 0
  ]

  -- The loop of `Height`, on fuel. At a position that is out of range, where `posLevel` is (-1, -1),
  -- the code would go on for ever, at position -bf; that is `none` too.
  unfoldable pub height_loop : ℕ → ℕ → ℕ → Option ℕ
  height_loop zero p h = none
  height_loop (suc fuel) p h = elim (pos_level p) [
    | none ↦ none
    | some (d, idx) ↦
        let bf = t.opts.branching_factor in
        let first = start_plus (tree_level_start (d + 1) bf) (idx * bf) in
        elim (leb t.opts.depth d || leb (length t.nodes) first) [
          | true ↦ some h
          | false ↦ height_loop fuel first (h + 1)
        ]
  ]

  unfoldable pub height : ℕ → Option ℕ
  unfolding height_loop
  height id = elim (t.position_of id) [ none ↦ none | some p ↦ height_loop (length t.nodes) p 0 ]

  -- `t.nodes[a:b]`
  abbrev slice : ℕ → ℕ → List N
  slice a b = take (b - a) (drop a t.nodes)

  -- The loop of `Subtree` from level lvl on, with the rounds left: the nodes of the spans.
  unfoldable pub subtree_loop : ℕ → ℕ → ℕ → ℕ → List N
  subtree_loop d idx lvl zero = []
  subtree_loop d idx lvl (suc rounds) =
      let width = tree_pow t.opts.branching_factor (lvl - d) in
      let start = start_plus (tree_level_start lvl t.opts.branching_factor) (idx * width) in
      elim (leb (length t.nodes) start) [
        | true ↦ []
        | false ↦
            slice start (min (start + width) (length t.nodes))
            ++ subtree_loop d idx (lvl + 1) rounds
      ]

  unfoldable pub subtree : ℕ → Go (List N)
  subtree id = elim (t.position_of id) [
    | none ↦ returns []
    | some p ↦ elim (pos_level p) [
      | none ↦ returns []
      | some (d, idx) ↦ elim (get_elem? t.nodes p) [
        | none ↦ panics
        | some n ↦ returns (n ∷ subtree_loop d idx (d + 1) (t.opts.depth - d))
      ]
    ]
  ]

  unfoldable pub root : Go (Option N)
  unfolding node_at
  root = node_at 0
