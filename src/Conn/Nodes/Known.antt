-- ===== src/Conn/Nodes/Known.antt =====
-- What the builder of internal/conn/node_source.go knows of the pool.
use gorums.Prelude.{
  ℕ, ◌≡◌, refl, true, Option, none, some, List, [], ◌∷◌, ◌++◌, nat_beq, max, is_some, All, arith,
  ap, ◌∙◌, Bool-cases, Option-cases, inl, inr,
}
use gorums.Conn.Config.{Node}
use gorums.Conn.Pool.{PoolNode, Net, comparable_addr, DialOptions, Pool, put}
use gorums.Conn.Pool.Distinct.{Differ, IsDistinct, find_id, IsPoolState, Unused}
use gorums.Conn.Nodes.{NodeBuilder, populate, new_node_builder}

-- The pool has the node under its ID.
abbrev pub Has : Pool → Node → Type 0
Has p n = (m : PoolNode) × (p.lookup n.id ≡ some m) × (m.node ≡ n)

-- No ID of the one pool is lost or given to another node in the other.
abbrev pub Grows : Pool → Pool → Type 0
Grows p q = (id : ℕ) (m : PoolNode) → p.lookup id ≡ some m → q.lookup id ≡ some m

pub Has-Grows : (p q : Pool) (n : Node) → Grows p q → Has p n → Has q n
Has-Grows p q n g (m, at, same) = (m, g n.id m at, same)

pub find_id-named :
    (id : ℕ) (ns : List PoolNode) (m : PoolNode) → find_id id ns ≡ some m → m.node.id ≡ id
find_id-named id [] m h = cc
find_id-named id (n ∷ ns) m h = elim (Bool-cases (nat_beq n.node.id id)) [
  | inl here ↦ ground arith
  | inr there ↦ find_id-named id ns m (ground arith)
]

pub find_id-longer :
    (id : ℕ) (ns ms : List PoolNode) (m : PoolNode)
    → find_id id ns ≡ some m
    → find_id id (ns ++ ms) ≡ some m
find_id-longer id [] ms m h = cc
find_id-longer id (n ∷ ns) ms m h = elim (Bool-cases (nat_beq n.node.id id)) [
  | inl here ↦ ground arith
  | inr there ↦ let rest = find_id-longer id ns ms m (ground arith) in ground arith
]

find_id-absent :
    (net : Net) (n : PoolNode) (ns : List PoolNode)
    → All (λ m. Differ net m n) ns
    → find_id n.node.id ns ≡ none
find_id-absent net n [] h = refl
find_id-absent net n (m ∷ ns) h = ground (arith, find_id-absent net n ns h.1, h.0.0)

abbrev node_of : Option PoolNode → Option Node → Option Node
node_of none other = other
node_of (some m) other = some m.node

module _ (net : Net) where
  -- What a round of the loop of `newNodeBuilder` notes.
  abbrev noted : PoolNode → NodeBuilder → NodeBuilder
  noted n b = record b {
    addr_to_id = put (comparable_addr net n.node.addr) n.node.id b.addr_to_id;
    id_to_node = put n.node.id n.node b.id_to_node;
    max_id = max b.max_id n.node.id;
  }

  id_to_node-populate :
      (ns : List PoolNode) (b : NodeBuilder)
      → IsDistinct net ns
      → (id : ℕ) → (populate net ns b).id_to_node id ≡ node_of (find_id id ns) (b.id_to_node id)
  unfolding populate put
  id_to_node-populate [] b d id = refl
  id_to_node-populate (n ∷ ns) b d id = elim (Bool-cases (nat_beq n.node.id id)) [
    | inl here ↦
        let same : n.node.id ≡ id = ground arith in
        ground (
          arith,
          id_to_node-populate ns (noted n b) d.1 id,
          find_id-absent net n ns d.0,
          ap (λ i. find_id i ns) same,
        )
    | inr there ↦ ground (arith, id_to_node-populate ns (noted n b) d.1 id)
  ]

  -- An address that is in use stays in use.
  addr_to_id-populate :
      (ns : List PoolNode) (b : NodeBuilder) (addr : ℕ)
      → is_some (b.addr_to_id addr) ≡ true
      → is_some ((populate net ns b).addr_to_id addr) ≡ true
  unfolding populate put
  addr_to_id-populate [] b addr h = h
  addr_to_id-populate (n ∷ ns) b addr h = addr_to_id-populate ns (noted n b) addr (ground arith)

  abbrev pub Noted : NodeBuilder → List PoolNode → Type 0
  Noted b ns = All (λ n. is_some (b.addr_to_id (comparable_addr net n.node.addr)) ≡ true) ns

  populate-Noted : (ns : List PoolNode) (b : NodeBuilder) → Noted (populate net ns b) ns
  unfolding populate put
  populate-Noted [] b = tt
  populate-Noted (n ∷ ns) b = (
    addr_to_id-populate ns (noted n b) (comparable_addr net n.node.addr) (ground arith),
    populate-Noted ns (noted n b),
  )

  pub Noted-put :
      (b : NodeBuilder) (addr id : ℕ) (ns : List PoolNode)
      → Noted b ns
      → Noted (record b { addr_to_id = put addr id b.addr_to_id }) ns
  unfolding put
  Noted-put b addr id [] h = tt
  Noted-put b addr id (n ∷ ns) h = (ground (arith, h.0), Noted-put b addr id ns h.1)

  -- An address that is not noted is not in use.
  pub Noted-Unused :
      (b : NodeBuilder) (addr : ℕ) (ns : List PoolNode)
      → b.addr_to_id (comparable_addr net addr) ≡ none
      → Noted b ns
      → Unused net addr ns
  Noted-Unused b addr [] absent h = tt
  Noted-Unused b addr (n ∷ ns) absent h = (
    elim (Bool-cases (nat_beq (comparable_addr net n.node.addr) (comparable_addr net addr))) [
      | inl same ↦
          let e : comparable_addr net n.node.addr ≡ comparable_addr net addr = ground arith in
          absurd (ground (arith, ap b.addr_to_id e, h.0))
      | inr other ↦ other
    ],
    Noted-Unused b addr ns absent h.1,
  )

  -- The builder knows the addresses of the pool, and its nodes are the pool's.
  pub record Knows (b : NodeBuilder) (p : Pool) : Type 0 where
    pub noted_all : Noted b p.nodes
    pub known : (id : ℕ) (n : Node) → b.id_to_node id ≡ some n → (n.id ≡ id) × Has p n

  pub new_node_builder-Knows :
      (opts : DialOptions) (p : Pool) (verify : Option ℕ)
      → IsPoolState net opts p
      → Knows (new_node_builder net p verify) p
  unfolding new_node_builder
  new_node_builder-Knows opts p verify v =
      let start : NodeBuilder = record {
        verify = verify;
        addr_to_id = λ _. none;
        id_to_node = λ _. none;
        max_id = 0;
        nodes = [];
      } in
      record {
        noted_all = populate-Noted p.nodes start;
        known = λ id n h. elim (Option-cases (find_id id p.nodes)) [
          | inl absent ↦ absurd (ground (arith, id_to_node-populate p.nodes start v.distinct id))
          | inr (m, there) ↦
              let named = find_id-named id p.nodes m there in
              let same : m.node ≡ n =
                ground (arith, id_to_node-populate p.nodes start v.distinct id) in
              let e : n.id ≡ id = ground arith in
              (e, (m, v.found n.id ∙ ap (λ i. find_id i p.nodes) e ∙ there, same))
        ];
      }

  nodes-populate : (ns : List PoolNode) (b : NodeBuilder) → (populate net ns b).nodes ≡ b.nodes
  unfolding populate
  nodes-populate [] b = refl
  nodes-populate (n ∷ ns) b = nodes-populate ns (noted n b)

  pub no_nodes_yet : (p : Pool) (verify : Option ℕ) → (new_node_builder net p verify).nodes ≡ []
  unfolding new_node_builder
  no_nodes_yet p verify = nodes-populate p.nodes _
