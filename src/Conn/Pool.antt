-- ===== src/Conn/Pool.antt =====
-- internal/conn/outbound_manager.go: the connection pool. Its logs, message IDs and the options that
-- it only passes on to gRPC are left out.
pub mod Closing
pub mod Distinct
use gorums.Prelude.{
  ℕ, Bool, true, false, not, ◌&&◌, ◌||◌, Option, none, some, List, [], ◌∷◌, ◌++◌, if◌then◌else◌,
  ltb, nat_beq, is_some,
}
use gorums.Errors.{Error}
use gorums.Conn.Config.{Node}

-- What a node's transport sends on: the handler of this process, the stream that a peer dialed, or
-- a stream of its own, with the verifier of the remote end. A verifier is named by a number.
pub data Link : Type 0 where
  in_process borrowed : Link
  dialed : Option ℕ → Link

pub record PoolNode : Type 0 where
  pub node : Node
  pub link : Link

-- The errors of building nodes.
pub data PoolError : Type 0 where
  no_nodes reserved_node pool_closed : PoolError
  invalid_address node_exists no_credentials not_a_peer : ℕ → PoolError
  id_in_use address_in_use wrong_address : ℕ → ℕ → PoolError
  dial_failed : ℕ → Error → PoolError
  bad_identities : ℕ → PoolError

pub data Made {ℓ} (A : Type ℓ) : Type ℓ where
  made : A → Made A
  fails : PoolError → Made A

-- `resolveAddr` by net.ResolveTCPAddr, and the error of grpc.NewClient, for each address.
pub record Net : Type 0 where
  pub resolve : ℕ → Option ℕ
  pub dial : ℕ → Option Error

-- `comparableAddr`
unfoldable pub comparable_addr : Net → ℕ → ℕ
comparable_addr net addr = elim (net.resolve addr) [ none ↦ addr | some resolved ↦ resolved ]

-- An `InboundManager`: the address of each known peer, and its verifier.
pub record Server : Type 0 where
  pub known_peer : ℕ → Option ℕ
  pub verify : Option ℕ

-- `credentials` and `handler` stand for values that are not nil.
pub record DialOptions : Type 0 where
  pub credentials : Bool
  pub handler : Bool
  pub local_node_id : ℕ
  pub stream_dedup : Bool
  pub inbound_manager : Option Server

-- `inProcess`
unfoldable pub in_process_id : DialOptions → ℕ → Bool
in_process_id opts id = nat_beq id opts.local_node_id && opts.handler

unfoldable pub borrows_stream : DialOptions → ℕ → Bool
borrows_stream opts id =
    opts.stream_dedup && is_some opts.inbound_manager && ltb id opts.local_node_id

unfoldable pub known_peer_of : Option Server → ℕ → Option ℕ
known_peer_of none id = none
known_peer_of (some im) id = im.known_peer id

-- `id` names the pool. `released` lists the nodes that were closed.
pub record Pool : Type 0 where
  pub id : ℕ
  pub nodes : List PoolNode
  pub lookup : ℕ → Option PoolNode
  pub closed : Bool
  pub verifies : Bool
  pub released : List PoolNode

abbrev pub new_pool : ℕ → Pool
new_pool id = record {
  id = id;
  nodes = [];
  lookup = λ _. none;
  closed = false;
  verifies = false;
  released = [];
}

-- An assignment to a key of a map.
unfoldable pub put {ℓ} : {A : Type ℓ} → ℕ → A → (ℕ → Option A) → ℕ → Option A
put k a m j = if nat_beq k j then some a else m j

unfoldable pub add_node : PoolNode → Pool → Pool × Made PoolNode
unfolding put
add_node n p =
    if p.closed
    then (record p { released = p.released ++ n ∷ [] }, fails pool_closed)
    else (record p { lookup = put n.node.id n p.lookup; nodes = p.nodes ++ n ∷ [] }, made n)

-- `newNode` on from its check of the credentials, with what `knownPeer` returned.
unfoldable pub link_node :
    Net → DialOptions → ℕ → ℕ → Option ℕ → Option ℕ → Pool → Pool × Made PoolNode
unfolding add_node in_process_id borrows_stream comparable_addr
link_node net opts id addr peer verify p =
    let n : Node = record { id = id; addr = addr; mgr = some p.id } in
    if in_process_id opts id
    then add_node (record { node = n; link = in_process }) p
    else if borrows_stream opts id
    then elim peer [
      | none ↦ (p, fails (not_a_peer id))
      | some peer_addr ↦
          if nat_beq (comparable_addr net peer_addr) (comparable_addr net addr)
          then add_node (record { node = n; link = borrowed }) p
          else (p, fails (wrong_address id peer_addr))
    ]
    else elim (net.dial addr) [
      | some e ↦ (p, fails (dial_failed id e))
      | none ↦ add_node (record { node = n; link = dialed verify }) p
    ]

-- The verifier of a node: the server's, for its known peers.
unfoldable pub verifier_for : Option Server → Option ℕ → Option ℕ → Option ℕ
verifier_for none peer verify = verify
verifier_for (some im) none verify = verify
verifier_for (some im) (some _) verify = im.verify

-- `newNode`, from the verifier on.
unfoldable pub check_node :
    Net → DialOptions → ℕ → ℕ → Option ℕ → Option ℕ → Pool → Pool × Made PoolNode
unfolding link_node
check_node net opts id addr peer none p = link_node net opts id addr peer none p
check_node net opts id addr peer (some v) p =
    if not opts.credentials
    then (p, fails (no_credentials id))
    else link_node net opts id addr peer (some v) (record p { verifies = true })

unfoldable pub new_node : Net → DialOptions → ℕ → ℕ → Option ℕ → Pool → Pool × Made PoolNode
unfolding check_node verifier_for known_peer_of
new_node net opts id addr verify p =
    if is_some (p.lookup id)
    then (p, fails (node_exists id))
    else let peer = known_peer_of opts.inbound_manager id in
      check_node net opts id addr peer (verifier_for opts.inbound_manager peer verify) p

-- A pool in use: the nodes that calls of `newNode` have made and not yet passed to `addNode`, and,
-- once `Close` has started, those that it has not closed yet.
pub record Shared : Type 0 where
  pub pool : Pool
  pub in_flight : List PoolNode
  pub to_close : List PoolNode

-- The call of `newNode` whose node stands first goes on to `addNode`.
unfoldable pub finish_new : List PoolNode → Shared → Shared
unfolding add_node
finish_new [] s = s
finish_new (n ∷ ns) s = record s { pool = (add_node n s.pool).0; in_flight = ns }

-- `Close` up to where it leaves the lock, which runs once.
unfoldable pub start_close : Shared → Shared
start_close s =
    if s.pool.closed
    then s
    else record s { pool = record s.pool { closed = true }; to_close = s.pool.nodes }

-- A round of the loop of `Close`.
unfoldable pub close_next : List PoolNode → Shared → Shared
close_next [] s = s
close_next (n ∷ ns) s = record s {
  pool = record s.pool { released = s.pool.released ++ n ∷ [] };
  to_close = ns;
}
