-- ===== src/Conn/Inbound.antt =====
-- internal/conn/inbound_manager.go: the server's registry of peers and clients. Each operation under
-- the lock is one step. A node is named by its ID, and a channel by a number.
pub mod ClientIds
pub mod Assigned
pub mod Admissions
pub mod Current
pub mod Waits
mod Tests
use gorums.Prelude.{
  ℕ, zero, suc, ◌+◌, ◌-◌, ◌^◌, Bool, true, false, not, ◌&&◌, ◌||◌, Option, none, some, List, [],
  ◌∷◌, ◌++◌, map, if◌then◌else◌, ltb, leb, nat_beq, is_some, keep,
}
use gorums.Errors.{Error}
use gorums.Conn.Streams.{Streams, no_streams, attach, detach}

-- A node of a view: one of the registry's own, or the one of the peer configuration.
pub record NodeRef : Type 0 where
  pub id : ℕ
  pub configured : Bool

abbrev pub client_id_start : ℕ
client_id_start = 2 ^ 20

abbrev pub max_node_id : ℕ
max_node_id = 2 ^ 32 - 1

-- `reported` lists the calls of `onConfigChange`, which are made once `reports` is set; `broadcasts`
-- counts the closes of `configCh`.
pub record InboundManager : Type 0 where
  pub my_id : ℕ
  pub known_nodes : List (ℕ × Streams)
  pub client_nodes : List (ℕ × Streams)
  pub peer_config : Option (List ℕ)
  pub connected_peers : List NodeRef
  pub inbound_peers : List NodeRef
  pub connected_clients : List NodeRef
  pub reports : Bool
  pub reported : List (List NodeRef)
  pub next_client_id : ℕ
  pub broadcasts : ℕ

-- A lookup in a map of nodes, and an assignment to a key that is in it.
unfoldable pub find : ℕ → List (ℕ × Streams) → Option Streams
find id [] = none
find id ((k, s) ∷ nodes) = if nat_beq k id then some s else find id nodes

unfoldable pub assign : ℕ → Streams → List (ℕ × Streams) → List (ℕ × Streams)
assign id s [] = (id, s) ∷ []
assign id s ((k, t) ∷ nodes) =
    let rest = assign id s nodes in if nat_beq k id then (k, s) ∷ nodes else (k, t) ∷ rest

unfoldable pub delete : ℕ → List (ℕ × Streams) → List (ℕ × Streams)
delete id nodes = keep (λ n. not (nat_beq n.0 id)) nodes

abbrev pub own_ref : ℕ × Streams → NodeRef
own_ref (id, s) = record { id = id; configured = false }

-- `slices.Equal` on nodes.
unfoldable pub equal_refs : List NodeRef → List NodeRef → Bool
equal_refs [] [] = true
equal_refs [] (_ ∷ _) = false
equal_refs (_ ∷ _) [] = false
equal_refs (a ∷ refs) (b ∷ others) =
    let rest = equal_refs refs others in
    if nat_beq a.id b.id
    then if a.configured
      then if b.configured then rest else false
      else if b.configured
      then false
      else rest
    else false

-- A sort by `ByID`, and whether each node of the peer configuration is up.
pub record Views : Type 0 where
  pub sort : List NodeRef → List NodeRef
  pub is_up : ℕ → Bool

unfoldable pub rebuild_config : Views → InboundManager → InboundManager
unfolding equal_refs
rebuild_config w im =
    let inbound =
      w.sort
        (map own_ref (keep (λ n. nat_beq n.0 im.my_id || is_some n.1.active) im.known_nodes)) in
    let clients = w.sort (map own_ref (keep (λ n. is_some n.1.active) im.client_nodes)) in
    let cfg : List NodeRef = elim im.peer_config [
      | none ↦ inbound
      | some ids ↦ w.sort (
          map (λ id. record { id = id; configured = true })
            (keep (λ id. nat_beq id im.my_id || w.is_up id) ids))
    ] in
    let changed = not (equal_refs im.connected_peers cfg) in
    record im {
      inbound_peers = inbound;
      connected_clients = clients;
      connected_peers = cfg;
      reported = if changed && im.reports then im.reported ++ cfg ∷ [] else im.reported;
      broadcasts = suc im.broadcasts;
    }

-- `SetPeerConfig`
unfoldable pub set_peer_config : Views → List ℕ → InboundManager → InboundManager
unfolding rebuild_config
set_peer_config w ids im = rebuild_config w (record im { peer_config = some ids })

-- `onStreamChange`
abbrev pub on_stream_change : Views → InboundManager → InboundManager
on_stream_change w im = rebuild_config w im

-- The registration of a known peer by `newNode`.
unfoldable pub register_known : List ℕ → List (ℕ × Streams)
unfolding assign
register_known [] = []
register_known (id ∷ ids) = assign id no_streams (register_known ids)

-- `NewInboundManager` with the known peers that its source names; the callback is set only after
-- the views are built.
unfoldable pub new_inbound_manager : Views → ℕ → List ℕ → Bool → InboundManager
unfolding rebuild_config register_known
new_inbound_manager w my_id ids reports =
    let im : InboundManager = record {
      my_id = my_id;
      known_nodes = register_known ids;
      client_nodes = [];
      peer_config = none;
      connected_peers = [];
      inbound_peers = [];
      connected_clients = [];
      reports = false;
      reported = [];
      next_client_id = client_id_start;
      broadcasts = 0;
    } in
    record (rebuild_config w im) { reports = reports }

-- `isKnown`
unfoldable pub is_known : InboundManager → ℕ → Bool
unfolding find
is_known im id = if nat_beq id 0 then false else is_some (find id im.known_nodes)

-- `nodeID` of a stream: the value of the metadata key, if it is there and is a number of 32 bits.
unfoldable pub node_id : Option (Option ℕ) → ℕ
node_id none = 0
node_id (some none) = 0
node_id (some (some id)) = id

-- What `AcceptPeer` decides of a stream.
pub data Admission : Type 0 where
  own_id untracked client : Admission
  unknown : ℕ → Admission
  unverified : ℕ → Error → Admission
  peer : ℕ → Admission

-- The decisions of `AcceptPeer` on a stream with the metadata key as given. A verifier gives the
-- error that it has with an ID.
unfoldable pub accept_peer :
    InboundManager → Option (ℕ → Option Error) → Option (Option ℕ) → Admission
unfolding is_known node_id
accept_peer im verify key =
    let id = node_id key in
    let admitted =
      if is_known im id
      then peer id
      else if not (nat_beq id 0)
      then untracked
      else if not (is_some key)
      then untracked
      else client in
    if not (nat_beq im.my_id 0) && nat_beq id im.my_id
    then own_id
    else if nat_beq id 0
    then admitted
    else elim verify [
      | none ↦ admitted
      | some check ↦
          if not (is_known im id)
          then unknown id
          else elim (check id) [ some e ↦ unverified id e | none ↦ admitted ]
    ]

-- The loop of `nextAvailableClientID`: the ID and the next candidate.
unfoldable pub next_id_loop : ℕ → InboundManager → ℕ → Option ℕ × ℕ
unfolding find
next_id_loop zero im next = (none, next)
next_id_loop (suc fuel) im next = elim (leb next max_node_id) [
  | false ↦ (none, next)
  | true ↦ elim (is_some (find next im.known_nodes)) [
    | true ↦ next_id_loop fuel im (suc next)
    | false ↦ elim (is_some (find next im.client_nodes)) [
      | true ↦ next_id_loop fuel im (suc next)
      | false ↦ (some next, suc next)
    ]
  ]
]

unfoldable pub next_available_client_id : InboundManager → InboundManager × Option ℕ
unfolding next_id_loop
next_available_client_id im =
    let (id, next) = next_id_loop (suc max_node_id - im.next_client_id) im im.next_client_id in
    (record im { next_client_id = next }, id)

-- `acceptClient`
unfoldable pub accept_client : Views → ℕ → InboundManager → InboundManager × Option ℕ
unfolding next_available_client_id rebuild_config attach assign
accept_client w ch im =
    let (im', id) = next_available_client_id im in
    elim id [
      | none ↦ (im', none)
      | some i ↦ (
        rebuild_config w
            (record im' { client_nodes = assign i (attach ch no_streams) im'.client_nodes }),
        some i,
      )
    ]

-- The cleanup of a client's stream.
unfoldable pub leave_client : Views → ℕ → ℕ → InboundManager → InboundManager
unfolding find detach assign delete rebuild_config
leave_client w id ch im = elim (find id im.client_nodes) [
  | none ↦ im
  | some s ↦
      let (s', gone) = detach ch s in
      if gone
      then rebuild_config w (record im { client_nodes = delete id im.client_nodes })
      else record im { client_nodes = assign id s' im.client_nodes }
]

-- `registerPeer`, of a known peer.
unfoldable pub register_peer : Views → ℕ → ℕ → InboundManager → InboundManager
unfolding find attach assign rebuild_config
register_peer w id ch im = elim (find id im.known_nodes) [
  | none ↦ im
  | some s ↦ rebuild_config w (record im { known_nodes = assign id (attach ch s) im.known_nodes })
]

-- The cleanup of a peer's stream.
unfoldable pub leave_peer : Views → ℕ → ℕ → InboundManager → InboundManager
unfolding find detach assign rebuild_config
leave_peer w id ch im = elim (find id im.known_nodes) [
  | none ↦ im
  | some s ↦
      let (s', gone) = detach ch s in
      let im' = record im { known_nodes = assign id s' im.known_nodes } in
      if gone then rebuild_config w im' else im'
]
