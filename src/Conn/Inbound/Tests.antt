-- ===== src/Conn/Inbound/Tests.antt =====
-- The theorems on the views of internal/conn/inbound_manager.go and on the calls that wait for them, at
-- a server with two known peers.
use gorums.Prelude.{
  ℕ, ◌≡◌, refl, Bool, true, false, none, List, [], ◌∷◌, if◌then◌else◌, leb, nat_beq, length,
}
use gorums.Conn.Inbound.{
  register_peer, NodeRef, InboundManager, Views, new_inbound_manager, rebuild_config,
  register_known, assign,
}
use gorums.Conn.Inbound.Assigned.{accepts, registers, unregisters, configures, stream_changes, step}
use gorums.Conn.Inbound.Current.{Event, does, turns, World, run, begun, Current, run-Current}
use gorums.Conn.Inbound.Waits.{
  inbound_peers, view_of, Waiting, selects, wait_for_config, check_config, check, runs, Reach, here,
  next,
}
use gorums.Conn.Inbound.Waits.Wakes.{is_waiting, Reason, CanReturn, wait_for_config_lem}

insert : NodeRef → List NodeRef → List NodeRef
insert n [] = n ∷ []
insert n (m ∷ ms) = let rest = insert n ms in if leb n.id m.id then n ∷ m ∷ ms else m ∷ rest

abbrev in_order : List NodeRef → List NodeRef
in_order [] = []
in_order (n ∷ ns) = insert n (in_order ns)

abbrev two_up : ℕ → Bool
two_up id = nat_beq id 2

-- Peer 2 opens a stream, and another one before the first ends; a client comes; the peer
-- configuration is set; and node 2 goes down.
abbrev history : List Event
history =
    does (registers 2 5)
    ∷ does (registers 2 6)
    ∷ does (unregisters 2 5)
    ∷ does (accepts 7)
    ∷ does (configures (1 ∷ 2 ∷ []))
    ∷ turns (λ _. false)
    ∷ does stream_changes
    ∷ []

abbrev start : World
start = begun in_order two_up 1 (1 ∷ 2 ∷ []) true

run-Current_example : Current in_order start.registry.connected_peers (run in_order start history)
run-Current_example = run-Current in_order two_up 1 (1 ∷ 2 ∷ []) true history

abbrev server : InboundManager
server = start.registry

abbrev up_views : Views
up_views = record { sort = in_order; is_up = two_up }

-- The call waits for two inbound peers.
abbrev both : List NodeRef → Bool
both view = leb 2 (length view)

abbrev waited : Waiting
waited = record {
  registry = server;
  is_stopped = false;
  ctx_err = none;
  stage = check_config both inbound_peers server;
}

-- Peer 2 opens its stream while the call waits.
abbrev opened : Waiting
opened = record waited { registry = step up_views server (registers 2 5) }

reached : Reach both inbound_peers (wait_for_config server false none) opened
reached = next (next here (check refl)) (runs up_views (registers 2 5))

wait_for_config_lem_example :
    Reason both inbound_peers (wait_for_config server false none) opened opened.stage
    × (is_waiting opened.stage ≡ true
        → both (view_of inbound_peers opened.registry) ≡ true
        → CanReturn both inbound_peers (wait_for_config server false none) opened)
wait_for_config_lem_example =
    wait_for_config_lem both inbound_peers server false none {s = opened} reached

-- The channel that the call waits on is closed, and the condition holds.
woken : (opened.stage ≡ selects 1) × (both (view_of inbound_peers opened.registry) ≡ true)
unfolding check_config view_of new_inbound_manager rebuild_config register_known assign step insert
    register_peer
woken = (refl, refl)
