-- ===== src/Conn/Inbound/Waits/Broadcasts.antt =====
-- Every change of a view of internal/conn/inbound_manager.go is followed by a broadcast.
use gorums.Prelude.{ℕ, suc, ◌<◌, ◌≡◌, refl, ◌⊎◌, inl, inr, arith, Bool-cases, Option-cases}
use gorums.Conn.Streams.{detach}
use gorums.Conn.Inbound.{
  InboundManager, Views, find, rebuild_config, next_available_client_id, accept_client,
  leave_client, register_peer, leave_peer, set_peer_config,
}
use gorums.Conn.Inbound.Assigned
use gorums.Conn.Inbound.Assigned.{
  Op, accepts, leaves, registers, unregisters, configures, stream_changes,
}
use gorums.Conn.Inbound.Waits.{View, connected_peers, connected_clients, inbound_peers, view_of}

-- Either a broadcast tells of a change, or the views are as they were.
abbrev pub Told : InboundManager → InboundManager → Type 0
Told im im' =
    (im.broadcasts < im'.broadcasts)
    ⊎ ((im'.broadcasts ≡ im.broadcasts) × ((v : View) → view_of v im' ≡ view_of v im))

module _ (w : Views) where
  broadcast_once : (im im' : InboundManager) → im'.broadcasts ≡ suc im.broadcasts → Told im im'
  broadcast_once im im' e = inl (omega (arith, e))

  same_views :
      (im im' : InboundManager)
      → im'.broadcasts ≡ im.broadcasts
      → im'.connected_peers ≡ im.connected_peers
      → im'.connected_clients ≡ im.connected_clients
      → im'.inbound_peers ≡ im.inbound_peers
      → Told im im'
  unfolding view_of
  same_views im im' e p c i = inr (e, go)
    where
      go : (v : View) → view_of v im' ≡ view_of v im
      go connected_peers = p
      go connected_clients = c
      go inbound_peers = i

  leave_client-Told : (id ch : ℕ) (im : InboundManager) → Told im (leave_client w id ch im)
  unfolding leave_client rebuild_config
  leave_client-Told id ch im = elim (Option-cases (find id im.client_nodes)) [
    | inl absent ↦ rw (leave_client, absent) (same_views im im refl refl refl refl)
    | inr (s, e) ↦ elim (Bool-cases (detach ch s).1) [
      | inl gone ↦ rw (leave_client, e, gone) (broadcast_once im _ refl)
      | inr stays ↦ rw (leave_client, e, stays) (same_views im _ refl refl refl refl)
    ]
  ]

  leave_peer-Told : (id ch : ℕ) (im : InboundManager) → Told im (leave_peer w id ch im)
  unfolding leave_peer rebuild_config
  leave_peer-Told id ch im = elim (Option-cases (find id im.known_nodes)) [
    | inl absent ↦ rw (leave_peer, absent) (same_views im im refl refl refl refl)
    | inr (s, e) ↦ elim (Bool-cases (detach ch s).1) [
      | inl gone ↦ rw (leave_peer, e, gone) (broadcast_once im _ refl)
      | inr stays ↦ rw (leave_peer, e, stays) (same_views im _ refl refl refl refl)
    ]
  ]

  register_peer-Told : (id ch : ℕ) (im : InboundManager) → Told im (register_peer w id ch im)
  unfolding register_peer rebuild_config
  register_peer-Told id ch im = elim (Option-cases (find id im.known_nodes)) [
    | inl absent ↦ rw (register_peer, absent) (same_views im im refl refl refl refl)
    | inr (s, e) ↦ rw (register_peer, e) (broadcast_once im _ refl)
  ]

  accept_client-Told : (ch : ℕ) (im : InboundManager) → Told im (accept_client w ch im).0
  unfolding accept_client next_available_client_id rebuild_config
  accept_client-Told ch im = elim (Option-cases (next_available_client_id im).1) [
    | inl full ↦ rw (accept_client, full) (same_views im _ refl refl refl refl)
    | inr (id, e) ↦ rw (accept_client, e) (broadcast_once im _ refl)
  ]

  pub step-Told : (im : InboundManager) (op : Op) → Told im (Assigned.step w im op)
  unfolding Assigned.step set_peer_config rebuild_config
  step-Told im (accepts ch) = accept_client-Told ch im
  step-Told im (leaves id ch) = leave_client-Told id ch im
  step-Told im (registers id ch) = register_peer-Told id ch im
  step-Told im (unregisters id ch) = leave_peer-Told id ch im
  step-Told im (configures ids) = broadcast_once im _ refl
  step-Told im stream_changes = broadcast_once im _ refl
