-- ===== src/Conn/Inbound/Current/Steps.antt =====
-- The views of internal/conn/inbound_manager.go after each of its operations.
use gorums.Prelude.{
  ℕ, ◌≡◌, refl, sym, ap, ◌∙◌, Bool, true, false, ◌||◌, none, some, List, map, nat_beq, is_some,
  keep, All, All-keep, if◌then◌else◌, Bool-cases, Option-cases, inl, inr,
}
use gorums.Conn.Streams.{Streams, attach, detach, no_streams}
use gorums.Conn.Streams.Active.{last-append}
use gorums.Conn.Inbound.{
  NodeRef, InboundManager, find, assign, delete, own_ref, Views, rebuild_config,
  next_available_client_id, accept_client, leave_client, register_peer, leave_peer, set_peer_config,
}
use gorums.Conn.Inbound.Assigned.{
  Op, accepts, leaves, registers, unregisters, configures, stream_changes, step,
}
use gorums.Conn.Inbound.Current.Changes.{
  latest, AllNews, IsNewest, detach-IsNewest, detach-keeps, find-IsNewest, assign-IsNewest,
  keep-assign, report_lem,
}

-- The operations that make the registry see which nodes are up.
abbrev pub sees : Op → Bool
sees (accepts _) = false
sees (leaves _ _) = false
sees (registers _ _) = false
sees (unregisters _ _) = false
sees (configures _) = true
sees stream_changes = true

module _ (sort : List NodeRef → List NodeRef) where
  abbrev pub views : (ℕ → Bool) → Views
  views is_up = record { sort = sort; is_up = is_up }

  -- The known peers that have a stream, with the server itself, and the clients that have one.
  abbrev pub with_streams : InboundManager → List NodeRef
  with_streams im =
      sort (map own_ref (keep (λ n. nat_beq n.0 im.my_id || is_some n.1.active) im.known_nodes))

  abbrev pub clients_of : InboundManager → List NodeRef
  clients_of im = sort (map own_ref (keep (λ n. is_some n.1.active) im.client_nodes))

  -- The nodes of a peer configuration that can carry calls, with the server's own.
  abbrev pub peers_of : (ℕ → Bool) → List ℕ → InboundManager → List NodeRef
  peers_of is_up ids im = sort (
      map (λ id. record { id = id; configured = true })
        (keep (λ id. nat_beq id im.my_id || is_up id) ids))

  -- `settled`: the registry has seen which nodes are up.
  pub record IsCurrent (view : List NodeRef) (is_up : ℕ → Bool) (settled : Bool)
      (im : InboundManager) : Type 0 where
    pub inbound : im.inbound_peers ≡ with_streams im
    pub clients : im.connected_clients ≡ clients_of im
    pub fallback : im.peer_config ≡ none → im.connected_peers ≡ im.inbound_peers
    pub connected :
        settled ≡ true
        → (ids : List ℕ) → im.peer_config ≡ some ids
        → im.connected_peers ≡ peers_of is_up ids im
    pub told : im.reports ≡ true → latest view im.reported ≡ im.connected_peers
    pub news : AllNews view im.reported
    pub newest_known : All IsNewest im.known_nodes
    pub newest_clients : All IsNewest im.client_nodes

  module _ (view : List NodeRef) where
    rebuild-IsCurrent :
        (is_up : ℕ → Bool) (settled : Bool) (im : InboundManager)
        → (im.reports ≡ true → latest view im.reported ≡ im.connected_peers)
        → AllNews view im.reported
        → All IsNewest im.known_nodes
        → All IsNewest im.client_nodes
        → IsCurrent view is_up settled (rebuild_config (views is_up) im)
    unfolding rebuild_config
    rebuild-IsCurrent is_up settled im h a k c =
        let t =
          report_lem im.reports view im.connected_peers
            (rebuild_config (views is_up) im).connected_peers im.reported h a in
        record {
          inbound = refl;
          clients = refl;
          fallback = λ e. rw e refl;
          connected = λ _ ids e. rw e refl;
          told = t.0;
          news = t.1;
          newest_known = k;
          newest_clients = c;
        }

    rebuilt :
        (is_up : ℕ → Bool) (settled : Bool) (im : InboundManager)
        (known clients : List (ℕ × Streams))
        → IsCurrent view is_up settled im
        → All IsNewest known
        → All IsNewest clients
        → IsCurrent view is_up settled (
            rebuild_config
              (views is_up)
              (record im { known_nodes = known; client_nodes = clients }))
    rebuilt is_up settled im known clients v k c =
        rebuild-IsCurrent is_up settled (record im { known_nodes = known; client_nodes = clients })
          v.told v.news k c

    leave_client-IsCurrent :
        (is_up : ℕ → Bool) (settled : Bool) (id ch : ℕ) (im : InboundManager)
        → IsCurrent view is_up settled im
        → IsCurrent view is_up settled (leave_client (views is_up) id ch im)
    unfolding leave_client delete
    leave_client-IsCurrent is_up settled id ch im v =
        elim (Option-cases (find id im.client_nodes)) [
          | inl absent ↦ rw (leave_client, absent) v
          | inr (s, e) ↦
              let h = find-IsNewest id s im.client_nodes e v.newest_clients in
              elim (Bool-cases (detach ch s).1) [
                | inl gone ↦
                    rw (leave_client, e, gone)
                      (rebuilt is_up settled im im.known_nodes (delete id im.client_nodes) v
                        v.newest_known (All-keep IsNewest _ im.client_nodes v.newest_clients))
                | inr stays ↦
                    rw (leave_client, e, stays)
                      record {
                        inbound = v.inbound;
                        clients =
                            v.clients
                            ∙ ap sort (
                                sym (
                                  keep-assign (λ _. false) id (detach ch s).0 s im.client_nodes e
                                    (detach-keeps id ch s h stays)));
                        fallback = v.fallback;
                        connected = v.connected;
                        told = v.told;
                        news = v.news;
                        newest_known = v.newest_known;
                        newest_clients =
                            assign-IsNewest id (detach ch s).0 im.client_nodes
                              (detach-IsNewest id ch s h) v.newest_clients;
                      }
              ]
        ]

    leave_peer-IsCurrent :
        (is_up : ℕ → Bool) (settled : Bool) (id ch : ℕ) (im : InboundManager)
        → IsCurrent view is_up settled im
        → IsCurrent view is_up settled (leave_peer (views is_up) id ch im)
    unfolding leave_peer
    leave_peer-IsCurrent is_up settled id ch im v = elim (Option-cases (find id im.known_nodes)) [
      | inl absent ↦ rw (leave_peer, absent) v
      | inr (s, e) ↦
          let h = find-IsNewest id s im.known_nodes e v.newest_known in
          let k =
            assign-IsNewest id (detach ch s).0 im.known_nodes (detach-IsNewest id ch s h)
              v.newest_known in
          elim (Bool-cases (detach ch s).1) [
            | inl gone ↦
                rw (leave_peer, e, gone)
                  (rebuilt is_up settled im (assign id (detach ch s).0 im.known_nodes)
                    im.client_nodes v k v.newest_clients)
            | inr stays ↦
                rw (leave_peer, e, stays)
                  record {
                    inbound =
                        v.inbound
                        ∙ ap sort (
                            sym (
                              keep-assign (λ i. nat_beq i im.my_id) id (detach ch s).0 s
                                im.known_nodes e (detach-keeps id ch s h stays)));
                    clients = v.clients;
                    fallback = v.fallback;
                    connected = v.connected;
                    told = v.told;
                    news = v.news;
                    newest_known = k;
                    newest_clients = v.newest_clients;
                  }
          ]
    ]

    attach-IsNewest : (id ch : ℕ) (s : Streams) → IsNewest (id, attach ch s)
    unfolding attach
    attach-IsNewest id ch s = sym (last-append s.live ch)

    register_peer-IsCurrent :
        (is_up : ℕ → Bool) (settled : Bool) (id ch : ℕ) (im : InboundManager)
        → IsCurrent view is_up settled im
        → IsCurrent view is_up settled (register_peer (views is_up) id ch im)
    unfolding register_peer
    register_peer-IsCurrent is_up settled id ch im v =
        elim (Option-cases (find id im.known_nodes)) [
          | inl absent ↦ rw (register_peer, absent) v
          | inr (s, e) ↦
              rw (register_peer, e)
                (rebuilt is_up settled im (assign id (attach ch s) im.known_nodes) im.client_nodes v
                  (assign-IsNewest id (attach ch s) im.known_nodes (attach-IsNewest id ch s)
                    v.newest_known)
                  v.newest_clients)
        ]

    accept_client-IsCurrent :
        (is_up : ℕ → Bool) (settled : Bool) (ch : ℕ) (im : InboundManager)
        → IsCurrent view is_up settled im
        → IsCurrent view is_up settled (accept_client (views is_up) ch im).0
    unfolding accept_client next_available_client_id
    accept_client-IsCurrent is_up settled ch im v =
        elim (Option-cases (next_available_client_id im).1) [
          | inl full ↦
              rw (accept_client, full) (again (next_available_client_id im).0.next_client_id)
          | inr (id, e) ↦
              rw (accept_client, e)
                (rebuilt is_up settled
                  (record im { next_client_id = (next_available_client_id im).0.next_client_id })
                  im.known_nodes (assign id (attach ch no_streams) im.client_nodes)
                  (again (next_available_client_id im).0.next_client_id) v.newest_known
                  (assign-IsNewest id (attach ch no_streams) im.client_nodes
                    (attach-IsNewest id ch no_streams) v.newest_clients))
        ]
      where
        again : (n : ℕ) → IsCurrent view is_up settled (record im { next_client_id = n })
        again n = record {
          inbound = v.inbound;
          clients = v.clients;
          fallback = v.fallback;
          connected = v.connected;
          told = v.told;
          news = v.news;
          newest_known = v.newest_known;
          newest_clients = v.newest_clients;
        }

    pub step-IsCurrent :
        (is_up : ℕ → Bool) (settled : Bool) (op : Op) (im : InboundManager)
        → IsCurrent view is_up settled im
        → IsCurrent view is_up (if sees op then true else settled) (step (views is_up) im op)
    unfolding step set_peer_config
    step-IsCurrent is_up settled (accepts ch) im v = accept_client-IsCurrent is_up settled ch im v
    step-IsCurrent is_up settled (leaves id ch) im v =
        leave_client-IsCurrent is_up settled id ch im v
    step-IsCurrent is_up settled (registers id ch) im v =
        register_peer-IsCurrent is_up settled id ch im v
    step-IsCurrent is_up settled (unregisters id ch) im v =
        leave_peer-IsCurrent is_up settled id ch im v
    step-IsCurrent is_up settled (configures ids) im v =
        rebuild-IsCurrent is_up true (record im { peer_config = some ids }) v.told v.news
          v.newest_known v.newest_clients
    step-IsCurrent is_up settled stream_changes im v =
        rebuild-IsCurrent is_up true im v.told v.news v.newest_known v.newest_clients
