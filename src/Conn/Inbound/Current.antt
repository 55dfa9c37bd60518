-- ===== src/Conn/Inbound/Current.antt =====
-- The views of internal/conn/inbound_manager.go and what its callback is told of them.
mod Changes
pub mod Steps
use gorums.Prelude.{
  ℕ, suc, ◌≡◌, refl, sym, ap, ◌∙◌, Bool, true, false, not, ◌&&◌, ◌||◌, Option, none, some, List, [],
  ◌∷◌, ◌++◌, map, if◌then◌else◌, nat_beq, is_some, keep, All, All-keep, arith, Bool-cases,
  Option-cases, inl, inr, subst,
}
use gorums.Conn.Streams.{Streams, attach, detach, last, no_streams}
use gorums.Conn.Streams.Active.{last-append}
use gorums.Conn.Inbound.{
  NodeRef, InboundManager, find, assign, delete, own_ref, Views, rebuild_config,
  next_available_client_id, accept_client, leave_client, register_peer, leave_peer, set_peer_config,
  register_known, new_inbound_manager, on_stream_change,
}
use gorums.Conn.Inbound.Assigned.{
  Op, accepts, leaves, registers, unregisters, configures, stream_changes, step,
}
use gorums.Conn.Inbound.Current.Changes.{
  latest, AllNews, IsNewest, detach-IsNewest, detach-keeps, find-IsNewest, assign-IsNewest,
  keep-assign, report_lem, silent,
}
use gorums.Conn.Inbound.Current.Steps.{views, sees, IsCurrent, step-IsCurrent}

-- What happens: an operation, or the streams that the server dials come up or go down, so that
-- from then on these nodes are up.
pub data Event : Type 0 where
  does : Op → Event
  turns : (ℕ → Bool) → Event

-- The nodes that are up, and whether the registry was told since they changed.
pub record World : Type 0 where
  pub registry : InboundManager
  pub is_up : ℕ → Bool
  pub settled : Bool

module _ (sort : List NodeRef → List NodeRef) where
  unfoldable pub happen : World → Event → World
  unfolding step
  happen s (does op) = record s {
    registry = step (views sort s.is_up) s.registry op;
    settled = if sees op then true else s.settled;
  }
  happen s (turns is_up) = record s { is_up = is_up; settled = false }

  unfoldable pub run : World → List Event → World
  unfolding happen
  run s [] = s
  run s (event ∷ events) = run (happen s event) events

  abbrev pub Current : List NodeRef → World → Type 0
  Current view s = IsCurrent sort view s.is_up s.settled s.registry

  happen-Current :
      (view : List NodeRef) (s : World) (event : Event)
      → Current view s
      → Current view (happen s event)
  unfolding happen
  happen-Current view s (does op) v = step-IsCurrent sort view s.is_up s.settled op s.registry v
  happen-Current view s (turns is_up) v = record {
    inbound = v.inbound;
    clients = v.clients;
    fallback = v.fallback;
    connected = λ unsettled. cc;
    told = v.told;
    news = v.news;
    newest_known = v.newest_known;
    newest_clients = v.newest_clients;
  }

  run-keeps :
      (view : List NodeRef) (s : World) (events : List Event)
      → Current view s
      → Current view (run s events)
  unfolding run
  run-keeps view s [] v = v
  run-keeps view s (event ∷ events) v =
      run-keeps view (happen s event) events (happen-Current view s event v)

  register_known-IsNewest : (ids : List ℕ) → All IsNewest (register_known ids)
  unfolding register_known last
  register_known-IsNewest [] = tt
  register_known-IsNewest (id ∷ ids) =
      assign-IsNewest id no_streams (register_known ids) refl (register_known-IsNewest ids)

  abbrev pub begun : (ℕ → Bool) → ℕ → List ℕ → Bool → World
  begun is_up my_id ids reports = record {
    registry = new_inbound_manager (views sort is_up) my_id ids reports;
    is_up = is_up;
    settled = true;
  }

  -- After any history of a new registry, as nodes come up and go down: the inbound view holds each
  -- known peer that has a stream, and the server's own node if it is a known peer, and the client
  -- view each client that has a stream, and no other, in the order of the sort; the newest live
  -- stream of a node is its active one. Before a peer configuration is set, the connected peers are
  -- the inbound view; from then on, whenever the callback of the streams that the server dials has
  -- told the registry since the last change, they are the nodes of the configuration that are up,
  -- with the server's own. The registry's own callback is never told of a view that is no other than
  -- the one before, and was told last of the connected peers as they are now, unless it was not
  -- called and they are those from the beginning.
  pub run-Current :
      (is_up : ℕ → Bool) (my_id : ℕ) (ids : List ℕ) (reports : Bool) (events : List Event)
      → Current
          (begun is_up my_id ids reports).registry.connected_peers
          (run (begun is_up my_id ids reports) events)
  unfolding new_inbound_manager rebuild_config
  run-Current is_up my_id ids reports events =
      let s = begun is_up my_id ids reports in
      let view = s.registry.connected_peers in
      let none_told = silent [] view [] in
      run-keeps view s events record {
        inbound = refl;
        clients = refl;
        fallback = λ _. refl;
        connected = λ _ ids' e. cc;
        told = λ _. ap (latest view) none_told;
        news = subst (AllNews view) (sym none_told) tt;
        newest_known = register_known-IsNewest ids;
        newest_clients = tt;
      }
