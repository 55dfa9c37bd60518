-- ===== src/Conn/Nodes/Tests.antt =====
-- The theorems on the builder and the pool, at concrete nodes.
use gorums.Prelude.{
  ℕ, ◌≡◌, refl, Bool, true, false, none, some, List, [], ◌∷◌, nat_beq, if◌then◌else◌,
}
use gorums.Conn.Config.{Node, SortFunc}
use gorums.Conn.Pool.{PoolNode, dialed, made, comparable_addr, Net, DialOptions, new_pool}
use gorums.Conn.Pool.Distinct.{new-IsPoolState}
use gorums.Conn.Pool.Closing.{
  makes, takes_turn, adds, starts_close, closes, run, new_shared, held, count, made_by, close_once,
}
use gorums.Conn.Nodes.{new_config_map, new_config_list}
use gorums.Conn.Nodes.Built.{Built, numbered, new_config_lem}
use gorums.Conn.Nodes.Complete.{new_config_map_complete}

-- The addresses are their own resolved form, but for 100, which is 1, and 99, which is no address.
abbrev net : Net
net = record {
  resolve = λ a. if nat_beq a 99 then none else if nat_beq a 100 then some 1 else some a;
  dial = λ _. none;
}

-- Entries that come in the order of their IDs are left in it.
abbrev no_sort : SortFunc
no_sort cmp c = c

abbrev client : DialOptions
client = record {
  credentials = false;
  handler = false;
  local_node_id = 0;
  stream_dedup = false;
  inbound_manager = none;
}

-- A server with ID 2, which takes the stream of peer 1.
abbrev server : DialOptions
server = record {
  credentials = true;
  handler = true;
  local_node_id = 2;
  stream_dedup = true;
  inbound_manager = some (record {
    known_peer = λ i. if nat_beq i 1 then some 100 else if nat_beq i 3 then some 3 else none;
    verify = some 8;
  });
}

abbrev peers : List (ℕ × ℕ)
peers = (1, 1) ∷ (2, 2) ∷ (3, 3) ∷ []

new_config_lem_example :
    Built net server no_sort peers
      (new_pool 5)
      (new_config_map net server no_sort (made none) peers (new_pool 5))
    × Built net server no_sort
        (numbered net (new_pool 5) (7 ∷ 99 ∷ []))
        (new_pool 5)
        (new_config_list net server no_sort (7 ∷ 99 ∷ []) (new_pool 5))
new_config_lem_example =
    new_config_lem net server no_sort (new_pool 5) (new-IsPoolState net server 5) (made none) peers
      (7 ∷ 99 ∷ [])

new_config_map_complete_example :
    (c : List Node) × ((new_config_map net client no_sort (made none) peers (new_pool 5)).1
      ≡ made c)
unfolding comparable_addr
new_config_map_complete_example =
    new_config_map_complete net client refl no_sort 5 (1, 1) ((2, 2) ∷ (3, 3) ∷ [])
      (sound, ((refl, refl), ((refl, refl), tt)), (sound, ((refl, refl), tt), (sound, tt, tt)))
  where
    sound : (false ≡ false) × (true ≡ true) × (net.dial 0 ≡ none)
    sound = (refl, refl, refl)

abbrev node_at : ℕ → PoolNode
node_at i = record { node = record { id = i; addr = i; mgr = some 5 }; link = dialed none }

abbrev any : PoolNode → Bool
any n = true

-- The pool closes while a second node is made.
close_once_example :
    let ops =
      makes (node_at 1)
      ∷ adds
      ∷ makes (node_at 2)
      ∷ starts_close
      ∷ closes
      ∷ takes_turn
      ∷ adds
      ∷ [] in
    let s = run (new_shared 5) ops in
    (held any s ≡ count any (made_by ops))
    × (s.pool.closed ≡ false → s.pool.released ≡ [])
    × (s.pool.closed ≡ true
        → s.in_flight ≡ []
        → s.to_close ≡ []
        → count any s.pool.released ≡ count any (made_by ops))
close_once_example =
    close_once any 5 (
      makes (node_at 1) ∷ adds ∷ makes (node_at 2) ∷ starts_close ∷ closes ∷ takes_turn ∷ adds ∷ [])
