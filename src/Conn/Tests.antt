-- ===== src/Conn/Tests.antt =====
-- The theorems on internal/conn at concrete configurations, with an insertion sort.
use gorums.Prelude.{
  ℕ, zero, suc, ◌+◌, ◌≤◌, ◌≡◌, refl, Bool, true, false, not, ◌&&◌, Option, none, some, List, [],
  ◌∷◌, if◌then◌else◌, nat_beq, ltb, comparable_nat, arith, Bool-cases, inl, inr, subst,
}
use gorums.Prelude.Int.{ℤ, pos, negsuc}
use gorums.Prelude.Go.{panics, Returns}
use gorums.Conn.Pool.{Net, DialOptions, new_pool, made}
use gorums.Conn.Pool.Distinct.{new-IsPoolState}
use gorums.Conn.Opening.{of_map, of_list, new_config, extend}
use gorums.Conn.Opening.Releases.{Settled, open_lem}
use gorums.Conn.Opening.Extends.{Extended, Opens, entries_of, extend_lem}
use gorums.Errors.{Error, stream_down, Error-eq}
use gorums.Conn.Config.{Node, Pools, by_id, SortFunc, has, add, equal, tick, receive}
use gorums.Conn.Config.Algebra.{count, IsSorted, Sorts, add_unpooled}
use gorums.Conn.Config.Watches.{ticks, watch_starves}
use gorums.Conn.Streams.{no_streams, last, attach}
use gorums.Conn.Streams.Active
use gorums.Conn.Inbound.{InboundManager, Views, accept_peer, is_known, node_id, client_id_start}
use gorums.Conn.Inbound.Assigned
use gorums.Conn.Inbound.Admissions.{passes, is_peer, is_client, is_untracked, accept_peer_lem}

at_most_zero : ℤ → Bool
at_most_zero (negsuc _) = true
at_most_zero (pos zero) = true
at_most_zero (pos (suc _)) = false

insert : (Node → Node → ℤ) → Node → List Node → List Node
unfolding at_most_zero
insert cmp n [] = n ∷ []
insert cmp n (m ∷ c) =
    let rest = insert cmp n c in if at_most_zero (cmp n m) then n ∷ m ∷ c else m ∷ rest

abbrev insertion_sort : SortFunc
insertion_sort cmp [] = []
insertion_sort cmp (n ∷ c) = insert cmp n (insertion_sort cmp c)

insert-same :
    (n : Node) (c : List Node) (f : Node → Bool)
    → count f (insert by_id n c) ≡ (if f n then 1 else 0) + count f c
unfolding insert count
insert-same n [] f = refl
insert-same n (m ∷ c) f = ground (arith, insert-same n c f)

sort-same : (c : List Node) (f : Node → Bool) → count f (insertion_sort by_id c) ≡ count f c
unfolding count
sort-same [] f = refl
sort-same (n ∷ c) f = omega (arith, sort-same c f, insert-same n (insertion_sort by_id c) f)

by_id-below : (n m : Node) → at_most_zero (by_id n m) ≡ true → n.id ≤ m.id
unfolding at_most_zero by_id
by_id-below n m h = ground arith

by_id-above : (n m : Node) → at_most_zero (by_id n m) ≡ false → m.id ≤ n.id
unfolding at_most_zero by_id
by_id-above n m h = ground arith

insert-IsSorted : (n : Node) (c : List Node) → IsSorted c → IsSorted (insert by_id n c)
unfolding insert
insert-IsSorted n [] s = tt
insert-IsSorted n (m ∷ []) s = elim (Bool-cases (at_most_zero (by_id n m))) [
  | inl below ↦ rw below (by_id-below n m below, tt)
  | inr above ↦ rw above (by_id-above n m above, tt)
]
insert-IsSorted n (m ∷ o ∷ c) s =
    let ih = insert-IsSorted n (o ∷ c) s.1 in
    elim (Bool-cases (at_most_zero (by_id n m))) [
      | inl below ↦ rw below (by_id-below n m below, s)
      | inr above ↦ elim (Bool-cases (at_most_zero (by_id n o))) [
        | inl between ↦ rw (above, between) (by_id-above n m above, (by_id-below n o between, s.1))
        | inr beyond ↦
            rw (above, beyond)
              (s.0, subst (λ b. IsSorted (if b then n ∷ o ∷ c else o ∷ insert by_id n c)) beyond ih)
      ]
    ]

sort-IsSorted : (c : List Node) → IsSorted (insertion_sort by_id c)
sort-IsSorted [] = tt
sort-IsSorted (n ∷ c) = insert-IsSorted n (insertion_sort by_id c) (sort-IsSorted c)

sorts : Sorts insertion_sort
sorts = record { same = sort-same; sorted = sort-IsSorted }

-- A node of pool 0, and one of no pool.
abbrev pooled : ℕ → Node
pooled id = record { id = id; addr = id; mgr = some 0 }

abbrev unpooled : ℕ → Node
unpooled id = record { id = id; addr = id; mgr = none }

abbrev pools : Pools
pools m id = if ltb id 9 then some (pooled id) else none

abbrev pair : List Node
pair = pooled 3 ∷ pooled 5 ∷ []

add_unpooled_example : add pools insertion_sort (unpooled 3 ∷ []) (4 ∷ []) ≡ panics
unfolding has
add_unpooled_example = add_unpooled insertion_sort sorts pools (unpooled 3) [] refl (4 ∷ [])

abbrev net : Net
net = record { resolve = λ a. if nat_beq a 99 then none else some a; dial = λ _. none }

abbrev dial_options : DialOptions
dial_options = record {
  credentials = true;
  handler = false;
  local_node_id = 0;
  stream_dedup = false;
  inbound_manager = none;
}

open_lem_example :
    Settled (new_config net dial_options insertion_sort (some (of_list (7 ∷ 99 ∷ []))) 0)
    × Opens net dial_options insertion_sort
        (entries_of net (new_pool 0) (some (of_list (7 ∷ 99 ∷ []))))
        (new_config net dial_options insertion_sort (some (of_list (7 ∷ 99 ∷ []))) 0)
open_lem_example = open_lem net dial_options insertion_sort (of_list (7 ∷ 99 ∷ [])) 0

-- Extend by two addresses, of which the second does not resolve, and by a map.
extend_lem_example :
    ((m : ℕ)
      → (pooled 3).mgr ≡ some m
      → Returns
          (Extended net dial_options pair
            (new_pool 0)
            (entries_of net (new_pool 0) (some (of_list (7 ∷ 99 ∷ [])))))
          (extend net dial_options insertion_sort pair (some (of_list (7 ∷ 99 ∷ []))) (new_pool 0)))
    × ((pooled 3).mgr ≡ none
        → (addr : ℕ) (addrs : List ℕ) (e : ℕ × ℕ) (nm : List (ℕ × ℕ)) (verify : Option ℕ)
          (declares : Bool)
        → (extend net dial_options insertion_sort pair (some (of_list (addr ∷ addrs))) (new_pool 0)
            ≡ panics)
          × (extend net dial_options insertion_sort pair
                (some (of_map (made verify) declares (e ∷ nm)))
                (new_pool 0)
              ≡ panics))
extend_lem_example =
    extend_lem net dial_options insertion_sort sorts (pooled 3) (pooled 5 ∷ []) (new_pool 0)
      (new-IsPoolState net dial_options 0) (some (of_list (7 ∷ 99 ∷ [])))

watch_starves_example :
    let (w', got) = receive (tick [] (record { current = pair; channel = some pair })) in
    (got ≡ some pair) × (ticks ([] ∷ [] ∷ []) w' ≡ record { current = []; channel = none })
unfolding equal
watch_starves_example =
    watch_starves (record { current = pair; channel = some pair }) pair [] ([] ∷ [] ∷ []) refl refl
      (refl, (refl, tt))

abbrev stream_ops : List Active.Op
stream_ops = Active.attaches 1 ∷ Active.attaches 2 ∷ Active.detaches 2 ∷ []

run-Streams_example :
    ((Active.run no_streams stream_ops).live ≡ Active.survivors stream_ops)
    × ((Active.run no_streams stream_ops).active ≡ last (Active.survivors stream_ops))
unfolding Active.step attach
run-Streams_example = Active.run-Streams stream_ops (refl, (refl, tt))

abbrev views : Views
views = record { sort = λ refs. refs; is_up = λ _. true }

-- A server with ID 1 and the known peers 1 and 2^20.
abbrev server : InboundManager
server = record {
  my_id = 1;
  known_nodes = (1, no_streams) ∷ (client_id_start, no_streams) ∷ [];
  client_nodes = [];
  peer_config = none;
  connected_peers = [];
  inbound_peers = [];
  connected_clients = [];
  reports = true;
  reported = [];
  next_client_id = client_id_start;
  broadcasts = 0;
}

abbrev events : List Assigned.Op
events = Assigned.accepts 1 ∷ Assigned.registers client_id_start 2 ∷ Assigned.accepts 3 ∷ []

assigned-AscendFrom_example :
    Assigned.AscendFrom server client_id_start (Assigned.assigned views server events)
assigned-AscendFrom_example = Assigned.assigned-AscendFrom views server events (omega arith)

-- The verifier accepts 2^20 only.
abbrev verify : Option (ℕ → Option Error)
verify = some (λ id. if nat_beq id client_id_start then none else some stream_down)

accept_peer_lem_example :
    ((i : ℕ)
      → is_peer (accept_peer server verify (some (some client_id_start))) i
        ≡ nat_beq client_id_start i
          && (is_known server i && (not (nat_beq i 1) && passes verify i)))
    × (is_client (accept_peer server verify (some (some client_id_start))) ≡ false)
    × (is_untracked (accept_peer server verify (some (some client_id_start))) ≡ false)
unfolding node_id is_known
accept_peer_lem_example = accept_peer_lem server verify (some (some client_id_start))
