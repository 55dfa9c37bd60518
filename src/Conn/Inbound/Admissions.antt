-- ===== src/Conn/Inbound/Admissions.antt =====
-- Which streams internal/conn/inbound_manager.go attaches, serves untracked, or rejects.
use gorums.Prelude.{
  ℕ, ◌≡◌, Bool, true, false, not, ◌&&◌, ◌||◌, Option, none, some, nat_beq, is_some, arith,
}
use gorums.Errors.{Error}
use gorums.Conn.Inbound.{
  InboundManager, is_known, node_id, Admission, own_id, untracked, client, unknown, unverified,
  peer, accept_peer,
}

-- The verifier, if there is one, accepts the ID.
abbrev pub passes : Option (ℕ → Option Error) → ℕ → Bool
passes none id = true
passes (some check) id = not (is_some (check id))

abbrev pub is_peer : Admission → ℕ → Bool
is_peer own_id i = false
is_peer untracked i = false
is_peer client i = false
is_peer (unknown _) i = false
is_peer (unverified _ _) i = false
is_peer (peer j) i = nat_beq j i

abbrev pub is_client : Admission → Bool
is_client client = true
is_client own_id = false
is_client untracked = false
is_client (unknown _) = false
is_client (unverified _ _) = false
is_client (peer _) = false

abbrev pub is_untracked : Admission → Bool
is_untracked untracked = true
is_untracked own_id = false
is_untracked client = false
is_untracked (unknown _) = false
is_untracked (unverified _ _) = false
is_untracked (peer _) = false

-- A stream is attached to the node of peer i exactly if it claims i, i is a known peer and not the
-- server itself, and the verifier, if any, accepts the claim. It becomes a client exactly if it has
-- the key and claims no ID. It is served untracked exactly if it has no key or, without a verifier,
-- if it claims the ID of a node that is neither known nor the server. Any other stream is rejected.
pub accept_peer_lem :
    (im : InboundManager) (verify : Option (ℕ → Option Error)) (key : Option (Option ℕ))
    → ((i : ℕ)
        → is_peer (accept_peer im verify key) i
          ≡ nat_beq (node_id key) i
            && (is_known im i && (not (nat_beq i im.my_id) && passes verify i)))
      × (is_client (accept_peer im verify key) ≡ is_some key && nat_beq (node_id key) 0)
      × (is_untracked (accept_peer im verify key)
          ≡ not (is_some key)
            || (not (nat_beq (node_id key) 0)
                && (not (nat_beq (node_id key) im.my_id)
                    && (not (is_known im (node_id key)) && not (is_some verify)))))
unfolding accept_peer
accept_peer_lem im verify key = (λ i. ground arith, ground arith, ground arith)
