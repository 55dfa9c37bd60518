-- ===== src/Conn/Inbound/ClientIds.antt =====
-- The IDs that internal/conn/inbound_manager.go gives to clients.
use gorums.Prelude.{
  ℕ, zero, suc, ◌+◌, ◌-◌, ◌≤◌, ◌<◌, ◌≡◌, refl, Bool, true, false, Option, none, some, if◌then◌else◌,
  leb, nat_beq, is_some, arith, Bool-cases, inl, inr, subst, ◌⊎◌,
}
use gorums.Conn.Inbound.{InboundManager, max_node_id, find, next_id_loop, next_available_client_id}

abbrev pub is_occupied : InboundManager → ℕ → Bool
is_occupied im id =
    if is_some (find id im.known_nodes) then true else is_some (find id im.client_nodes)

abbrev pub Found : InboundManager → ℕ → Option ℕ × ℕ → Type 0
Found im from (some id, next) =
    (from ≤ id)
    × (id ≤ max_node_id)
    × (is_occupied im id ≡ false)
    × ((i : ℕ) → from ≤ i → i < id → is_occupied im i ≡ true)
    × (next ≡ suc id)
Found im from (none, next) =
    ((i : ℕ) → from ≤ i → i ≤ max_node_id → is_occupied im i ≡ true) × (next ≡ suc max_node_id)

leb_yes : (a b : ℕ) → a ≤ b → leb a b ≡ true
leb_yes a b h = ground arith

next_id_loop_lem :
    (fuel : ℕ) (im : InboundManager) (next : ℕ)
    → fuel + next ≡ suc max_node_id
    → Found im next (next_id_loop fuel im next)
unfolding next_id_loop
next_id_loop_lem zero im next e = (λ i a b. absurd (omega arith), omega arith)
next_id_loop_lem (suc fuel) im next e = elim (Bool-cases (is_some (find next im.known_nodes))) [
  | inl known ↦
      rw (next_id_loop, leb_yes next max_node_id (omega arith), known)
        (passed (next_id_loop fuel im (suc next)) (rw known)
          (next_id_loop_lem fuel im (suc next) (omega arith)))
  | inr other ↦ elim (Bool-cases (is_some (find next im.client_nodes))) [
    | inl client ↦
        rw (next_id_loop, leb_yes next max_node_id (omega arith), other, client)
          (passed (next_id_loop fuel im (suc next)) (rw (other, client))
            (next_id_loop_lem fuel im (suc next) (omega arith)))
    | inr free ↦
        rw (next_id_loop, leb_yes next max_node_id (omega arith), other, free)
          (omega arith, omega arith, rw (other, free), (λ i a b. absurd (omega arith)), refl)
  ]
]
  where
    at_or_after : (i : ℕ) → next ≤ i → (next ≡ i) ⊎ (suc next ≤ i)
    at_or_after i h = elim (Bool-cases (nat_beq next i)) [
      | inl same ↦ inl (ground arith)
      | inr other ↦ inr (ground arith)
    ]

    passed :
        (t : Option ℕ × ℕ) → is_occupied im next ≡ true → Found im (suc next) t → Found im next t
    passed (some id, later) occ (a, b, c, d, f) = (
      omega arith,
      b,
      c,
      λ i x y. elim (at_or_after i x) [
        | inl same ↦ subst (λ k. is_occupied im k ≡ true) same occ
        | inr after ↦ d i after y
      ],
      f,
    )
    passed (none, later) occ (d, f) = (
      λ i x y. elim (at_or_after i x) [
        | inl same ↦ subst (λ k. is_occupied im k ≡ true) same occ
        | inr after ↦ d i after y
      ],
      f,
    )

-- A client gets the least ID that is at least the next candidate and that no known peer and no
-- client has, within 32 bits, and the candidate after it is the next one. It gets none only when
-- every ID from the candidate on is taken.
pub next_available_client_id_lem :
    (im : InboundManager)
    → im.next_client_id ≤ suc max_node_id
    → Found im im.next_client_id
        ((next_available_client_id im).1, (next_available_client_id im).0.next_client_id)
unfolding next_available_client_id
next_available_client_id_lem im h =
    next_id_loop_lem (suc max_node_id - im.next_client_id) im im.next_client_id (omega arith)
