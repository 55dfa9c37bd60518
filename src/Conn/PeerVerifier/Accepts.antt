-- ===== src/Conn/PeerVerifier/Accepts.antt =====
-- Whom a verifier of internal/conn/peer_verifier.go accepts.
use gorums.Prelude.{
  ℕ, ◌≡◌, ◌⊎◌, refl, Bool, true, false, none, some, List, [], ◌∷◌, if◌then◌else◌, nat_beq, All,
  arith, ap, subst, ◌∙◌, Bool-cases, Option-cases, inl, inr,
}
use gorums.Conn.PeerVerifier.{
  Text, same_text, Library, equal_fold, PeerIdentity, same, NodeAddress, Want, verifier,
  new_peer_verifier, Certificate, Remote, wanted, any_text, has_san, verify_certificate,
  verify_chains, verify,
}
use gorums.Conn.PeerVerifier.Wants.{AllDiffer, new_peer_verifier_lem}

same_text-eq : (s t : Text) → same_text s t ≡ true → s ≡ t
unfolding same_text
same_text-eq [] [] h = refl
same_text-eq [] (_ ∷ _) h = absurd cc
same_text-eq (_ ∷ _) [] h = absurd cc
same_text-eq (c ∷ s) (d ∷ t) h =
    let e : c ≡ d = ground arith in
    let rest = same_text-eq s t (ground arith) in ap (λ x. x ∷ s) e ∙ ap (◌∷◌ d) rest

-- A certificate with one name.
abbrev pub named : PeerIdentity → Certificate
named p =
    if p.uri
    then record { uris = p.name ∷ []; dns_names = [] }
    else record { uris = []; dns_names = p.name ∷ [] }

module _ (lib : Library) where
  same_by :
      (pu qu : Bool) (s t : Text)
      → let p : PeerIdentity = record { name = s; uri = pu } in
        let q : PeerIdentity = record { name = t; uri = qu } in
        has_san lib q (named p) ≡ true → same lib p q ≡ true
  unfolding has_san any_text same
  same_by true true s t h = ground arith
  same_by true false s t h = ground arith
  same_by false true s t h = ground arith
  same_by false false s t h = ground arith

  has_san-same : (p q : PeerIdentity) → has_san lib q (named p) ≡ true → same lib p q ≡ true
  has_san-same p q h = same_by p.uri q.uri p.name q.name h

  same_text-both :
      (s t u : Text) → same_text s t ≡ true → same_text s u ≡ true → same_text t u ≡ true
  same_text-both s t u h g = subst (λ x. same_text x u ≡ true) (same_text-eq s t h) g

  both_by :
      (pu qu ru : Bool) (s t u : Text)
      → let p : PeerIdentity = record { name = s; uri = pu } in
        let q : PeerIdentity = record { name = t; uri = qu } in
        let r : PeerIdentity = record { name = u; uri = ru } in
        same lib p q ≡ true → same lib p r ≡ true → same lib q r ≡ true
  unfolding same equal_fold
  both_by true true true s t u h g = same_text-both s t u h g
  both_by true true false s t u h g = absurd cc
  both_by true false ru s t u h g = absurd cc
  both_by false true ru s t u h g = absurd cc
  both_by false false true s t u h g = absurd cc
  both_by false false false s t u h g = same_text-both (lib.fold s) (lib.fold t) (lib.fold u) h g

  same-both :
      (p q r : PeerIdentity) → same lib p q ≡ true → same lib p r ≡ true → same lib q r ≡ true
  same-both p q r = both_by p.uri q.uri r.uri p.name q.name r.name

  All-wanted :
      (r q : PeerIdentity) (w : Want) (j : ℕ)
      → All (λ e. same lib r e.1 ≡ false) w
      → wanted j w ≡ some q
      → same lib r q ≡ false
  unfolding wanted
  All-wanted r q [] j d g = absurd cc
  All-wanted r q ((k, s) ∷ w) j d g = elim (Bool-cases (nat_beq k j)) [
    | inl here ↦ let e : s ≡ q = ground (arith, here) in subst (λ x. same lib r x ≡ false) e d.0
    | inr there ↦ All-wanted r q w j d.1 (ground (arith, there))
  ]

  -- Identities under different IDs differ.
  wanted-AllDiffer :
      (w : Want) (i j : ℕ) (p q : PeerIdentity)
      → AllDiffer lib w
      → wanted i w ≡ some p
      → wanted j w ≡ some q
      → nat_beq i j ≡ false
      → (same lib p q ≡ false) ⊎ (same lib q p ≡ false)
  unfolding wanted
  wanted-AllDiffer [] i j p q d h g n = absurd cc
  wanted-AllDiffer ((k, r) ∷ w) i j p q d h g n = elim (Bool-cases (nat_beq k i)) [
    | inl first ↦
        let e : r ≡ p = ground (arith, first) in
        inl (
          subst (λ x. same lib x q ≡ false) e
            (All-wanted r q w j d.0 (ground (arith, first, n, g))))
    | inr not_first ↦ elim (Bool-cases (nat_beq k j)) [
      | inl second ↦
          let e : r ≡ q = ground (arith, second) in
          inr (
            subst (λ x. same lib x p ≡ false) e
              (All-wanted r p w i d.0 (ground (arith, not_first))))
      | inr not_second ↦
          wanted-AllDiffer w i j p q d.1 (ground (arith, not_first)) (ground (arith, not_second)) n
    ]
  ]

  accepted :
      (w : Want) (cert : Certificate) (id : ℕ)
      → verify_certificate lib w cert id ≡ none
      → (p : PeerIdentity) × (wanted id w ≡ some p) × (has_san lib p cert ≡ true)
  unfolding verify_certificate
  accepted w cert id h = elim (Option-cases (wanted id w)) [
    | inl unknown ↦ absurd (ground (arith, unknown))
    | inr (p, at) ↦ (p, at, ground (arith, at))
  ]

  -- A verifier that `NewPeerVerifier` returns accepts a remote end only for an ID that it has an identity
  -- for, and only on a verified certificate; and it accepts one whose certificate carries a single name
  -- for one ID at most.
  pub verify_lem :
      (nm : List (ℕ × NodeAddress)) (w : Want)
      → new_peer_verifier lib nm ≡ verifier w
      → ((remote : Remote) (id : ℕ)
          → verify lib w remote id ≡ none
          → (cert : Certificate) × (certs : List Certificate) × (chains : List (List Certificate))
            × (p : PeerIdentity) × (remote ≡ some (some ((cert ∷ certs) ∷ chains)))
            × (wanted id w ≡ some p)
            × (has_san lib p cert ≡ true))
        × ((p : PeerIdentity) (certs : List Certificate) (chains : List (List Certificate))
              (i j : ℕ)
            → let remote : Remote = some (some ((named p ∷ certs) ∷ chains)) in
              verify lib w remote i ≡ none → verify lib w remote j ≡ none → i ≡ j)
  unfolding verify verify_chains
  verify_lem nm w made = (holds, once)
    where
      holds :
          (remote : Remote) (id : ℕ)
          → verify lib w remote id ≡ none
          → (cert : Certificate) × (certs : List Certificate) × (chains : List (List Certificate))
            × (p : PeerIdentity) × (remote ≡ some (some ((cert ∷ certs) ∷ chains)))
            × (wanted id w ≡ some p)
            × (has_san lib p cert ≡ true)
      holds none id h = absurd cc
      holds (some none) id h = absurd cc
      holds (some (some [])) id h = absurd cc
      holds (some (some ([] ∷ chains))) id h = absurd cc
      holds (some (some ((cert ∷ certs) ∷ chains))) id h =
          let (p, at, san) = accepted w cert id h in (cert, certs, chains, p, refl, at, san)

      once :
          (p : PeerIdentity) (certs : List Certificate) (chains : List (List Certificate)) (i j : ℕ)
          → let remote : Remote = some (some ((named p ∷ certs) ∷ chains)) in
            verify lib w remote i ≡ none → verify lib w remote j ≡ none → i ≡ j
      once p certs chains i j h g =
          let (q, at, san) = accepted w (named p) i h in
          let (r, there, other) = accepted w (named p) j g in
          let one = has_san-same p q san in
          let two = has_san-same p r other in
          let alike = same-both p q r one two in
          let alike' = same-both p r q two one in
          let differ = ((new_peer_verifier_lem lib nm w).0.0 made).2 in
          elim (Bool-cases (nat_beq i j)) [
            | inl e ↦ ground arith
            | inr n ↦ elim (wanted-AllDiffer w i j q r differ at there n) [
              | inl d ↦ absurd (ground (arith, alike, d))
              | inr d ↦ absurd (ground (arith, alike', d))
            ]
          ]
