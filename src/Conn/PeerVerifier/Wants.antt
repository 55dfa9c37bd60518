-- ===== src/Conn/PeerVerifier/Wants.antt =====
-- For which nodes internal/conn/peer_verifier.go returns a verifier.
use gorums.Prelude.{
  ℕ, ◌≡◌, ◌↔◌, refl, true, false, Option, none, some, List, [], ◌∷◌, ◌++◌, All, All-append,
  All-left, arith, ap, sym, subst, ◌∙◌, Bool-cases, Option-cases, inl, inr,
}
use gorums.Conn.PeerVerifier.{
  Text, Library, PeerIdentity, same, Parsed, parsed, bad, parse_identity, NodeAddress, has_identity,
  invalid_identity, Want, Wanted, wants, refused, and_want, want_node, want_all, same_before,
  same_pair, no_verifier, verifier, check_wanted, new_peer_verifier,
}

module _ (lib : Library) where
  -- The text is a valid identity that is not empty.
  abbrev pub Names : Option Text → PeerIdentity → Type 0
  Names none p = true ≡ false
  Names (some []) p = true ≡ false
  Names (some (c ∷ s)) p = parse_identity lib (c ∷ s) ≡ parsed p

  -- Each node declares its identity.
  abbrev pub AreWanted : List (ℕ × NodeAddress) → Want → Type 0
  AreWanted [] [] = Unit
  AreWanted [] (_ ∷ _) = true ≡ false
  AreWanted (_ ∷ _) [] = true ≡ false
  AreWanted ((id, node) ∷ nm) ((j, p) ∷ w) = (j ≡ id) × Names node.identity p × AreWanted nm w

  -- No two identities name the same.
  abbrev pub AllDiffer : Want → Type 0
  AllDiffer [] = Unit
  AllDiffer ((id, p) ∷ w) = All (λ e. same lib p e.1 ≡ false) w × AllDiffer w

  abbrev Holds : List (ℕ × NodeAddress) → Wanted → Type 0
  Holds nm (wants w) = AreWanted nm w
  Holds nm (refused e) = Unit

  want_node-Holds :
      (id : ℕ) (node : NodeAddress) (identity : Option Text) (nm : List (ℕ × NodeAddress))
      (r : Wanted)
      → node.identity ≡ identity
      → Holds nm r
      → Holds ((id, node) ∷ nm) (want_node lib id identity r)
  unfolding want_node and_want
  want_node-Holds id node none nm r at h = tt
  want_node-Holds id node (some []) nm r at h = tt
  want_node-Holds id node (some (c ∷ s)) nm r at h = by_parse (parse_identity lib (c ∷ s)) refl r h
    where
      by_parse :
          (q : Parsed)
          → parse_identity lib (c ∷ s) ≡ q
          → (r : Wanted) → Holds nm r
          → Holds ((id, node) ∷ nm) (elim q as (λ _. Wanted) [
            | bad why ↦ refused (invalid_identity id why)
            | parsed p ↦ and_want id p r
          ])
      by_parse (bad why) e r h = tt
      by_parse (parsed p) e (refused why) h = tt
      by_parse (parsed p) e (wants w) h = (refl, subst (λ i. Names i p) (sym at) e, h)

  want_all-Holds : (nm : List (ℕ × NodeAddress)) → Holds nm (want_all lib nm)
  unfolding want_all
  want_all-Holds [] = tt
  want_all-Holds ((id, node) ∷ nm) =
      want_node-Holds id node node.identity nm (want_all lib nm) refl (want_all-Holds nm)

  want_node-Names :
      (id : ℕ) (identity : Option Text) (p : PeerIdentity) (r : Wanted)
      → Names identity p
      → want_node lib id identity r ≡ and_want id p r
  unfolding want_node
  want_node-Names id none p r h = absurd cc
  want_node-Names id (some []) p r h = absurd cc
  want_node-Names id (some (c ∷ s)) p r h = rw (h, want_node) refl

  AreWanted-want_all :
      (nm : List (ℕ × NodeAddress)) (w : Want) → AreWanted nm w → want_all lib nm ≡ wants w
  unfolding want_all and_want
  AreWanted-want_all [] [] h = refl
  AreWanted-want_all [] (_ ∷ _) h = absurd cc
  AreWanted-want_all (_ ∷ _) [] h = absurd cc
  AreWanted-want_all ((id, node) ∷ nm) ((j, p) ∷ w) h =
      want_node-Names id node.identity p (want_all lib nm) h.1
      ∙ ap (and_want id p) (AreWanted-want_all nm w h.2)
      ∙ ap (λ i. wants ((i, p) ∷ w)) (sym h.0)

  -- No identity before has the same name.
  abbrev Apart : Want → PeerIdentity → Type 0
  Apart lower p = All (λ l. same lib l.1 p ≡ false) lower

  same_before-Apart :
      (lower : Want) (p : PeerIdentity) → (same_before lib lower p ≡ none) ↔ Apart lower p
  unfolding same_before
  same_before-Apart [] p = (λ _. tt, λ _. refl)
  same_before-Apart ((id, q) ∷ lower) p =
      let ih = same_before-Apart lower p in
      elim (Bool-cases (same lib q p)) [
        | inl hit ↦ (λ h. absurd (ground (arith, hit)), λ h. absurd (ground (arith, hit, h.0)))
        | inr miss ↦
            (λ h. (miss, ih.0 (ground (arith, miss))), λ h. rw (same_before, miss) (ih.1 h.1))
      ]

  Apart-append :
      (lower : Want) (id : ℕ) (p q : PeerIdentity)
      → Apart (lower ++ (id, p) ∷ []) q ↔ (Apart lower q × (same lib p q ≡ false))
  Apart-append lower id p q = (
    λ h. (All-left (λ l. same lib l.1 q ≡ false) lower ((id, p) ∷ []) h, last lower h),
    λ h. All-append (λ l. same lib l.1 q ≡ false) lower ((id, p) ∷ []) h.0 (h.1, tt),
  )
    where
      last : (lower : Want) → Apart (lower ++ (id, p) ∷ []) q → same lib p q ≡ false
      last [] h = h.0
      last (l ∷ lower) h = last lower h.1

  All-Apart-append :
      (lower : Want) (id : ℕ) (p : PeerIdentity) (w : Want)
      → All (λ e. Apart (lower ++ (id, p) ∷ []) e.1) w
        ↔ (All (λ e. Apart lower e.1) w × All (λ e. same lib p e.1 ≡ false) w)
  All-Apart-append lower id p [] = (λ _. (tt, tt), λ _. tt)
  All-Apart-append lower id p ((j, q) ∷ w) =
      let here = Apart-append lower id p q in
      let there = All-Apart-append lower id p w in
      (
        λ h. let (a, b) = here.0 h.0 in let (c, d) = there.0 h.1 in ((a, c), (b, d)),
        λ h. (here.1 (h.0.0, h.1.0), there.1 (h.0.1, h.1.1)),
      )

  same_pair-AllDiffer :
      (lower w : Want)
      → (same_pair lib lower w ≡ none) ↔ (All (λ e. Apart lower e.1) w × AllDiffer w)
  unfolding same_pair
  same_pair-AllDiffer lower [] = (λ _. (tt, tt), λ _. refl)
  same_pair-AllDiffer lower ((id, p) ∷ w) =
      let ih = same_pair-AllDiffer (lower ++ (id, p) ∷ []) w in
      let split = All-Apart-append lower id p w in
      let before = same_before-Apart lower p in
      elim (Option-cases (same_before lib lower p)) [
        | inr (other, hit) ↦
            (λ h. absurd (ground (arith, hit)), λ h. absurd (ground (arith, hit, before.1 h.0.0)))
        | inl free ↦ (
          λ h.
              let (rest, differ) = ih.0 (ground (arith, free)) in
              let (a, b) = split.0 rest in ((before.0 free, a), (b, differ)),
          λ h. rw (free, same_pair) (ih.1 (split.1 (h.0.1, h.1.0), h.1.1)),
        )
      ]

  All-Apart_nil : (w : Want) → All (λ e. Apart [] e.1) w
  All-Apart_nil [] = tt
  All-Apart_nil (e ∷ w) = (tt, All-Apart_nil w)

  check_wanted-verifier :
      (nm : List (ℕ × NodeAddress)) (r : Wanted) (w : Want)
      → Holds nm r
      → check_wanted lib r ≡ verifier w
      → AreWanted nm w × AllDiffer w
  unfolding check_wanted
  check_wanted-verifier nm (refused e) w h c = absurd cc
  check_wanted-verifier nm (wants v) w h c = elim (Option-cases (same_pair lib [] v)) [
    | inr (e, hit) ↦ absurd (ground (arith, hit))
    | inl free ↦
        let e : v ≡ w = ground (arith, free) in
        (subst (AreWanted nm) e h, subst AllDiffer e ((same_pair-AllDiffer [] v).0 free).1)
  ]

  AllDiffer-verifier : (w : Want) → AllDiffer w → check_wanted lib (wants w) ≡ verifier w
  unfolding check_wanted
  AllDiffer-verifier w h =
      let free = (same_pair-AllDiffer [] w).1 (All-Apart_nil w, h) in rw (check_wanted, free) refl

  wanted_some : (r : Wanted) → check_wanted lib r ≡ no_verifier → true ≡ false
  unfolding check_wanted
  wanted_some (refused e) h = absurd cc
  wanted_some (wants w) h = elim (Option-cases (same_pair lib [] w)) [
    | inl free ↦ ground (arith, free)
    | inr (e, hit) ↦ ground (arith, hit)
  ]

  -- `NewPeerVerifier` returns a verifier exactly if some node declares an identity, each node declares one
  -- that is valid and not empty, and no two of them name the same; the verifier then wants of each ID
  -- the identity of its node. It returns none exactly if no node declares an identity.
  pub new_peer_verifier_lem :
      (nm : List (ℕ × NodeAddress)) (w : Want)
      → ((new_peer_verifier lib nm ≡ verifier w)
          ↔ ((has_identity nm ≡ true) × AreWanted nm w × AllDiffer w))
        × ((new_peer_verifier lib nm ≡ no_verifier) ↔ (has_identity nm ≡ false))
  unfolding new_peer_verifier
  new_peer_verifier_lem nm w = elim (Bool-cases (has_identity nm)) [
    | inr bare ↦ (
      (λ h. absurd (ground (arith, bare)), λ h. absurd (ground (arith, bare, h.0))),
      (λ _. bare, λ _. rw (bare, new_peer_verifier) refl),
    )
    | inl declared ↦ (
      (
        λ h.
            let both =
              check_wanted-verifier nm (want_all lib nm) w (want_all-Holds nm)
                (ground (arith, declared)) in
            (declared, both.0, both.1),
        λ h.
            rw (declared, new_peer_verifier)
              (ap (check_wanted lib) (AreWanted-want_all nm w h.1) ∙ AllDiffer-verifier w h.2),
      ),
      (
        λ h. let bad = wanted_some (want_all lib nm) (ground (arith, declared)) in absurd cc,
        λ h. absurd (ground (arith, declared, h)),
      ),
    )
  ]
