-- ===== src/Conn/PeerVerifier/Tests.antt =====
-- The theorems on identities, at concrete nodes.
use gorums.Prelude.{
  ℕ, ◌+◌, ◌≡◌, ◌↔◌, refl, true, false, ◌&&◌, none, some, List, [], ◌∷◌, if◌then◌else◌, leb,
  contains, comparable_nat, map,
}
use gorums.Conn.PeerVerifier.{
  Text, Library, PeerIdentity, NodeAddress, has_identity, Want, no_verifier, verifier, no_such,
  same_identity, new_peer_verifier, Certificate, Remote, wanted, has_san, verify,
}
use gorums.Conn.PeerVerifier.Wants.{AreWanted, AllDiffer, new_peer_verifier_lem}
use gorums.Conn.PeerVerifier.Accepts.{named, verify_lem}

abbrev lower : ℕ → ℕ
lower c = if leb 65 c && leb c 90 then c + 32 else c

-- A text with a colon is a URL; no text is an address.
abbrev library : Library
library = record {
  is_ip = λ _. false;
  split_host_port = λ _. none;
  is_port = λ _. false;
  parse_url = λ s. if contains s 58 then some s else none;
  fold = λ s. map lower s;
}

abbrev declares : Text → NodeAddress
declares s = record { addr = 0; identity = some s }

-- "a", "b.c" and "x:y".
abbrev nodes : List (ℕ × NodeAddress)
nodes =
    (1, declares (97 ∷ []))
    ∷ (2, declares (98 ∷ 46 ∷ 99 ∷ []))
    ∷ (3, declares (120 ∷ 58 ∷ 121 ∷ []))
    ∷ []

abbrev want : Want
want =
    (1, record { name = 97 ∷ []; uri = false })
    ∷ (2, record { name = 98 ∷ 46 ∷ 99 ∷ []; uri = false })
    ∷ (3, record { name = 120 ∷ 58 ∷ 121 ∷ []; uri = true })
    ∷ []

made : new_peer_verifier library nodes ≡ verifier want
unfolding new_peer_verifier
made = refl

-- "a" and "A" name the same.
alike :
    new_peer_verifier library ((1, declares (97 ∷ [])) ∷ (2, declares (65 ∷ [])) ∷ [])
    ≡ no_such (same_identity 1 2)
unfolding new_peer_verifier
alike = refl

new_peer_verifier_lem_example :
    ((new_peer_verifier library nodes ≡ verifier want)
      ↔ ((has_identity nodes ≡ true) × AreWanted library nodes want × AllDiffer library want))
    × ((new_peer_verifier library nodes ≡ no_verifier) ↔ (has_identity nodes ≡ false))
new_peer_verifier_lem_example = new_peer_verifier_lem library nodes want

verify_lem_example :
    ((remote : Remote) (id : ℕ)
      → verify library want remote id ≡ none
      → (cert : Certificate) × (certs : List Certificate) × (chains : List (List Certificate))
        × (p : PeerIdentity) × (remote ≡ some (some ((cert ∷ certs) ∷ chains)))
        × (wanted id want ≡ some p)
        × (has_san library p cert ≡ true))
    × ((p : PeerIdentity) (certs : List Certificate) (chains : List (List Certificate)) (i j : ℕ)
        → let remote : Remote = some (some ((named p ∷ certs) ∷ chains)) in
          verify library want remote i ≡ none → verify library want remote j ≡ none → i ≡ j)
verify_lem_example = verify_lem library nodes want made
