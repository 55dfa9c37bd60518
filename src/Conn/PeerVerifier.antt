-- ===== src/Conn/PeerVerifier.antt =====
-- internal/conn/peer_verifier.go: the identities of nodes, and the check of a remote end. A text is the
-- list of its bytes. The wrapped credentials are left out.
pub mod Wants
pub mod Accepts
mod Tests
use gorums.Prelude.{
  ℕ, Bool, true, false, not, ◌&&◌, ◌||◌, Option, none, some, List, [], ◌∷◌, ◌++◌, if◌then◌else◌,
  ltb, leb, nat_beq, is_some, contains, comparable_nat,
}

abbrev pub Text : Type 0
Text = List ℕ

unfoldable pub same_text : Text → Text → Bool
same_text [] [] = true
same_text [] (_ ∷ _) = false
same_text (_ ∷ _) [] = false
same_text (c ∷ s) (d ∷ t) = if nat_beq c d then same_text s t else false

-- What the standard library tells of a text: whether it is an IP address, the port after its host,
-- whether a port is a number of 16 bits, the text of a URL that has a scheme, and the case folding that
-- `strings.EqualFold` compares under.
pub record Library : Type 0 where
  pub is_ip : Text → Bool
  pub split_host_port : Text → Option Text
  pub is_port : Text → Bool
  pub parse_url : Text → Option Text
  pub fold : Text → Text

unfoldable pub equal_fold : Library → Text → Text → Bool
unfolding same_text
equal_fold lib s t = same_text (lib.fold s) (lib.fold t)

pub record PeerIdentity : Type 0 where
  pub name : Text
  pub uri : Bool

unfoldable pub same : Library → PeerIdentity → PeerIdentity → Bool
unfolding same_text equal_fold
same lib p q =
    if p.uri
    then if q.uri then same_text p.name q.name else false
    else if q.uri
    then false
    else equal_fold lib p.name q.name

pub data BadIdentity : Type 0 where
  not_printable network_address wildcard not_a_name : BadIdentity

pub data Parsed : Type 0 where
  parsed : PeerIdentity → Parsed
  bad : BadIdentity → Parsed

unfoldable pub is_printable : Text → Bool
is_printable [] = true
is_printable (c ∷ s) = if leb c 32 || ltb 126 c then false else is_printable s

unfoldable pub is_network_address : Library → Text → Bool
is_network_address lib s =
    if lib.is_ip s
    then true
    else elim (lib.split_host_port s) [ none ↦ false | some port ↦ lib.is_port port ]

-- `strings.SplitSeq(s, ".")`
unfoldable pub and_byte : ℕ → List Text → List Text
and_byte c [] = (c ∷ []) ∷ []
and_byte c (label ∷ labels) = (c ∷ label) ∷ labels

unfoldable pub split_dots : Text → List Text
unfolding and_byte
split_dots [] = [] ∷ []
split_dots (c ∷ s) = let rest = split_dots s in if nat_beq c 46 then [] ∷ rest else and_byte c rest

unfoldable pub is_label_byte : ℕ → Bool
is_label_byte c =
    (leb 97 c && leb c 122)
    || (leb 65 c && leb c 90)
    || (leb 48 c && leb c 57)
    || nat_beq c 45
    || nat_beq c 95

unfoldable pub all_label_bytes : Text → Bool
unfolding is_label_byte
all_label_bytes [] = true
all_label_bytes (c ∷ s) = if is_label_byte c then all_label_bytes s else false

unfoldable pub are_labels : List Text → Bool
unfolding all_label_bytes
are_labels [] = true
are_labels ([] ∷ labels) = false
are_labels ((c ∷ s) ∷ labels) = if all_label_bytes (c ∷ s) then are_labels labels else false

unfoldable pub is_dns_name : Text → Bool
unfolding split_dots are_labels
is_dns_name s = are_labels (split_dots s)

-- `parseIdentity`, from the check for a URL on.
unfoldable pub parse_name : Text → Option Text → Parsed
unfolding is_dns_name
parse_name s (some url) = parsed (record { name = url; uri = true })
parse_name s none =
    if contains s 42
    then bad wildcard
    else if not (is_dns_name s)
    then bad not_a_name
    else parsed (record { name = s; uri = false })

unfoldable pub parse_identity : Library → Text → Parsed
unfolding is_printable is_network_address parse_name
parse_identity lib s =
    if not (is_printable s)
    then bad not_printable
    else if is_network_address lib s
    then bad network_address
    else parse_name s (lib.parse_url s)

-- `identity` is none where `hasIdentity` is false.
pub record NodeAddress : Type 0 where
  pub addr : ℕ
  pub identity : Option Text

unfoldable pub has_identity : List (ℕ × NodeAddress) → Bool
has_identity [] = false
has_identity ((id, node) ∷ nm) = if is_some node.identity then true else has_identity nm

pub data VerifierError : Type 0 where
  no_identity empty_identity : ℕ → VerifierError
  invalid_identity : ℕ → BadIdentity → VerifierError
  same_identity : ℕ → ℕ → VerifierError

abbrev pub Want : Type 0
Want = List (ℕ × PeerIdentity)

-- The map `want`, in the order of the IDs, or an error.
pub data Wanted : Type 0 where
  wants : Want → Wanted
  refused : VerifierError → Wanted

unfoldable pub and_want : ℕ → PeerIdentity → Wanted → Wanted
and_want id p (wants w) = wants ((id, p) ∷ w)
and_want id p (refused e) = refused e

-- The identity of a node, and the loop over the nodes after it.
unfoldable pub want_node : Library → ℕ → Option Text → Wanted → Wanted
unfolding parse_identity and_want
want_node lib id none rest = refused (no_identity id)
want_node lib id (some []) rest = refused (empty_identity id)
want_node lib id (some (c ∷ s)) rest = elim (parse_identity lib (c ∷ s)) [
  | bad why ↦ refused (invalid_identity id why)
  | parsed p ↦ and_want id p rest
]

unfoldable pub want_all : Library → List (ℕ × NodeAddress) → Wanted
unfolding want_node
want_all lib [] = wants []
want_all lib ((id, node) ∷ nm) = want_node lib id node.identity (want_all lib nm)

-- The lower ID that has the same identity.
unfoldable pub same_before : Library → Want → PeerIdentity → Option ℕ
unfolding same
same_before lib [] p = none
same_before lib ((id, q) ∷ lower) p = if same lib q p then some id else same_before lib lower p

unfoldable pub same_pair : Library → Want → Want → Option VerifierError
unfolding same_before
same_pair lib lower [] = none
same_pair lib lower ((id, p) ∷ w) =
    let rest = same_pair lib (lower ++ (id, p) ∷ []) w in
    elim (same_before lib lower p) [ some other ↦ some (same_identity other id) | none ↦ rest ]

-- What `NewPeerVerifier` returns: no verifier, one that wants identities, or an error.
pub data NewVerifier : Type 0 where
  no_verifier : NewVerifier
  verifier : Want → NewVerifier
  no_such : VerifierError → NewVerifier

unfoldable pub check_wanted : Library → Wanted → NewVerifier
unfolding same_pair
check_wanted lib (refused e) = no_such e
check_wanted lib (wants w) = elim (same_pair lib [] w) [ none ↦ verifier w | some e ↦ no_such e ]

unfoldable pub new_peer_verifier : Library → List (ℕ × NodeAddress) → NewVerifier
unfolding has_identity want_all check_wanted
new_peer_verifier lib nm =
    if not (has_identity nm) then no_verifier else check_wanted lib (want_all lib nm)

pub record Certificate : Type 0 where
  pub uris : List Text
  pub dns_names : List Text

-- The remote end: its peer information, the TLS state of it, and the verified chains.
abbrev pub Remote : Type 0
Remote = Option (Option (List (List Certificate)))

pub data Refusal : Type 0 where
  no_peer no_tls no_certificate : Refusal
  no_identity_configured no_such_san : ℕ → Refusal

unfoldable pub wanted : ℕ → Want → Option PeerIdentity
wanted id [] = none
wanted id ((j, p) ∷ w) = if nat_beq j id then some p else wanted id w

unfoldable pub any_text : (Text → Bool) → List Text → Bool
any_text f [] = false
any_text f (t ∷ ts) = if f t then true else any_text f ts

-- The identity is one of the certificate's names.
unfoldable pub has_san : Library → PeerIdentity → Certificate → Bool
unfolding same_text equal_fold any_text
has_san lib p cert =
    if p.uri
    then any_text (λ u. same_text u p.name) cert.uris
    else any_text (λ n. equal_fold lib n p.name) cert.dns_names

-- The verifier, on the first certificate of the first chain: none for an accepted remote end.
unfoldable pub verify_certificate : Library → Want → Certificate → ℕ → Option Refusal
unfolding wanted has_san
verify_certificate lib w cert id = elim (wanted id w) [
  | none ↦ some (no_identity_configured id)
  | some p ↦ if has_san lib p cert then none else some (no_such_san id)
]

unfoldable pub verify_chains : Library → Want → List (List Certificate) → ℕ → Option Refusal
unfolding verify_certificate
verify_chains lib w [] id = some no_certificate
verify_chains lib w ([] ∷ chains) id = some no_certificate
verify_chains lib w ((cert ∷ certs) ∷ chains) id = verify_certificate lib w cert id

unfoldable pub verify : Library → Want → Remote → ℕ → Option Refusal
unfolding verify_chains
verify lib w none id = some no_peer
verify lib w (some none) id = some no_tls
verify lib w (some (some chains)) id = verify_chains lib w chains id
