-- ===== src/Conn/Config/Algebra.antt =====
-- Which nodes the configurations of internal/conn/config.go have.
use gorums.Prelude.{
  ℕ, ◌+◌, ◌≤◌, ◌≡◌, refl, Bool, true, false, not, ◌&&◌, ◌||◌, Option, none, some, List, [], ◌∷◌,
  ◌++◌, if◌then◌else◌, ltb, contains, comparable_nat, nat_beq, keep, is_some, arith, Bool-cases,
  Option-cases, inl, inr, ap, sym, subst, ◌∙◌,
}
use gorums.Prelude.Go.{returns, panics}
use gorums.Errors.{Error, NodeError, QuorumCallError, ErrorsIs}
use gorums.Conn.Config.{
  Node, Pools, by_id, SortFunc, node_ids, node, has, add_loop, add, pool_of, union, remove,
  difference, exclude, exclude_set, without_errors,
}

-- How many nodes pass a test.
unfoldable pub count : (Node → Bool) → List Node → ℕ
count f [] = 0
count f (n ∷ c) = (if f n then 1 else 0) + count f c

-- Each node's ID is at most the next one's.
abbrev pub IsSorted : List Node → Type 0
IsSorted [] = Unit
IsSorted (n ∷ []) = Unit
IsSorted (n ∷ m ∷ c) = (n.id ≤ m.id) × IsSorted (m ∷ c)

-- What the slices package documents of a sort, here by ID: the result has the same elements, each
-- as often, in ascending order.
pub record Sorts (sort_func : SortFunc) : Type 0 where
  pub same : (c : List Node) (f : Node → Bool) → count f (sort_func by_id c) ≡ count f c
  pub sorted : (c : List Node) → IsSorted (sort_func by_id c)

abbrev pub with_id : ℕ → Node → Bool
with_id id n = nat_beq n.id id

has-count : (c : List Node) (id : ℕ) → has c id ≡ ltb 0 (count (with_id id) c)
unfolding has node count
has-count [] id = ground arith
has-count (n ∷ c) id = ground (arith, has-count c id)

count-append : (f : Node → Bool) (c b : List Node) → count f (c ++ b) ≡ count f c + count f b
unfolding count
count-append f [] b = omega arith
count-append f (n ∷ c) b = omega (arith, count-append f c b)

has_cons : (n : Node) (c : List Node) (id : ℕ) → has (n ∷ c) id ≡ nat_beq n.id id || has c id
unfolding has node
has_cons n c id = ground arith

has-append : (c b : List Node) (id : ℕ) → has (c ++ b) id ≡ has c id || has b id
unfolding has node
has-append [] b id = ground arith
has-append (n ∷ c) b id = ground (arith, has-append c b id)

pub contains-node_ids : (c : List Node) (id : ℕ) → contains (node_ids c) id ≡ has c id
unfolding has node
contains-node_ids [] id = ground arith
contains-node_ids (n ∷ c) id = ground (arith, contains-node_ids c id)

has-keep :
    (f : ℕ → Bool) (c : List Node) (id : ℕ) → has (keep (λ n. f n.id) c) id ≡ has c id && f id
unfolding has node
has-keep f [] id = ground arith
has-keep f (n ∷ c) id = elim (Bool-cases (nat_beq n.id id)) [
  | inl here ↦
      let e : n.id ≡ id = ground arith in
      subst (λ i. has (keep (λ n. f n.id) (n ∷ c)) i ≡ has (n ∷ c) i && f i) e
        (ground (arith, has-keep f c n.id))
  | inr there ↦ ground (arith, has-keep f c id, there)
]

has-nil : (id : ℕ) → has [] id ≡ false
unfolding has node
has-nil id = refl

-- A pool knows each of its nodes by the node's ID.
abbrev pub IsPool : (ℕ → Option Node) → Type 0
IsPool lookup = (id : ℕ) (n : Node) → lookup id ≡ some n → n.id ≡ id

abbrev pub knows : (ℕ → Option Node) → ℕ → Bool
knows lookup id = is_some (lookup id)

add_loop_lem :
    (lookup : ℕ → Option Node)
    → IsPool lookup
    → (ids : List ℕ) (nodes : List Node) (seen : List ℕ)
    → ((id : ℕ) → contains seen id ≡ has nodes id)
    → (r : List Node) × (add_loop (some lookup) ids nodes seen ≡ returns r)
      × ((id : ℕ) → has r id ≡ has nodes id || (contains ids id && knows lookup id))
unfolding add_loop
add_loop_lem lookup v [] nodes seen s = (nodes, refl, λ id. ground arith)
add_loop_lem lookup v (j ∷ ids) nodes seen s = elim (Bool-cases (contains seen j)) [
  | inl old ↦
      let (r, e, h) = add_loop_lem lookup v ids nodes seen s in
      (
        r,
        rw old e,
        λ id. elim (Bool-cases (nat_beq j id)) [
          | inl same ↦
              let e : j ≡ id = ground arith in ground (arith, h id, s id, old, ap (contains seen) e)
          | inr other ↦ ground (arith, h id)
        ],
      )
  | inr new ↦ elim (Option-cases (lookup j)) [
    | inl unknown ↦
        let (r, e, h) = add_loop_lem lookup v ids nodes seen s in
        (
          r,
          rw (new, unknown) e,
          λ id. elim (Bool-cases (nat_beq j id)) [
            | inl same ↦ let e : j ≡ id = ground arith in ground (arith, h id, unknown, ap lookup e)
            | inr other ↦ ground (arith, h id)
          ],
        )
    | inr (n, known) ↦
        let (r, e, h) =
          add_loop_lem lookup v ids (nodes ++ n ∷ []) (j ∷ seen) (seen_too j n (v j n known)) in
        (
          r,
          rw (new, known) e,
          λ id. elim (Bool-cases (nat_beq j id)) [
            | inl same ↦
                let e : j ≡ id = ground arith in
                ground (
                  arith,
                  h id,
                  known,
                  ap lookup e,
                  has-append nodes (n ∷ []) id,
                  has_cons n [] id,
                  v j n known,
                  has-nil id,
                )
            | inr other ↦ ground (
              arith,
              h id,
              has-append nodes (n ∷ []) id,
              has_cons n [] id,
              v j n known,
              has-nil id,
            )
          ],
        )
  ]
]
  where
    seen_too :
        (j : ℕ) (n : Node) → n.id ≡ j → (id : ℕ) → contains (j ∷ seen) id ≡ has (nodes ++ n ∷ []) id
    seen_too j n e id =
        ground (arith, s id, has-append nodes (n ∷ []) id, has_cons n [] id, has-nil id)

pool_of-some :
    (pools : Pools) (n : Node) (m : ℕ) → n.mgr ≡ some m → pool_of pools n ≡ some (pools m)
unfolding pool_of
pool_of-some pools n m e = rw e

pool_of-none : (pools : Pools) (n : Node) → n.mgr ≡ none → pool_of pools n ≡ none
unfolding pool_of
pool_of-none pools n e = rw e

abbrev pub has_all : List Node → List ℕ → Bool
has_all c [] = true
has_all c (id ∷ ids) = has c id && has_all c ids

add_loop_unpooled :
    (ids : List ℕ) (c : List Node)
    → add_loop none ids c (node_ids c) ≡ (if has_all c ids then returns c else panics)
unfolding add_loop
add_loop_unpooled [] c = refl
add_loop_unpooled (id ∷ ids) c = ground (arith, contains-node_ids c id, add_loop_unpooled ids c)

module _ (sort_func : SortFunc) (sorts : Sorts sort_func) where
  pub has-sort : (c : List Node) (id : ℕ) → has (sort_func by_id c) id ≡ has c id
  has-sort c id =
      ground (arith, has-count (sort_func by_id c) id, has-count c id, sorts.same c (with_id id))

  module _ (pools : Pools) (n : Node) (c : List Node) where
    -- On a configuration whose nodes belong to a pool, `Add` returns, in the order of IDs, a
    -- configuration with the IDs of the old one and those of the given IDs that the pool knows.
    pub has-add :
        (m : ℕ)
        → n.mgr ≡ some m
        → IsPool (pools m)
        → (ids : List ℕ)
        → (r : List Node) × (add pools sort_func (n ∷ c) ids ≡ returns r)
          × IsSorted r
          × ((id : ℕ) → has r id ≡ has (n ∷ c) id || (contains ids id && knows (pools m) id))
    unfolding add
    has-add m e v ids =
        let (r, f, h) =
          add_loop_lem (pools m) v ids (n ∷ c) (node_ids (n ∷ c)) (contains-node_ids (n ∷ c)) in
        (
          sort_func by_id r,
          rw (pool_of-some pools n m e, f),
          sorts.sorted r,
          λ id. has-sort r id ∙ h id,
        )

    -- On a configuration whose nodes belong to no pool, as those that a server has of its clients,
    -- `Add` panics as soon as it is given an ID that the configuration does not have. It returns the
    -- same nodes in the order of IDs if it is given none.
    pub add_unpooled :
        n.mgr ≡ none
        → (ids : List ℕ)
        → add pools sort_func (n ∷ c) ids
          ≡ (if has_all (n ∷ c) ids then returns (sort_func by_id (n ∷ c)) else panics)
    unfolding add
    add_unpooled e ids =
        rw (pool_of-none pools n e, add_loop_unpooled ids (n ∷ c))
          (elim (Bool-cases (has_all (n ∷ c) ids)) [ inl h ↦ rw h | inr h ↦ rw h ])

    -- The union of two configurations of one pool has the IDs of both.
    pub has-union :
        (m : ℕ)
        → n.mgr ≡ some m
        → IsPool (pools m)
        → (other : List Node) → ((id : ℕ) → has other id ≡ true → knows (pools m) id ≡ true)
        → (r : List Node) × (union pools sort_func (n ∷ c) other ≡ returns r)
          × ((id : ℕ) → has r id ≡ has (n ∷ c) id || has other id)
    unfolding union
    has-union m e v [] k = (n ∷ c, refl, λ id. ground (arith, has-nil id))
    has-union m e v (o ∷ other) k =
        let (r, f, s, h) = has-add m e v (node_ids (o ∷ other)) in
        (r, f, λ id. ground (arith, h id, contains-node_ids (o ∷ other) id, k id))

keep_same : (f g : Node → Bool) (c : List Node) → ((n : Node) → f n ≡ g n) → keep f c ≡ keep g c
keep_same f g [] h = refl
keep_same f g (n ∷ c) h = ground (arith, h n, keep_same f g c h)

keep_all : (f : Node → Bool) (c : List Node) → ((n : Node) → f n ≡ true) → keep f c ≡ c
keep_all f [] h = refl
keep_all f (n ∷ c) h = ground (arith, h n, keep_all f c h)

difference-keep : (c other : List Node) → difference c other ≡ keep (λ n. not (has other n.id)) c
unfolding difference remove
difference-keep [] other = refl
difference-keep (n ∷ c) [] =
    sym (keep_all (λ n. not (has [] n.id)) (n ∷ c) (λ n. ap not (has-nil n.id)))
difference-keep (n ∷ c) (m ∷ other) =
    keep_same (λ n. not (contains (node_ids (m ∷ other)) n.id)) (λ n. not (has (m ∷ other) n.id))
      (n ∷ c) (λ n. ap not (contains-node_ids (m ∷ other) n.id))

-- The difference of two configurations has the IDs of the first that the second has not, and it keeps
-- the first one's order: it is a part of it.
pub has-difference :
    (c other : List Node)
    → (difference c other ≡ keep (λ n. not (has other n.id)) c)
      × ((id : ℕ) → has (difference c other) id ≡ has c id && not (has other id))
has-difference c other =
    (difference-keep c other, λ id. rw difference-keep (has-keep (λ i. not (has other i)) c id))

-- The nodes that `WithoutErrors` leaves out are those with a node error that is one of the given
-- errors, by `errors.Is`, or with any node error if no error is given.
abbrev pub is_named : ErrorsIs → List Error → List NodeError → ℕ → Bool
is_named lib types [] id = false
is_named lib types (ne ∷ errs) id =
    let rest = is_named lib types errs id in
    if nat_beq ne.node_id id && exclude lib types ne.cause then true else rest

contains-exclude_set :
    (lib : ErrorsIs) (types : List Error) (errs : List NodeError) (id : ℕ)
    → contains (exclude_set lib types errs) id ≡ is_named lib types errs id
unfolding exclude_set
contains-exclude_set lib types [] id = refl
contains-exclude_set lib types (ne ∷ errs) id =
    ground (arith, contains-exclude_set lib types errs id)

-- `WithoutErrors` keeps, in their order, the nodes without a node error that counts, and no other:
-- one with an error that is one of the given errors, or any if none is given.
pub has-without_errors :
    (lib : ErrorsIs) (c : List Node) (err : QuorumCallError) (types : List Error)
    → (without_errors lib c err types ≡ keep (λ n. not (is_named lib types err.errors n.id)) c)
      × ((id : ℕ)
          → has (without_errors lib c err types) id
            ≡ has c id && not (is_named lib types err.errors id))
unfolding without_errors
has-without_errors lib c err types =
    let same =
      keep_same (λ n. not (contains (exclude_set lib types err.errors) n.id))
        (λ n. not (is_named lib types err.errors n.id)) c
        (λ n. ap not (contains-exclude_set lib types err.errors n.id)) in
    (same, λ id. rw same (has-keep (λ i. not (is_named lib types err.errors i)) c id))
