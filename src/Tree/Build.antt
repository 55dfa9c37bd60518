-- ===== src/Tree/Build.antt =====
-- What `NewTree` of tree.go builds.
use native.Mathlib.Numerals.{add-one}
use gorums.Prelude.{
  ℕ, zero, suc, ◌+◌, ◌-◌, ◌≤◌, ◌≡◌, ◌≢◌, refl, Option, none, some, arith, if◌then◌else◌, ltb,
  Bool-cases, Option-cases, inl, inr, List, [], ◌∷◌, length, get_elem?, nat_beq, All, false, subst,
  ap, sym, ◌∙◌, ◌⊎◌, max,
}
use gorums.Prelude.Int.{ℤ, pos, negsuc}
use gorums.Tree.Levels.{geom, tree_level_start_lem}
use gorums.Tree.Positions.{IsShaped}
use gorums.Tree.{
  TreeConfig, TreeOptions, ok, index_nodes, new_tree, new_tree_checked, new_star, tree_level_start,
  max_int,
}

from_zero : (n : ℕ) → 0 + n ≡ n
from_zero n = omega arith

capacity_lem :
    (b d capacity : ℕ)
    → 2 ≤ b
    → tree_level_start (d + 1) b ≡ some capacity
    → (capacity ≡ geom b (suc d)) × (capacity ≤ max_int)
capacity_lem b d capacity h e = ground (arith, add-one d, tree_level_start_lem (suc d) b)

shift : (i j : ℕ) → suc i + j ≡ i + suc j
shift i j = omega arith

module _ {ℓ} {N : Type ℓ} (id_of : N → ℕ) where
  -- The map gives exactly the position of each node, by its ID.
  pub record IsIndexed (t : TreeConfig N) : Type ℓ where
    pub finds : (p : ℕ) (n : N) → get_elem? t.nodes p ≡ some n → t.position_of (id_of n) ≡ some p
    pub found :
        (id p : ℕ)
        → t.position_of id ≡ some p
        → (n : N) × (get_elem? t.nodes p ≡ some n) × (id_of n ≡ id)

  abbrev put : (ℕ → Option ℕ) → N → ℕ → ℕ → Option ℕ
  put positions n i id = if nat_beq (id_of n) id then some i else positions id

  index_nodes-step :
      (i : ℕ) (n : N) (ns : List N) (positions : ℕ → Option ℕ) {q : ℕ → Option ℕ}
      → index_nodes id_of i (n ∷ ns) positions ≡ some q
      → (positions (id_of n) ≡ none) × (index_nodes id_of (suc i) ns (put positions n i) ≡ some q)
  unfolding index_nodes
  index_nodes-step i n ns positions h = elim (Option-cases (positions (id_of n))) [
    | inl new ↦ (new, rw (new, index_nodes) at h)
    | inr (p, old) ↦ cc (rw (old, index_nodes) at h)
  ]

  index_nodes-keeps :
      (i : ℕ) (ns : List N) (positions : ℕ → Option ℕ) {q : ℕ → Option ℕ} (id p : ℕ)
      → index_nodes id_of i ns positions ≡ some q
      → positions id ≡ some p
      → q id ≡ some p
  unfolding index_nodes
  index_nodes-keeps i [] positions id p h g = cc
  index_nodes-keeps i (n ∷ ns) positions id p h g =
      let (new, rest) = index_nodes-step i n ns positions h in
      index_nodes-keeps (suc i) ns (put positions n i) id p rest (ground arith)

  index_nodes-finds :
      (i : ℕ) (ns : List N) (positions : ℕ → Option ℕ) {q : ℕ → Option ℕ} (j : ℕ) (n : N)
      → index_nodes id_of i ns positions ≡ some q
      → get_elem? ns j ≡ some n
      → q (id_of n) ≡ some (i + j)
  index_nodes-finds i [] positions j n h g = cc
  index_nodes-finds i (m ∷ ns) positions zero n h g =
      let (new, rest) = index_nodes-step i m ns positions h in
      index_nodes-keeps (suc i) ns (put positions m i) (id_of n) (i + 0) rest (ground arith)
  index_nodes-finds i (m ∷ ns) positions (suc j) n h g =
      let (new, rest) = index_nodes-step i m ns positions h in
      index_nodes-finds (suc i) ns (put positions m i) j n rest g ∙ ap some (shift i j)

  index_nodes-found :
      (i : ℕ) (ns : List N) (positions : ℕ → Option ℕ) {q : ℕ → Option ℕ} (id p : ℕ)
      → index_nodes id_of i ns positions ≡ some q
      → q id ≡ some p
      → (positions id ≡ some p)
        ⊎ ((j : ℕ) × (n : N) × (p ≡ i + j) × (get_elem? ns j ≡ some n) × (id_of n ≡ id))
  unfolding index_nodes
  index_nodes-found i [] positions id p h g = inl (cc)
  index_nodes-found i (m ∷ ns) positions id p h g =
      let (new, rest) = index_nodes-step i m ns positions h in
      elim (index_nodes-found (suc i) ns (put positions m i) id p rest g) [
        | inr (j, n, e, at, same) ↦ inr (suc j, n, omega arith, at, same)
        | inl old ↦ elim (Bool-cases (nat_beq (id_of m) id)) [
          | inl here ↦ inr (0, m, ground arith, refl, ground arith)
          | inr other ↦ inl (ground arith)
        ]
      ]

  -- No two nodes have the same ID.
  abbrev pub IsUnique : List N → Type 0
  IsUnique [] = Unit
  IsUnique (n ∷ ns) = All (λ m. id_of m ≢ id_of n) ns × IsUnique ns

  All-put :
      (n : N) (i : ℕ) (positions : ℕ → Option ℕ) (ns : List N)
      → All (λ m. id_of m ≢ id_of n) ns
      → All (λ m. positions (id_of m) ≡ none) ns
      → All (λ m. put positions n i (id_of m) ≡ none) ns
  All-put n i positions [] h g = tt
  All-put n i positions (m ∷ ns) h g = (ground (arith, h.0), All-put n i positions ns h.1 g.1)

  index_nodes-total :
      (i : ℕ) (ns : List N) (positions : ℕ → Option ℕ)
      → All (λ n. positions (id_of n) ≡ none) ns
      → IsUnique ns
      → (q : ℕ → Option ℕ) × (index_nodes id_of i ns positions ≡ some q)
  unfolding index_nodes
  index_nodes-total i [] positions fresh u = (positions, refl)
  index_nodes-total i (n ∷ ns) positions fresh u =
      let (q, done) =
        index_nodes-total (suc i) ns (put positions n i) (All-put n i positions ns u.0 fresh.1)
          u.1 in
      (q, rw (fresh.0, index_nodes) done)

  abbrev missing : Option ℕ
  missing = none

  All-none : (ns : List N) → All (λ n. missing ≡ none) ns
  All-none [] = tt
  All-none (n ∷ ns) = (refl, All-none ns)

  -- The shape of the tree that `NewTree` made, on the way there.
  new_tree_checked-inv :
      (cfg : List N) (opts : TreeOptions) (t : TreeConfig N)
      → new_tree_checked id_of cfg opts ≡ ok t
      → (capacity : ℕ) × (q : ℕ → Option ℕ) × (tree_level_start
            (opts.depth + 1)
            opts.branching_factor
          ≡ some capacity)
        × (index_nodes id_of 0 cfg (λ _. none) ≡ some q)
        × (2 ≤ opts.branching_factor)
        × (1 ≤ opts.depth)
        × (1 ≤ length cfg)
        × (length cfg ≤ capacity)
        × (t ≡ record { nodes = cfg; opts = opts; position_of = q })
  unfolding new_tree_checked
  new_tree_checked-inv cfg opts t h =
      elim (Option-cases (tree_level_start (opts.depth + 1) opts.branching_factor)) [
        | inl bad ↦ absurd (ground arith)
        | inr (capacity, fits) ↦ elim (Option-cases (index_nodes id_of 0 cfg (λ _. none))) [
          | inl twice ↦ absurd (ground arith)
          | inr (q, done) ↦ (
            capacity,
            q,
            fits,
            done,
            ground arith,
            ground arith,
            ground arith,
            ground arith,
            ground arith,
          )
        ]
      ]

  -- A tree that `NewTree` returns has the shape that was asked for, holds the nodes of the
  -- configuration in their order, and knows the position of each by its ID.
  pub new_tree_sound :
      (cfg : List N) (b d : ℤ) (t : TreeConfig N)
      → new_tree id_of cfg b d ≡ ok t
      → IsShaped t
        × IsIndexed t
        × (t.nodes ≡ cfg)
        × (pos t.opts.branching_factor ≡ b)
        × (pos t.opts.depth ≡ d)
  unfolding new_tree new_tree_checked
  new_tree_sound cfg (negsuc b) d t h = cc
  new_tree_sound cfg (pos b) (negsuc d) t h = ground arith
  new_tree_sound cfg (pos b) (pos d) t h =
      let (capacity, q, fits, done, hb, hd, hn, holds, made) =
        new_tree_checked-inv cfg (record { branching_factor = b; depth = d }) t h in
      rw made (
        record {
          branches = hb;
          deep = hd;
          rooted = hn;
          fits = ground (arith, capacity_lem b d capacity);
          holds = ground (arith, capacity_lem b d capacity);
        },
        record {
          finds = λ p n at. index_nodes-finds 0 cfg (λ _. none) p n done at ∙ ap some (from_zero p);
          found = λ id p at. elim (index_nodes-found 0 cfg (λ _. none) id p done at) [
            | inl none_yet ↦ cc
            | inr (j, n, e, there, same) ↦
                (n, subst (λ k. get_elem? cfg k ≡ some n) (sym (e ∙ from_zero j)) there, same)
          ];
        },
        refl,
        refl,
        refl,
      )

  -- `NewTree` succeeds on distinct nodes that fit a tree of a valid and representable shape.
  pub new_tree_complete :
      (cfg : List N) (b d : ℕ)
      → 2 ≤ b
      → 1 ≤ d
      → 1 ≤ length cfg
      → geom b (suc d) ≤ max_int
      → length cfg ≤ geom b (suc d)
      → IsUnique cfg
      → (t : TreeConfig N) × (new_tree id_of cfg (pos b) (pos d) ≡ ok t)
  unfolding new_tree new_tree_checked
  new_tree_complete cfg b d hb hd hn fits holds u =
      let (q, done) = index_nodes-total 0 cfg (λ _. none) (All-none cfg) u in
      let bounded : (ltb b 2 ≡ false)
          × (ltb d 1 ≡ false)
          × (nat_beq (length cfg) 0 ≡ false)
          × (ltb (geom b (suc d)) (length cfg) ≡ false) =
        ground arith in
      let fitted : tree_level_start (d + 1) b ≡ some (geom b (suc d)) =
        ground (arith, add-one d, tree_level_start_lem (suc d) b) in
      (
        record { nodes = cfg; opts = record { branching_factor = b; depth = d }; position_of = q },
        rw (bounded.0, bounded.1, bounded.2, fitted, bounded.3, done),
      )

  -- On distinct nodes that fit a tree of a valid and representable shape, `NewTree` returns a tree.
  -- It has the shape that was asked for, holds the nodes of the configuration in their order, and
  -- knows the position of each by its ID.
  pub new_tree_lem :
      (cfg : List N) (b d : ℕ)
      → 2 ≤ b
      → 1 ≤ d
      → 1 ≤ length cfg
      → geom b (suc d) ≤ max_int
      → length cfg ≤ geom b (suc d)
      → IsUnique cfg
      → (t : TreeConfig N) × (new_tree id_of cfg (pos b) (pos d) ≡ ok t)
        × IsShaped t
        × IsIndexed t
        × (t.nodes ≡ cfg)
        × (pos t.opts.branching_factor ≡ pos b)
        × (pos t.opts.depth ≡ pos d)
  new_tree_lem cfg b d hb hd hn fits holds u =
      let (t, e) = new_tree_complete cfg b d hb hd hn fits holds u in
      let (shaped, indexed, nodes, branches, deep) = new_tree_sound cfg (pos b) (pos d) t e in
      (t, e, shaped, indexed, nodes, branches, deep)

  -- `NewStar` succeeds on every configuration of distinct nodes that is not empty.
  pub new_star_complete :
      (cfg : List N)
      → 1 ≤ length cfg
      → length cfg ≤ max_int
      → IsUnique cfg
      → (t : TreeConfig N) × (new_star id_of cfg ≡ ok t)
  unfolding new_star geom
  new_star_complete cfg hn fits u =
      new_tree_complete cfg (max (length cfg - 1) 2) 1 (omega arith) (omega arith) hn (omega arith)
        (omega arith) u
