-- ===== src/Tree/Heap.antt =====
-- The tree of tree.go is the heap layout: the children of position p are at bf * p + 1 and on.
use native.Mathlib.Nat.{mul-add-div, div-le_self}
use gorums.Prelude.{
  ℕ, zero, suc, ◌+◌, ◌-◌, ◌*◌, ◌/◌, ◌≤◌, ◌<◌, ◌≡◌, none, some, arith, if◌then◌else◌, leb,
  Bool-cases, inl, inr, length, get_elem?, nat_beq, ap, take, drop, sym,
}
use gorums.Prelude.{drop_past, take-drop_cut, take-nil, get_elem?_below}
use gorums.Prelude.Go.{returns}
use gorums.Tree.Levels.{geom}
use gorums.Tree.Positions.{level_start_next, IsShaped, OnLevel, start, level_start, pos_level_lem}
use gorums.Tree.{TreeConfig, pos_level, children_at, parent_at, node_at}

sub_suc : (d : ℕ) → suc d - 1 ≡ d
sub_suc d = omega arith

same_level : (d k : ℕ) → k ≤ d → d ≤ k → d ≡ k
same_level d k h g = omega arith

module _ {ℓ} {N : Type ℓ} (t : TreeConfig N) (v : IsShaped t) where
  abbrev pub bf : ℕ
  bf = t.opts.branching_factor

  -- The first child of the node at offset p - start d of level d.
  pub first_child :
      (p d : ℕ) → start t v d ≤ p → start t v (suc d) + (p - start t v d) * bf ≡ bf * p + 1
  unfolding geom
  first_child p d h = grind arith

  -- The last level has no room for children.
  pub last_level :
      (p d : ℕ)
      → start t v d ≤ p
      → t.opts.depth ≤ d
      → d ≤ t.opts.depth
      → length t.nodes ≤ bf * p + 1
  last_level p d h past in_tree =
      let last : start t v (suc d) ≡ start t v (suc t.opts.depth) =
        ap (λ k. start t v (suc k)) (same_level d t.opts.depth past in_tree) in
      omega (arith, v.holds, first_child p d h)

  -- `ChildrenOf` is the slice of the (at most bf) positions from bf * p + 1 on.
  pub children_at_lem :
      (p : ℕ) → p < length t.nodes → children_at t p ≡ take bf (drop (bf * p + 1) t.nodes)
  unfolding children_at
  children_at_lem p h =
      let (d, found, on) = pos_level_lem t v p h in
      elim (Bool-cases (leb (length t.nodes) (bf * p + 1))) [
        | inl past ↦
            rw (drop_past (bf * p + 1) t.nodes (ground arith))
              (ground (arith, found, level_start_next t v d, first_child p d, take-nil {A = N} bf))
        | inr inside ↦
            rw (← take-drop_cut (bf * p + 1) bf t.nodes (ground arith))
              (ground (arith, found, level_start_next t v d, first_child p d, last_level p d))
      ]

  before : (p d : ℕ) → start t v (suc d) ≤ p → p - 1 ≡ bf * start t v d + (p - start t v (suc d))
  unfolding geom
  before p d h = omega arith

  -- The parent of the node at offset p - start d of level d.
  parent_position :
      (p d : ℕ) → start t v (suc d) ≤ p → start t v d + (p - start t v (suc d)) / bf ≡ (p - 1) / bf
  parent_position p d h =
      rw (before p d h)
        (sym (mul-add-div (omega (arith, v.branches)) (start t v d) (p - start t v (suc d))))

  div_below : (p : ℕ) → p < length t.nodes → (p - 1) / bf < length t.nodes
  div_below p h = grind (arith, v.branches, div-le_self (p - 1) bf)

  node_at_lem : (i : ℕ) (n : N) → get_elem? t.nodes i ≡ some n → node_at t i ≡ returns (some n)
  unfolding node_at
  node_at_lem i n h = rw (h, node_at)

  parent_at_level :
      (p d : ℕ)
      → p < length t.nodes
      → pos_level t p ≡ some (d, p - start t v d)
      → OnLevel t v p d
      → parent_at t p
        ≡ (if nat_beq p 0 then returns none else returns (get_elem? t.nodes ((p - 1) / bf)))
  unfolding parent_at geom
  parent_at_level p zero h found on = ground arith
  parent_at_level p (suc d) h found on =
      let (n, there) = get_elem?_below ((p - 1) / bf) t.nodes (div_below p h) in
      rw (found, parent_at, sub_suc d, level_start t v d (omega arith), parent_position p d on.0)
        (ground (arith, node_at_lem ((p - 1) / bf) n there))

  -- `ParentOf` is the node at (p - 1) / bf, which exists; the root has none.
  pub parent_at_lem :
      (p : ℕ)
      → p < length t.nodes
      → parent_at t p
        ≡ (if nat_beq p 0 then returns none else returns (get_elem? t.nodes ((p - 1) / bf)))
  unfolding parent_at
  parent_at_lem p h = let (d, found, on) = pos_level_lem t v p h in parent_at_level p d h found on
