-- ===== src/Tree/Family.antt =====
-- Parents and children of the tree of tree.go, by node IDs.
use gorums.Prelude.{
  ℕ, suc, ◌+◌, ◌-◌, ◌*◌, ◌/◌, ◌%◌, ◌≤◌, ◌<◌, ◌≡◌, none, some, arith, if◌then◌else◌, ltb, Bool-cases,
  inl, inr, length, get_elem?, nat_beq, ap, sym, ◌∙◌, take, drop, get_elem?-drop, get_elem?-take,
  get_elem?-take_past, below_get_elem?,
}
use native.Mathlib.Nat.{mul-le-mul_left, div-le_self, div-add-mod, mod-lt}
use gorums.Prelude.{false, get_elem?_below}
use gorums.Prelude.Go.{returns}
use gorums.Tree.Levels.{geom}
use gorums.Tree.Positions.{IsShaped, OnLevel, pos_level_lem, start, level_unique}
use gorums.Tree.Heap.{children_at_lem, parent_at_lem}
use gorums.Tree.Build.{IsIndexed}
use gorums.Tree.{TreeConfig, parent_of, children_of, level}

level_capped : (d k : ℕ) → d ≤ k → ltb d k ≡ false → d ≡ k
level_capped d k h g = ground arith

child_not_root : (p j b : ℕ) → nat_beq (b * p + 1 + j) 0 ≡ false
child_not_root p j b = ground arith

suc_not_root : (p : ℕ) → nat_beq (suc p) 0 ≡ false
suc_not_root p = ground arith

child_quotient : (p j b : ℕ) → j < b → (b * p + 1 + j - 1) / b ≡ p
child_quotient p j b h = grind arith

quotient_below : (p b n : ℕ) → suc p < n → p / b < n
quotient_below p b n h = omega (arith, div-le_self p b)

pred_suc : (p : ℕ) → suc p - 1 ≡ p
pred_suc p = omega arith

recompose : (p b : ℕ) → b * (p / b) + 1 + p % b ≡ suc p
recompose p b = omega (arith, div-add-mod p b)

module _ {ℓ} {N : Type ℓ} (id_of : N → ℕ) (t : TreeConfig N) (v : IsShaped t)
    (ix : IsIndexed id_of t) where
  abbrev bf : ℕ
  bf = t.opts.branching_factor

  children_of_lem :
      (p : ℕ) (n : N)
      → get_elem? t.nodes p ≡ some n
      → children_of t (id_of n) ≡ take bf (drop (bf * p + 1) t.nodes)
  unfolding children_of
  children_of_lem p n at =
      rw (ix.finds p n at, children_of) (children_at_lem t v p (below_get_elem? p t.nodes at))

  parent_of_lem :
      (p : ℕ) (n : N)
      → get_elem? t.nodes p ≡ some n
      → parent_of t (id_of n)
        ≡ (if nat_beq p 0 then returns none else returns (get_elem? t.nodes ((p - 1) / bf)))
  unfolding parent_of
  parent_of_lem p n at =
      rw (ix.finds p n at, parent_of) (parent_at_lem t v p (below_get_elem? p t.nodes at))

  child_elem :
      (p j : ℕ) (n m : N)
      → get_elem? t.nodes p ≡ some n
      → get_elem? (children_of t (id_of n)) j ≡ some m
      → (j < bf) × (get_elem? t.nodes (bf * p + 1 + j) ≡ some m)
  child_elem p j n m at child =
      let child' : get_elem? (take bf (drop (bf * p + 1) t.nodes)) j ≡ some m =
        rw (children_of_lem p n at) at child in
      elim (Bool-cases (ltb j bf)) [
        | inl in_range ↦ (
          ground arith,
          sym (get_elem?-drop (bf * p + 1) j t.nodes)
              ∙ sym (get_elem?-take bf j (drop (bf * p + 1) t.nodes) (ground arith))
              ∙ child',
        )
        | inr past ↦ cc (get_elem?-take_past bf j (drop (bf * p + 1) t.nodes) (ground arith))
      ]

  -- The child's parent is the node, and the node is the only one to have it.
  pub parent_of-children_of :
      (p j : ℕ) (n m : N)
      → get_elem? t.nodes p ≡ some n
      → get_elem? (children_of t (id_of n)) j ≡ some m
      → parent_of t (id_of m) ≡ returns (some n)
  parent_of-children_of p j n m at child =
      let (in_range, at') = child_elem p j n m at child in
      rw (
        parent_of_lem (bf * p + 1 + j) m at',
        child_not_root p j bf,
        child_quotient p j bf in_range,
        at,
      )

  -- A node that is not the root is in the children of its parent, at one index.
  pub children_of-parent_of :
      (p : ℕ) (m : N)
      → get_elem? t.nodes (suc p) ≡ some m
      → (n : N) × (parent_of t (id_of m) ≡ returns (some n))
        × (get_elem? (children_of t (id_of n)) (p % bf) ≡ some m)
  children_of-parent_of p m at =
      let (n, above) =
        get_elem?_below (p / bf) t.nodes
          (quotient_below p bf (length t.nodes) (below_get_elem? (suc p) t.nodes at)) in
      (
        n,
        rw (parent_of_lem (suc p) m at, suc_not_root p, pred_suc p) (ap returns above),
        rw (children_of_lem (p / bf) n above) (
            get_elem?-take bf (p % bf) (drop (bf * (p / bf) + 1) t.nodes)
              (mod-lt p (omega (arith, v.branches)))
            ∙ get_elem?-drop (bf * (p / bf) + 1) (p % bf) t.nodes
            ∙ rw (recompose p bf) at),
      )

  level_lem :
      (p : ℕ) (n : N)
      → get_elem? t.nodes p ≡ some n
      → (d : ℕ) × (level t (id_of n) ≡ some d) × OnLevel t v p d
  unfolding level
  level_lem p n at =
      let (d, found, on) = pos_level_lem t v p (below_get_elem? p t.nodes at) in
      (d, rw (ix.finds p n at, level) (rw (found, level)), on)

  child_level :
      (p d j : ℕ)
      → OnLevel t v p d
      → j < bf
      → bf * p + 1 + j < length t.nodes
      → OnLevel t v (bf * p + 1 + j) (suc d)
  unfolding geom
  child_level p d j on h inside =
      let above : bf * start t v d ≤ bf * p = mul-le-mul_left bf on.0 in
      let below : bf * suc p ≤ bf * start t v (suc d) = mul-le-mul_left bf on.1 in
      (
        omega arith,
        omega arith,
        elim (Bool-cases (ltb d t.opts.depth)) [
          | inl less ↦ ground arith
          | inr last ↦
              let same : start t v (suc d) ≡ start t v (suc t.opts.depth) =
                ap (λ k. start t v (suc k)) (level_capped d t.opts.depth on.2 last) in
              absurd (omega (arith, v.holds))
        ],
      )

  -- A child is one level below its parent.
  pub level-children_of :
      (p j : ℕ) (n m : N)
      → get_elem? t.nodes p ≡ some n
      → get_elem? (children_of t (id_of n)) j ≡ some m
      → (d : ℕ) × (level t (id_of n) ≡ some d) × (level t (id_of m) ≡ some (suc d))
  level-children_of p j n m at child =
      let (in_range, at') = child_elem p j n m at child in
      let (d, found, on) = level_lem p n at in
      let (d', found', on') = level_lem (bf * p + 1 + j) m at' in
      (
        d,
        found,
        found'
            ∙ ap some (
                level_unique t v (bf * p + 1 + j) d' (suc d) on'
                  (child_level p d j on in_range (below_get_elem? (bf * p + 1 + j) t.nodes at'))),
      )
