-- ===== src/Tree/Positions.antt =====
-- Which level of tree.go's tree a position is on, and when the tree is well formed.
use native.Mathlib.Numerals.{add-one}
use gorums.Prelude.{
  ℕ, zero, suc, ◌+◌, ◌-◌, ◌≤◌, ◌<◌, ◌≡◌, some, arith, leb, ltb, Bool-cases, inl, inr, length, ap,
}
use gorums.Tree.Levels.{geom, geom_mono, tree_level_start_lem}
use gorums.Tree.{TreeConfig, tree_level_start, max_int, pos_level, pos_level_loop}

-- The shape of a tree: what `NewTree` checks.
pub record IsShaped {ℓ} {N : Type ℓ} (t : TreeConfig N) : Type 0 where
  pub branches : 2 ≤ t.opts.branching_factor
  pub deep : 1 ≤ t.opts.depth
  pub rooted : 1 ≤ length t.nodes
  pub fits : geom t.opts.branching_factor (suc t.opts.depth) ≤ max_int
  pub holds : length t.nodes ≤ geom t.opts.branching_factor (suc t.opts.depth)

level_eq : (d k : ℕ) → d + 0 ≡ suc k → d ≡ suc k
level_eq d k e = omega arith

module _ {ℓ} {N : Type ℓ} (t : TreeConfig N) (v : IsShaped t) where
  abbrev pub start : ℕ → ℕ
  start = geom t.opts.branching_factor

  -- No start of a level that is looked at is out of range.
  pub level_start :
      (k : ℕ) → k ≤ suc t.opts.depth → tree_level_start k t.opts.branching_factor ≡ some (start k)
  level_start k h = ground (
    arith,
    v.branches,
    v.fits,
    tree_level_start_lem k t.opts.branching_factor,
    geom_mono t.opts.branching_factor k (suc t.opts.depth),
  )

  pub level_start_next :
      (d : ℕ)
      → d ≤ t.opts.depth
      → tree_level_start (d + 1) t.opts.branching_factor ≡ some (start (suc d))
  level_start_next d h = rw add-one (level_start (suc d) (omega arith))

  -- Level d holds position p.
  abbrev pub OnLevel : ℕ → ℕ → Type 0
  OnLevel p d = (start d ≤ p) × (p < start (suc d)) × (d ≤ t.opts.depth)

  pos_level_loop_lem :
      (p d rounds : ℕ)
      → start d ≤ p
      → p < start (suc t.opts.depth)
      → d + rounds ≡ suc t.opts.depth
      → (d' : ℕ) × (pos_level_loop t p d rounds ≡ some (d', p - start d')) × OnLevel p d'
  unfolding pos_level_loop
  pos_level_loop_lem p d zero h l e =
      let same : start d ≡ start (suc t.opts.depth) = ap start (level_eq d t.opts.depth e) in
      absurd (omega arith)
  pos_level_loop_lem p d (suc rounds) h l e = elim (Bool-cases (ltb p (start (suc d)))) [
    | inl here ↦
        (d, ground (arith, level_start_next d, level_start d), (h, ground arith, omega arith))
    | inr deeper ↦
        rw (level_start_next d (omega arith), deeper, pos_level_loop, add-one)
          (pos_level_loop_lem p (suc d) rounds (ground arith) l (omega arith))
  ]

  -- A position of the tree is on one of its levels, and `posLevel` finds it.
  pub pos_level_lem :
      (p : ℕ) → p < length t.nodes → (d : ℕ) × (pos_level t p ≡ some (d, p - start d)) × OnLevel p d
  unfolding pos_level
  pos_level_lem p h = elim (Bool-cases (leb (length t.nodes) p)) [
    | inl out ↦ absurd (ground arith)
    | inr ok ↦
        rw (ok, add-one)
          (pos_level_loop_lem p 0 (suc t.opts.depth) (unfold geom in omega arith)
            (omega (arith, v.holds)) (omega arith))
  ]

  -- A position is on one level only.
  pub level_unique : (p d e : ℕ) → OnLevel p d → OnLevel p e → d ≡ e
  level_unique p d e h g = elim (Bool-cases (ltb d e)) [
    | inl less ↦ absurd (ground (arith, geom_mono t.opts.branching_factor (suc d) e, v.branches))
    | inr not_less ↦ elim (Bool-cases (ltb e d)) [
      | inl more ↦ absurd (ground (arith, geom_mono t.opts.branching_factor (suc e) d, v.branches))
      | inr equal ↦ ground arith
    ]
  ]
