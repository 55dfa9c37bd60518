-- ===== src/Tree/Height.antt =====
-- `Height` of tree.go: it ends, and its result is the longest path down.
use native.Mathlib.Nat.{mul-le-mul_left, add-zero}
use gorums.Prelude.{
  ℕ, zero, suc, ◌+◌, ◌-◌, ◌*◌, ◌≤◌, ◌<◌, ◌≡◌, true, false, some, arith, leb, Bool-cases, inl, inr,
  List, [], ◌∷◌, length, get_elem?, ap, sym, ◌∙◌, below_get_elem?,
}
use gorums.Tree.Positions.{IsShaped, pos_level_lem, level_start_next}
use gorums.Tree.Heap.{first_child, last_level}
use gorums.Tree.Build.{IsIndexed}
use gorums.Tree.{TreeConfig, height_loop, height}

-- The leftmost descendant, k levels down.
unfoldable pub leftmost : ℕ → ℕ → ℕ → ℕ
leftmost b zero p = p
leftmost b (suc k) p = leftmost b k (b * p + 1)

-- The descendant that is reached by the given child indices.
unfoldable pub descend : ℕ → List ℕ → ℕ → ℕ
descend b [] p = p
descend b (j ∷ js) p = descend b js (b * p + 1 + j)

shift : (h k : ℕ) → h + 1 + k ≡ h + suc k
shift h k = omega arith

from_zero : (k : ℕ) → 0 + k ≡ k
from_zero k = omega arith

leftmost_mono : (b k p q : ℕ) → p ≤ q → leftmost b k p ≤ leftmost b k q
unfolding leftmost
leftmost_mono b zero p q h = h
leftmost_mono b (suc k) p q h =
    let more : b * p ≤ b * q = mul-le-mul_left b h in
    leftmost_mono b k (b * p + 1) (b * q + 1) (omega arith)

leftmost-le-descend : (b : ℕ) (js : List ℕ) (p : ℕ) → leftmost b (length js) p ≤ descend b js p
unfolding leftmost descend
leftmost-le-descend b [] p = omega arith
leftmost-le-descend b (j ∷ js) p = omega (
  arith,
  leftmost_mono b (length js) (b * p + 1) (b * p + 1 + j),
  leftmost-le-descend b js (b * p + 1 + j),
)

step_up : (b p : ℕ) → 1 ≤ b → p < b * p + 1
step_up b p h = grind arith

leftmost_deeper : (b k m p : ℕ) → 1 ≤ b → k ≤ m → leftmost b k p ≤ leftmost b m p
unfolding leftmost
leftmost_deeper b zero zero p hb h = omega arith
leftmost_deeper b zero (suc m) p hb h =
    omega (arith, leftmost_deeper b zero m (b * p + 1) hb (omega arith), step_up b p hb)
leftmost_deeper b (suc k) zero p hb h = elim h [ ]
leftmost_deeper b (suc k) (suc m) p hb h = leftmost_deeper b k m (b * p + 1) hb (omega arith)

longest :
    (b n k p : ℕ)
    → 1 ≤ b
    → n ≤ leftmost b (suc k) p
    → (js : List ℕ) → descend b js p < n
    → length js ≤ k
longest b n k p hb high js inside = elim (Bool-cases (leb (length js) k)) [
  | inl short ↦ ground arith
  | inr long ↦
      let beyond = leftmost_deeper b (suc k) (length js) p hb (ground arith) in
      absurd (omega (arith, leftmost-le-descend b js p))
]

module _ {ℓ} {N : Type ℓ} (t : TreeConfig N) (v : IsShaped t) where
  abbrev b : ℕ
  b = t.opts.branching_factor

  -- The loop stops at the first position with no child.
  height_step :
      (fuel p h : ℕ)
      → p < length t.nodes
      → height_loop t (suc fuel) p h ≡ (elim (leb (length t.nodes) (b * p + 1)) [
        | true ↦ some h
        | false ↦ height_loop t fuel (b * p + 1) (h + 1)
      ])
  unfolding height_loop
  height_step fuel p h inside =
      let (d, found, on) = pos_level_lem t v p inside in
      ground (arith, level_start_next t v d, first_child t v p d, last_level t v p d)

  height_loop_lem :
      (fuel p h : ℕ)
      → p < length t.nodes
      → length t.nodes - p ≤ fuel
      → (k : ℕ) × (height_loop t fuel p h ≡ some (h + k))
        × (leftmost b k p < length t.nodes)
        × (length t.nodes ≤ leftmost b (suc k) p)
  unfolding leftmost
  height_loop_lem zero p h inside enough = absurd (omega arith)
  height_loop_lem (suc fuel) p h inside enough =
      elim (Bool-cases (leb (length t.nodes) (b * p + 1))) [
        | inl leaf ↦ (
          0,
          height_step fuel p h inside ∙ rw leaf (ap some (sym (add-zero h))),
          inside,
          ground arith,
        )
        | inr more ↦
            let (k, found, low, high) =
              height_loop_lem fuel (b * p + 1) (h + 1) (ground arith)
                (omega (arith, step_up b p (omega (arith, v.branches)))) in
            (suc k, height_step fuel p h inside ∙ rw more (found ∙ ap some (shift h k)), low, high)
      ]

-- `Height` ends for every node of a tree, and gives the number of edges on the longest path down:
-- the leftmost descendant at that depth exists, and no path of child indices that stays in the tree
-- is longer.
pub height_lem {ℓ} :
    {N : Type ℓ} (id_of : N → ℕ) (t : TreeConfig N) (p : ℕ) (n : N)
    → IsShaped t
    → IsIndexed id_of t
    → get_elem? t.nodes p ≡ some n
    → (k : ℕ) × (height t (id_of n) ≡ some k)
      × (leftmost t.opts.branching_factor k p < length t.nodes)
      × ((js : List ℕ) → descend t.opts.branching_factor js p < length t.nodes → length js ≤ k)
unfolding height
height_lem id_of t p n v ix at =
    let inside = below_get_elem? p t.nodes at in
    let (k, found, low, high) = height_loop_lem t v (length t.nodes) p 0 inside (omega arith) in
    (
      k,
      rw (ix.finds p n at, height) (found ∙ ap some (from_zero k)),
      low,
      longest t.opts.branching_factor (length t.nodes) k p (omega (arith, v.branches)) high,
    )
