-- ===== src/Tree/Tests.antt =====
-- The theorems on trees at a binary tree of six nodes.
use gorums.Prelude.{
  ℕ, ◌≡◌, ◌≤◌, ◌<◌, refl, Option, none, some, List, [], ◌∷◌, if◌then◌else◌, nat_beq, arith, length,
}
use gorums.Prelude.Int.{pos}
use gorums.Prelude.Go.{returns}
use gorums.Tree.{
  TreeConfig, new_tree, ok, err, over_capacity, tree_level_start, parent_of, children_of, level,
  height, subtree, subtree_loop, tree_pow, root, pos_level,
}
use gorums.Tree.Levels.{geom}
use gorums.Tree.Positions.{IsShaped}
use gorums.Tree.Build.{IsIndexed, IsUnique, new_tree_sound, new_tree_lem}
use gorums.Tree.Family.{parent_of-children_of}
use gorums.Tree.Height.{height_lem, leftmost, descend}

abbrev self : ℕ → ℕ
self n = n

abbrev six : List ℕ
six = 10 ∷ 11 ∷ 12 ∷ 13 ∷ 14 ∷ 15 ∷ []

abbrev position : ℕ → Option ℕ
position id =
    if nat_beq 15 id
    then some 5
    else if nat_beq 14 id
    then some 4
    else if nat_beq 13 id
    then some 3
    else if nat_beq 12 id
    then some 2
    else if nat_beq 11 id
    then some 1
    else if nat_beq 10 id
    then some 0
    else none

abbrev binary : TreeConfig ℕ
binary = record {
  nodes = six;
  opts = record { branching_factor = 2; depth = 2 };
  position_of = position;
}

binary_built : new_tree self six (pos 2) (pos 2) ≡ ok binary
unfolding new_tree
binary_built = refl

six-IsUnique : IsUnique self six
six-IsUnique = omega arith

binary-IsShaped : IsShaped binary
binary-IsShaped = (new_tree_sound self six (pos 2) (pos 2) binary binary_built).0

binary-IsIndexed : IsIndexed self binary
binary-IsIndexed = (new_tree_sound self six (pos 2) (pos 2) binary binary_built).1

too_many : new_tree self six (pos 2) (pos 1) ≡ err over_capacity
unfolding new_tree
too_many = refl

family :
    (children_of binary 11 ≡ 13 ∷ 14 ∷ [])
    × (parent_of binary 15 ≡ returns (some 12))
    × (subtree binary 11 ≡ returns (11 ∷ 13 ∷ 14 ∷ []))
    × (height binary 10 ≡ some 2)
    × (level binary 15 ≡ some 2)
    × (root binary ≡ returns (some 10))
unfolding children_of parent_of subtree subtree_loop tree_pow height level root pos_level
    tree_level_start
family = (refl, refl, refl, refl, refl, refl)

new_tree_lem_example :
    (t : TreeConfig ℕ) × (new_tree self six (pos 2) (pos 2) ≡ ok t)
    × IsShaped t
    × IsIndexed self t
    × (t.nodes ≡ six)
    × (pos t.opts.branching_factor ≡ pos 2)
    × (pos t.opts.depth ≡ pos 2)
unfolding geom
new_tree_lem_example =
    new_tree_lem self six 2 2 (omega arith) (omega arith) (omega arith) (omega arith) (omega arith)
      six-IsUnique

parent_of-children_of_example : parent_of binary 14 ≡ returns (some 11)
unfolding children_of pos_level tree_level_start
parent_of-children_of_example =
    parent_of-children_of self binary binary-IsShaped binary-IsIndexed 1 1 11 14 refl refl

height_lem_example :
    (k : ℕ) × (height binary 11 ≡ some k)
    × (leftmost 2 k 1 < 6)
    × ((js : List ℕ) → descend 2 js 1 < 6 → length js ≤ k)
height_lem_example = height_lem self binary 1 11 binary-IsShaped binary-IsIndexed refl
