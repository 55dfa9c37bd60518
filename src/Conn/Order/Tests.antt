-- ===== src/Conn/Order/Tests.antt =====
-- The theorem on Sort, with an insertion sort.
use gorums.Prelude.{
  ℕ, ◌+◌, ◌<◌, ◌≤◌, ◌≡◌, refl, Bool, Option, none, some, List, [], ◌∷◌, if◌then◌else◌, nat_beq,
  get_elem?, arith, if_case,
}
use gorums.Prelude.Int.{ℤ, pos, negsuc}
use gorums.Errors.{Error, stream_down}
use gorums.Conn.Config.{Node, SortFunc}
use gorums.Conn.Config.Algebra.{count}
use gorums.Conn.Order.{by_latency, by_last_error, sort}
use gorums.Conn.Order.Sorted.{at_most_zero, Below, InOrder, IsWeakOrder, SortsBy, sort_lem}

abbrev insert : (Node → Node → ℤ) → Node → List Node → List Node
insert cmp n [] = n ∷ []
insert cmp n (m ∷ c) =
    let rest = insert cmp n c in if at_most_zero (cmp n m) then n ∷ m ∷ c else m ∷ rest

abbrev insertion_sort : SortFunc
insertion_sort cmp [] = []
insertion_sort cmp (n ∷ c) = insert cmp n (insertion_sort cmp c)

module _ (cmp : Node → Node → ℤ) where
  insert-same :
      (n : Node) (c : List Node) (f : Node → Bool)
      → count f (insert cmp n c) ≡ (if f n then 1 else 0) + count f c
  unfolding count
  insert-same n [] f = refl
  insert-same n (m ∷ c) f = ground (arith, insert-same n c f)

  sort-same : (c : List Node) (f : Node → Bool) → count f (insertion_sort cmp c) ≡ count f c
  unfolding count
  sort-same [] f = refl
  sort-same (n ∷ c) f = omega (arith, sort-same c f, insert-same n (insertion_sort cmp c) f)

  insert_after :
      (w : IsWeakOrder cmp) (m n : Node) (c : List Node)
      → Below cmp m n
      → InOrder cmp (m ∷ c)
      → InOrder cmp (m ∷ insert cmp n c)
  insert_after w m n [] h o = (h, tt)
  insert_after w m n (k ∷ c) h o =
      if_case (λ r. InOrder cmp (m ∷ r)) (at_most_zero (cmp n k)) _ _ (λ below. (h, (below, o.1)))
        (λ above. (o.0, insert_after w k n c (w.total n k above) o.1))

  insert-InOrder :
      (w : IsWeakOrder cmp) (n : Node) (c : List Node)
      → InOrder cmp c
      → InOrder cmp (insert cmp n c)
  insert-InOrder w n [] o = tt
  insert-InOrder w n (m ∷ c) o =
      if_case (InOrder cmp) (at_most_zero (cmp n m)) _ _ (λ below. (below, o))
        (λ above. insert_after w m n c (w.total n m above) o)

  sort-InOrder : (w : IsWeakOrder cmp) (c : List Node) → InOrder cmp (insertion_sort cmp c)
  sort-InOrder w [] = tt
  sort-InOrder w (n ∷ c) = insert-InOrder w n (insertion_sort cmp c) (sort-InOrder w c)

insertion_sorts : SortsBy insertion_sort
insertion_sorts = record { same = sort-same; sorted = sort-InOrder }

abbrev node : ℕ → Node
node id = record { id = id; addr = id; mgr = none }

abbrev three : List Node
three = node 1 ∷ node 2 ∷ node 3 ∷ []

-- Node 1 has no latency, and node 2 has failed.
abbrev latency : Node → ℤ
latency n = if nat_beq n.id 1 then negsuc 0 else pos n.id

abbrev last_err : Node → Option Error
last_err n = if nat_beq n.id 2 then some stream_down else none

by_time : sort insertion_sort three (by_latency latency) ≡ node 2 ∷ node 3 ∷ node 1 ∷ []
unfolding sort by_latency
by_time = refl

sort_lem_example :
    let fastest = sort insertion_sort three (by_latency latency) in
    let best = sort insertion_sort three (by_last_error last_err) in
    ((f : Node → Bool) → (count f fastest ≡ count f three) × (count f best ≡ count f three))
    × ((i j : ℕ) (a b : Node)
        → i < j
        → get_elem? fastest i ≡ some a
        → get_elem? fastest j ≡ some b
        → (z : ℕ) → latency b ≡ pos z
        → (y : ℕ) × (latency a ≡ pos y) × (y ≤ z))
    × ((i j : ℕ) (a b : Node)
        → i < j
        → get_elem? best i ≡ some a
        → get_elem? best j ≡ some b
        → last_err b ≡ none
        → last_err a ≡ none)
sort_lem_example = sort_lem insertion_sort insertion_sorts three latency last_err
