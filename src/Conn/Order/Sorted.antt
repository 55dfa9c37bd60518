-- ===== src/Conn/Order/Sorted.antt =====
-- In which order the nodes are after a sort by a comparator of internal/conn/node.go.
use gorums.Prelude.{
  ℕ, zero, suc, ◌<◌, ◌≤◌, ◌≡◌, refl, Bool, true, false, Option, none, some, List, [], ◌∷◌,
  get_elem?, arith, subst,
}
use gorums.Prelude.Int.{ℤ, pos, negsuc}
use gorums.Errors.{Error}
use gorums.Conn.Config.{Node, SortFunc}
use gorums.Conn.Config.Algebra.{count}
use gorums.Conn.Order.{compare_nat, compare_latency, by_latency, compare_error, by_last_error, sort}

abbrev pub at_most_zero : ℤ → Bool
at_most_zero (negsuc _) = true
at_most_zero (pos zero) = true
at_most_zero (pos (suc _)) = false

abbrev pub Below : (Node → Node → ℤ) → Node → Node → Type 0
Below cmp a b = at_most_zero (cmp a b) ≡ true

-- Each node is at most the next one.
abbrev pub InOrder : (Node → Node → ℤ) → List Node → Type 0
InOrder cmp [] = Unit
InOrder cmp (n ∷ []) = Unit
InOrder cmp (n ∷ m ∷ c) = Below cmp n m × InOrder cmp (m ∷ c)

-- What the slices package asks of a comparator: of two nodes one is at most the other, and the order is
-- transitive.
pub record IsWeakOrder (cmp : Node → Node → ℤ) : Type 0 where
  pub total : (a b : Node) → at_most_zero (cmp a b) ≡ false → Below cmp b a
  pub trans : (a b c : Node) → Below cmp a b → Below cmp b c → Below cmp a c

-- What it documents of a sort by such a comparator: the result has the same elements, each as often, in
-- ascending order.
pub record SortsBy (sort_func : SortFunc) : Type 0 where
  pub same :
      (cmp : Node → Node → ℤ) (c : List Node) (f : Node → Bool)
      → count f (sort_func cmp c) ≡ count f c
  pub sorted :
      (cmp : Node → Node → ℤ) → IsWeakOrder cmp → (c : List Node) → InOrder cmp (sort_func cmp c)

latency_total :
    (x y : ℤ)
    → at_most_zero (compare_latency x y) ≡ false
    → at_most_zero (compare_latency y x) ≡ true
unfolding compare_latency compare_nat
latency_total (pos a) (pos b) h = ground arith
latency_total (pos a) (negsuc b) h = absurd cc
latency_total (negsuc a) (pos b) h = refl
latency_total (negsuc a) (negsuc b) h = refl

latency_trans :
    (x y z : ℤ)
    → at_most_zero (compare_latency x y) ≡ true
    → at_most_zero (compare_latency y z) ≡ true
    → at_most_zero (compare_latency x z) ≡ true
unfolding compare_latency compare_nat
latency_trans (pos a) (pos b) (pos c) h g = ground arith
latency_trans (pos a) (negsuc b) (pos c) h g = absurd cc
latency_trans (pos a) y (negsuc c) h g = refl
latency_trans (negsuc a) (pos b) z h g = absurd cc
latency_trans (negsuc a) (negsuc b) (pos c) h g = absurd cc
latency_trans (negsuc a) (negsuc b) (negsuc c) h g = refl

by_latency-IsWeakOrder : (latency : Node → ℤ) → IsWeakOrder (by_latency latency)
unfolding by_latency
by_latency-IsWeakOrder latency = record {
  total = λ a b. latency_total (latency a) (latency b);
  trans = λ a b c. latency_trans (latency a) (latency b) (latency c);
}

error_total :
    (x y : Option Error)
    → at_most_zero (compare_error x y) ≡ false
    → at_most_zero (compare_error y x) ≡ true
unfolding compare_error
error_total (some e) none h = refl
error_total none y h = ground arith
error_total (some e) (some d) h = absurd cc

error_trans :
    (x y z : Option Error)
    → at_most_zero (compare_error x y) ≡ true
    → at_most_zero (compare_error y z) ≡ true
    → at_most_zero (compare_error x z) ≡ true
unfolding compare_error
error_trans none y none h g = refl
error_trans none y (some e) h g = refl
error_trans (some e) none z h g = absurd cc
error_trans (some e) (some d) none h g = absurd cc
error_trans (some e) (some d) (some b) h g = refl

by_last_error-IsWeakOrder : (last_err : Node → Option Error) → IsWeakOrder (by_last_error last_err)
unfolding by_last_error
by_last_error-IsWeakOrder last_err = record {
  total = λ a b. error_total (last_err a) (last_err b);
  trans = λ a b c. error_trans (last_err a) (last_err b) (last_err c);
}

-- A node that stands before another one is at most it.
first-Below :
    (cmp : Node → Node → ℤ)
    → IsWeakOrder cmp
    → (c : List Node) (n : Node) (j : ℕ) (b : Node) → InOrder cmp (n ∷ c)
    → get_elem? c j ≡ some b
    → Below cmp n b
first-Below cmp w [] n j b o at = absurd cc
first-Below cmp w (m ∷ c) n zero b o at = ground arith
first-Below cmp w (m ∷ c) n (suc j) b o at = w.trans n m b o.0 (first-Below cmp w c m j b o.1 at)

before-Below :
    (cmp : Node → Node → ℤ)
    → IsWeakOrder cmp
    → (c : List Node) (i j : ℕ) (a b : Node) → InOrder cmp c
    → i < j
    → get_elem? c i ≡ some a
    → get_elem? c j ≡ some b
    → Below cmp a b
before-Below cmp w [] i j a b o l at there = absurd cc
before-Below cmp w (n ∷ c) i zero a b o l at there = absurd (omega arith)
before-Below cmp w (n ∷ c) zero (suc j) a b o l at there =
    let e : n ≡ a = ground arith in subst (λ x. Below cmp x b) e (first-Below cmp w c n j b o there)
before-Below cmp w (n ∷ c) (suc i) (suc j) a b o l at there =
    before-Below cmp w c i j a b (rest c o) (omega arith) at there
  where
    rest : (c : List Node) → InOrder cmp (n ∷ c) → InOrder cmp c
    rest [] o = tt
    rest (m ∷ c) o = o.1

measured :
    (x y : ℤ) (z : ℕ)
    → at_most_zero (compare_latency x y) ≡ true
    → y ≡ pos z
    → (k : ℕ) × (x ≡ pos k) × (k ≤ z)
unfolding compare_latency compare_nat
measured (pos a) (pos b) z h e = (a, refl, ground arith)
measured (pos a) (negsuc b) z h e = absurd cc
measured (negsuc a) (pos b) z h e = absurd cc
measured (negsuc a) (negsuc b) z h e = absurd cc

healthy : (x y : Option Error) → at_most_zero (compare_error x y) ≡ true → y ≡ none → x ≡ none
unfolding compare_error
healthy none y h e = refl
healthy (some d) none h e = absurd cc
healthy (some d) (some b) h e = absurd cc

module _ (sort_func : SortFunc) (sorts : SortsBy sort_func) (c : List Node) where
  sort-InOrder :
      (cmp : Node → Node → ℤ)
      → IsWeakOrder cmp
      → InOrder cmp (sort sort_func c cmp)
        × ((f : Node → Bool) → count f (sort sort_func c cmp) ≡ count f c)
  unfolding sort
  sort-InOrder cmp w = by_list c
    where
      by_list :
          (c : List Node)
          → InOrder cmp (sort sort_func c cmp)
            × ((f : Node → Bool) → count f (sort sort_func c cmp) ≡ count f c)
      by_list [] = (tt, λ f. refl)
      by_list (n ∷ c) = (sorts.sorted cmp w (n ∷ c), λ f. sorts.same cmp (n ∷ c) f)

  -- Sort by ByLatency or by ByLastError gives the same nodes, each as often. By latency, every node before
  -- one that has a latency has one too, which is no larger: the first nodes are the fastest, and nodes
  -- without a latency come last. By last error, every node before one without an error has none.
  pub sort_lem :
      (latency : Node → ℤ) (last_err : Node → Option Error)
      → let fastest = sort sort_func c (by_latency latency) in
        let best = sort sort_func c (by_last_error last_err) in
        ((f : Node → Bool) → (count f fastest ≡ count f c) × (count f best ≡ count f c))
        × ((i j : ℕ) (a b : Node)
            → i < j
            → get_elem? fastest i ≡ some a
            → get_elem? fastest j ≡ some b
            → (z : ℕ) → latency b ≡ pos z
            → (y : ℕ) × (latency a ≡ pos y) × (y ≤ z))
        × ((i j : ℕ) (a b : Node)
            → i < j
            → get_elem? best i ≡ some a
            → get_elem? best j ≡ some b
            → last_err b ≡ none
            → last_err a ≡ none)
  unfolding by_latency by_last_error
  sort_lem latency last_err =
      let by_time = by_latency-IsWeakOrder latency in
      let by_health = by_last_error-IsWeakOrder last_err in
      let (o, counts) = sort-InOrder (by_latency latency) by_time in
      let (o', counts') = sort-InOrder (by_last_error last_err) by_health in
      (
        λ f. (counts f, counts' f),
        λ i j a b l at there z e.
            measured (latency a) (latency b) z
              (before-Below (by_latency latency) by_time (sort sort_func c (by_latency latency)) i j
                a b o l at there)
              e,
        λ i j a b l at there e.
            healthy (last_err a) (last_err b)
              (before-Below (by_last_error last_err) by_health
                (sort sort_func c (by_last_error last_err)) i j a b o' l at there)
              e,
      )
