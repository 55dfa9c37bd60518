-- ===== src/Conn/Order.antt =====
-- internal/conn/node.go and config.go: Sort, and its comparators. The latencies and the last errors of
-- the nodes at the time of the sort are functions.
pub mod Sorted
mod Tests
use gorums.Prelude.{
  ℕ, Bool, true, false, ◌&&◌, not, Option, none, some, List, [], ◌∷◌, if◌then◌else◌, ltb, is_some,
}
use gorums.Prelude.Int.{ℤ, pos, negsuc}
use gorums.Errors.{Error}
use gorums.Conn.Config.{Node, SortFunc}

-- `cmp.Compare`, on numbers that are not negative.
unfoldable pub compare_nat : ℕ → ℕ → ℤ
compare_nat a b = if ltb a b then negsuc 0 else if ltb b a then pos 1 else pos 0

unfoldable pub compare_latency : ℤ → ℤ → ℤ
unfolding compare_nat
compare_latency (negsuc _) (negsuc _) = pos 0
compare_latency (negsuc _) (pos _) = pos 1
compare_latency (pos _) (negsuc _) = negsuc 0
compare_latency (pos a) (pos b) = compare_nat a b

-- `ByLatency`
unfoldable pub by_latency : (Node → ℤ) → Node → Node → ℤ
unfolding compare_latency
by_latency latency a b = compare_latency (latency a) (latency b)

unfoldable pub compare_error : Option Error → Option Error → ℤ
compare_error (some _) none = pos 1
compare_error none (some _) = negsuc 0
compare_error none none = pos 0
compare_error (some _) (some _) = pos 0

-- `ByLastError`
unfoldable pub by_last_error : (Node → Option Error) → Node → Node → ℤ
unfolding compare_error
by_last_error last_err a b = compare_error (last_err a) (last_err b)

-- `Config.Sort`, by `slices.SortStableFunc`.
unfoldable pub sort : SortFunc → List Node → (Node → Node → ℤ) → List Node
sort sort_stable_func [] cmp = []
sort sort_stable_func (n ∷ c) cmp = sort_stable_func cmp (n ∷ c)
