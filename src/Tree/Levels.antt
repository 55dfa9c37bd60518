-- ===== src/Tree/Levels.antt =====
-- Where the levels of tree.go's tree start.
use gorums.Prelude.{ℕ, zero, suc, ◌+◌, ◌*◌, ◌≤◌, ◌<◌, ◌≡◌, none, some, arith, if◌then◌else◌, leb}
use gorums.Tree.{tree_level_start, level_start_loop, max_int, uint_mod}

-- 1 + bf + … + bf^(k - 1), the number of nodes above level k.
unfoldable pub geom : ℕ → ℕ → ℕ
geom bf zero = 0
geom bf (suc k) = 1 + bf * geom bf k

level_start_loop_lem :
    (bf k sum pow : ℕ)
    → 0 < bf
    → sum ≤ max_int
    → pow < uint_mod
    → level_start_loop bf k sum pow
      ≡ (if leb (sum + pow * geom bf k) max_int then some (sum + pow * geom bf k) else none)
unfolding level_start_loop geom
level_start_loop_lem bf zero sum pow b h p = ground arith
level_start_loop_lem bf (suc zero) sum pow b h p = ground arith
level_start_loop_lem bf (suc (suc k)) sum pow b h p =
    ground (arith, level_start_loop_lem bf (suc k) (sum + pow) (pow * bf) b)

-- `treeLevelStart` is the number of nodes above level k, or -1 if that exceeds the range of int.
pub tree_level_start_lem :
    (k bf : ℕ)
    → 0 < bf
    → tree_level_start k bf ≡ (if leb (geom bf k) max_int then some (geom bf k) else none)
unfolding tree_level_start
tree_level_start_lem k bf b =
    ground (arith, level_start_loop_lem bf k 0 1 b (omega arith) (omega arith))

pub geom_mono : (bf j k : ℕ) → 0 < bf → j ≤ k → geom bf j ≤ geom bf k
unfolding geom
geom_mono bf zero k b h = omega arith
geom_mono bf (suc j) zero b h = elim h [ ]
geom_mono bf (suc j) (suc k) b h =
    let ih : geom bf j ≤ geom bf k = geom_mono bf j k b (omega arith) in grind arith
