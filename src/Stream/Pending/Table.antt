-- ===== src/Stream/Pending/Table.antt =====
-- The laws of the map of internal/stream/pending.go.
use gorums.Prelude.{
  ℕ, ◌≤◌, ◌≡◌, refl, true, false, Option, none, some, List, [], ◌∷◌, if◌then◌else◌, is_some,
  nat_beq, length, arith,
}
use gorums.Stream.Request.{Contexts}
use gorums.Stream.Pending.{PendingCall, find, delete, assign, sweep_calls, watch_calls}

-- No key stands twice.
abbrev pub IsMap : List (ℕ × PendingCall) → Type 0
IsMap [] = Unit
IsMap ((k, c) ∷ m) = (find k m ≡ none) × IsMap m

pub find-delete :
    (j k : ℕ) (m : List (ℕ × PendingCall))
    → find j (delete k m) ≡ (if nat_beq k j then none else find j m)
unfolding find delete
find-delete j k [] = ground arith
find-delete j k ((i, c) ∷ m) = ground (arith, find-delete j k m)

pub find-assign :
    (j k : ℕ) (c : PendingCall) (m : List (ℕ × PendingCall))
    → find j (assign k c m) ≡ (if nat_beq k j then some c else find j m)
unfolding find assign
find-assign j k c m = ground (arith, find-delete j k m)

pub find-watch_calls :
    (k : ℕ) (m : List (ℕ × PendingCall))
    → find k (watch_calls m)
      ≡ (elim (find k m) [ none ↦ none | some c ↦ some (record c { watched = true }) ])
unfolding find watch_calls
find-watch_calls k [] = refl
find-watch_calls k ((j, c) ∷ m) = ground (arith, find-watch_calls k m)

abbrev pub live_only : Contexts → Option PendingCall → Option PendingCall
live_only ctxs none = none
live_only ctxs (some c) = if is_some (ctxs c.req.ctx) then none else some c

-- A sweep removes the calls whose contexts have ended, and no other.
pub find-sweep_calls :
    (ctxs : Contexts) (k : ℕ) (m : List (ℕ × PendingCall))
    → IsMap m
    → find k (sweep_calls ctxs m) ≡ live_only ctxs (find k m)
unfolding find sweep_calls
find-sweep_calls ctxs k [] u = refl
find-sweep_calls ctxs k ((j, c) ∷ m) u = ground (arith, find-sweep_calls ctxs k m u.1, u.0)

pub delete-IsMap : (k : ℕ) (m : List (ℕ × PendingCall)) → IsMap m → IsMap (delete k m)
unfolding delete
delete-IsMap k [] u = tt
delete-IsMap k ((j, c) ∷ m) u =
    elim (nat_beq j k) as (λ b. IsMap (if b then delete k m else (j, c) ∷ delete k m)) [
      | true ↦ delete-IsMap k m u.1
      | false ↦ (ground (arith, find-delete j k m, u.0), delete-IsMap k m u.1)
    ]

pub assign-IsMap :
    (k : ℕ) (c : PendingCall) (m : List (ℕ × PendingCall)) → IsMap m → IsMap (assign k c m)
unfolding assign
assign-IsMap k c m u = (ground (arith, find-delete k k m), delete-IsMap k m u)

pub watch_calls-IsMap : (m : List (ℕ × PendingCall)) → IsMap m → IsMap (watch_calls m)
unfolding watch_calls
watch_calls-IsMap [] u = tt
watch_calls-IsMap ((k, c) ∷ m) u =
    (ground (arith, find-watch_calls k m, u.0), watch_calls-IsMap m u.1)

pub sweep_calls-IsMap :
    (ctxs : Contexts) (m : List (ℕ × PendingCall)) → IsMap m → IsMap (sweep_calls ctxs m)
unfolding sweep_calls
sweep_calls-IsMap ctxs [] u = tt
sweep_calls-IsMap ctxs ((k, c) ∷ m) u =
    elim (is_some (ctxs c.req.ctx))
      as (λ b. IsMap (if b then sweep_calls ctxs m else (k, c) ∷ sweep_calls ctxs m)) [
        | true ↦ sweep_calls-IsMap ctxs m u.1
        | false ↦ (ground (arith, find-sweep_calls ctxs k m u.1, u.0), sweep_calls-IsMap ctxs m u.1)
      ]

pub length-delete-le : (k : ℕ) (m : List (ℕ × PendingCall)) → length (delete k m) ≤ length m
unfolding delete
length-delete-le k [] = omega arith
length-delete-le k ((j, c) ∷ m) = ground (arith, length-delete-le k m)

pub length-sweep_calls-le :
    (ctxs : Contexts) (m : List (ℕ × PendingCall)) → length (sweep_calls ctxs m) ≤ length m
unfolding sweep_calls
length-sweep_calls-le ctxs [] = omega arith
length-sweep_calls-le ctxs ((j, c) ∷ m) = ground (arith, length-sweep_calls-le ctxs m)

pub length-watch_calls : (m : List (ℕ × PendingCall)) → length (watch_calls m) ≡ length m
unfolding watch_calls
length-watch_calls [] = refl
length-watch_calls ((j, c) ∷ m) = ground (arith, length-watch_calls m)
