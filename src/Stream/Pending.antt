-- ===== src/Stream/Pending.antt =====
-- internal/stream/pending.go: the table of calls that await responses. The map is an association
-- list without repeated IDs, in any order.
pub mod Table
pub mod Invariant
pub mod History
pub mod Sweeps
pub mod Calls
pub mod Spec
pub mod Refines
use gorums.Prelude.{
  ℕ, suc, ◌+◌, ◌*◌, ◌≡◌, Bool, true, false, not, ◌&&◌, Option, none, some, List, [], ◌∷◌, ◌++◌, map,
  if◌then◌else◌, is_some, nat_beq, ltb, leb, length, keep, max,
}
use gorums.Stream.Request.{Request, Contexts}

abbrev pub min_sweep_size : ℕ
min_sweep_size = 64

-- `watched` stands for a stop function that is not nil.
pub record PendingCall : Type 0 where
  pub req : Request
  pub seq : ℕ
  pub watched : Bool

-- `watching` is whether onExpire is set; `seq` counts adds, and does not reach 2^64.
pub record PendingCalls : Type 0 where
  pub calls : List (ℕ × PendingCall)
  pub closed : Bool
  pub seq : ℕ
  pub sweep_at : ℕ
  pub watching : Bool

abbrev pub new_pending : PendingCalls
new_pending = record { calls = []; closed = false; seq = 0; sweep_at = 0; watching = false }

-- The map: lookup, delete and assignment.
unfoldable pub find : ℕ → List (ℕ × PendingCall) → Option PendingCall
find k [] = none
find k ((j, c) ∷ m) = if nat_beq j k then some c else find k m

unfoldable pub delete : ℕ → List (ℕ × PendingCall) → List (ℕ × PendingCall)
delete k [] = []
delete k ((j, c) ∷ m) = let rest = delete k m in if nat_beq j k then rest else (j, c) ∷ rest

unfoldable pub assign : ℕ → PendingCall → List (ℕ × PendingCall) → List (ℕ × PendingCall)
unfolding delete
assign k c m = (k, c) ∷ delete k m

-- `sweepLocked`
unfoldable pub sweep_calls : Contexts → List (ℕ × PendingCall) → List (ℕ × PendingCall)
sweep_calls ctxs [] = []
sweep_calls ctxs ((j, c) ∷ m) =
    let rest = sweep_calls ctxs m in if is_some (ctxs c.req.ctx) then rest else (j, c) ∷ rest

unfoldable pub sweep : Contexts → PendingCalls → PendingCalls
unfolding sweep_calls
sweep ctxs p =
    let live = sweep_calls ctxs p.calls in record p { calls = live; sweep_at = 2 * length live }

unfoldable pub add : Contexts → ℕ → Request → PendingCalls → PendingCalls × Bool
unfolding sweep assign
add ctxs msg_id req p =
    if p.closed
    then (p, false)
    else let p' =
        if leb (max p.sweep_at min_sweep_size) (length p.calls) then sweep ctxs p else p in
      (
        record p' {
          seq = suc p'.seq;
          calls =
              assign msg_id (record { req = req; seq = suc p'.seq; watched = p'.watching })
                p'.calls;
        },
        true,
      )

unfoldable pub take : ℕ → PendingCalls → PendingCalls × Option Request
unfolding find delete
take msg_id p = elim (find msg_id p.calls) [
  | none ↦ (p, none)
  | some c ↦ (if c.req.streaming then p else record p { calls = delete msg_id p.calls }, some c.req)
]

unfoldable pub drain : PendingCalls → PendingCalls × List Request
drain p = (record p { closed = true; calls = [] }, map (λ e. e.1.req) p.calls)

unfoldable pub watch_calls : List (ℕ × PendingCall) → List (ℕ × PendingCall)
watch_calls [] = []
watch_calls ((j, c) ∷ m) = (j, record c { watched = true }) ∷ watch_calls m

unfoldable pub watch_expiry : PendingCalls → PendingCalls
unfolding watch_calls
watch_expiry p = if p.watching then p else record p { watching = true; calls = watch_calls p.calls }

-- The function that `watchLocked` runs when the context of the call it was given ends: the table
-- after it, and whether it removed the call, and so calls onExpire.
unfoldable pub expire : ℕ → ℕ → PendingCalls → PendingCalls × Bool
unfolding find delete
expire msg_id seq p = elim (find msg_id p.calls) [
  | none ↦ (p, false)
  | some c ↦
      if nat_beq c.seq seq then (record p { calls = delete msg_id p.calls }, true) else (p, false)
]
