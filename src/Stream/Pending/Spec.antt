-- ===== src/Stream/Pending/Spec.antt =====
-- What the table of internal/stream/pending.go promises, without its map, its sweeps and its watches.
use gorums.Prelude.{
  ℕ, suc, ◌≡◌, ◌≢◌, ◌⊎◌, Bool, true, false, Option, none, some, List, [], ◌∷◌, if◌then◌else◌,
  nat_beq, contains, comparable_nat,
}
use gorums.Errors.{Error}
use gorums.Stream.Request.{Contexts, Request}
use gorums.Stream.Pending.History.{Op, adds, takes, drains, watches, expires}

-- The calls that await a response, by their message IDs, each with its number; whether the table is
-- closed; and how many numbers were given.
pub record Awaited : Type 0 where
  pub call : ℕ → Option (Request × ℕ)
  pub closed : Bool
  pub given : ℕ

-- What an operation reports: whether it took or removed a call, or the requests that it gives back.
pub data Answer : Type 0 where
  did : Bool → Answer
  found : Option Request → Answer
  left : List Request → Answer
  done : Answer

-- A call whose context has ended may be forgotten, any other call stays.
abbrev pub MayForget : Contexts → Option (Request × ℕ) → Option (Request × ℕ) → Type 0
MayForget ctxs none after = after ≡ none
MayForget ctxs (some (r, n)) after =
    (after ≡ some (r, n)) ⊎ ((e : Error) × (ctxs r.ctx ≡ some e) × (after ≡ none))

abbrev pub Unchanged : Awaited → Awaited → Type 0
Unchanged a b = ((k : ℕ) → b.call k ≡ a.call k) × (b.closed ≡ a.closed) × (b.given ≡ a.given)

-- The call of an ID is removed, and nothing else changes.
abbrev pub Removed : ℕ → Awaited → Awaited → Type 0
Removed id a b =
    ((k : ℕ) → b.call k ≡ (if nat_beq id k then none else a.call k))
    × (b.closed ≡ a.closed)
    × (b.given ≡ a.given)

-- The requests are those of the calls under the IDs, one for each.
abbrev pub Reads : Awaited → List ℕ → List Request → Type 0
Reads a [] [] = Unit
Reads a [] (_ ∷ _) = true ≡ false
Reads a (_ ∷ _) [] = true ≡ false
Reads a (k ∷ ks) (r ∷ rs) =
    ((n : ℕ) × (a.call k ≡ some (r, n))) × (contains ks k ≡ false) × Reads a ks rs

abbrev pub AfterTake : ℕ → Option (Request × ℕ) → Awaited → Answer → Awaited → Type 0
AfterTake id none a x b = (x ≡ found none) × Unchanged a b
AfterTake id (some (r, n)) a x b =
    (x ≡ found (some r)) × (if r.streaming then Unchanged a b else Removed id a b)

abbrev pub AfterExpiry : ℕ → ℕ → Option (Request × ℕ) → Awaited → Answer → Awaited → Type 0
AfterExpiry id seq none a x b = (x ≡ did false) × Unchanged a b
AfterExpiry id seq (some (r, n)) a x b =
    if nat_beq n seq then (x ≡ did true) × Removed id a b else (x ≡ did false) × Unchanged a b

-- What each operation may do.
abbrev pub Promise : Awaited → Op → Answer → Awaited → Type 0
Promise a (adds ctxs id req) x b =
    if a.closed
    then (x ≡ did false) × Unchanged a b
    else (x ≡ did true)
      × (b.call id ≡ some (req, suc a.given))
      × (b.closed ≡ false)
      × (b.given ≡ suc a.given)
      × ((k : ℕ) → id ≢ k → MayForget ctxs (a.call k) (b.call k))
Promise a (takes id) x b = AfterTake id (a.call id) a x b
Promise a drains x b =
    ((ks : List ℕ) × (rs : List Request) × (x ≡ left rs)
      × Reads a ks rs
      × ((k : ℕ) → a.call k ≡ none ⊎ contains ks k ≡ true))
    × ((k : ℕ) → b.call k ≡ none)
    × (b.closed ≡ true)
    × (b.given ≡ a.given)
Promise a watches x b = (x ≡ done) × Unchanged a b
Promise a (expires id seq) x b = AfterExpiry id seq (a.call id) a x b

-- The operations may have the answers.
abbrev pub Conforms : Awaited → List Op → List Answer → Type 0
Conforms a [] [] = Unit
Conforms a [] (_ ∷ _) = true ≡ false
Conforms a (_ ∷ _) [] = true ≡ false
Conforms a (op ∷ ops) (x ∷ xs) = (b : Awaited) × Promise a op x b × Conforms b ops xs
