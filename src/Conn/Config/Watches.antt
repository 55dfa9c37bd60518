-- ===== src/Conn/Config/Watches.antt =====
-- What the consumer of `Watch` of internal/conn/config.go receives.
use gorums.Prelude.{
  ◌≡◌, refl, true, false, Option, none, some, List, [], ◌∷◌, if◌then◌else◌, Bool-cases, inl, inr,
  All, ap,
}
use gorums.Conn.Config.{Node, equal, Watch, tick, receive}

-- What is received by a consumer that receives after every tick.
unfoldable pub prompt : Watch → List (List Node) → List (Option (List Node))
prompt w [] = []
prompt w (fresh ∷ later) = let (w', got) = receive (tick fresh w) in got ∷ prompt w' later

-- The results that differ from the last one that differed.
unfoldable pub changes : List Node → List (List Node) → List (Option (List Node))
changes current [] = []
changes current (fresh ∷ later) =
    if equal fresh current then none ∷ changes current later else some fresh ∷ changes fresh later

-- A consumer that receives after every tick gets a result exactly when it differs from the last
-- result that it got.
pub prompt_lem :
    (current : List Node) (results : List (List Node))
    → prompt (record { current = current; channel = none }) results ≡ changes current results
unfolding prompt changes tick receive
prompt_lem current [] = refl
prompt_lem current (fresh ∷ later) = elim (Bool-cases (equal fresh current)) [
  | inl same ↦ rw same (ap (◌∷◌ none) (prompt_lem current later))
  | inr other ↦ rw other (ap (◌∷◌ (some fresh)) (prompt_lem fresh later))
]

unfoldable pub ticks : List (List Node) → Watch → Watch
ticks [] w = w
ticks (fresh ∷ later) w = ticks later (tick fresh w)

ticks_same :
    (results : List (List Node)) (current : List Node)
    → All (λ r. equal r current ≡ true) results
    → ticks results (record { current = current; channel = none })
      ≡ record { current = current; channel = none }
unfolding ticks tick
ticks_same [] current h = refl
ticks_same (r ∷ results) current h = rw h.0 (ticks_same results current h.1)

-- A result that differs while the last one sent was not received is never sent: when the consumer
-- then receives the old result, and `derive` goes on to return the new one, nothing more comes.
pub watch_starves :
    (w : Watch) (unread fresh : List Node) (results : List (List Node))
    → w.channel ≡ some unread
    → equal fresh w.current ≡ false
    → All (λ r. equal r fresh ≡ true) results
    → let (w', got) = receive (tick fresh w) in
      (got ≡ some unread) × (ticks results w' ≡ record { current = fresh; channel = none })
unfolding tick receive
watch_starves w unread fresh results full differs same =
    rw (differs, full) (refl, ticks_same results fresh same)
