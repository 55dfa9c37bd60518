-- ===== src/Stream/Outbound/Rounds.antt =====
-- The timer between the rounds of the loop of internal/stream/outbound.go, under eager reconnect.
use gorums.Prelude.{
  ℕ, suc, ◌+◌, ◌≡◌, refl, ap, ◌∙◌, Bool, true, false, not, ◌&&◌, ◌||◌, Option, none, some, List, [],
  ◌∷◌, if◌then◌else◌, is_some, arith,
}
use gorums.Errors.{Error, Code}
use gorums.Stream.Request.{Request}
use gorums.Stream.Backoff.{new_backoff, attempt, recovered, pace}
use gorums.Stream.Backoff.Delays.{doubled, delay_after, pace-Timed, failed-Timed}
use gorums.Stream.Outbound.{Outbound, set_stream_up, stream_failed, open_failed, after_session}

-- A round opens no stream, or its session ends: the time, the request in hand, and for a session its
-- stream, whether it drains, whether the server had accepted it, and the refusal.
pub data Round : Type 0 where
  unopened : ℕ → Option Request → Error → Round
  ended : ℕ → Option Request → ℕ → Bool → Bool → Option Error → Round

unfoldable pub round : (Error → Code) → Outbound → Round → Outbound
unfolding open_failed after_session attempt
round code c (unopened now req e) =
    (open_failed code now req e (record c { backoff = attempt c.backoff })).0
round code c (ended now req s draining is_accepted refusal) =
    (after_session code now s draining (req, is_accepted, refusal)
      (record c { backoff = attempt c.backoff })).0

unfoldable pub run : (Error → Code) → Outbound → List Round → Outbound
run code c [] = c
run code c (r ∷ rs) = run code (round code c r) rs

abbrev pub time : Round → ℕ
time (unopened now req e) = now
time (ended now req s draining is_accepted refusal) = now

-- The loop waits after the round, if no stream was opened or the server refused it, and also if it was
-- lost with no request in hand and was not draining.
abbrev pub rests : Round → Bool
rests (unopened now req e) = true
rests (ended now req s draining is_accepted (some e)) = true
rests (ended now req s draining is_accepted none) = not (is_some req || draining)

-- The delays before the round's own, since the server last accepted a stream.
abbrev pub before : ℕ → Round → ℕ
before k (unopened now req e) = k
before k (ended now req s draining true refusal) = 0
before k (ended now req s draining false refusal) = k

abbrev pub delays : ℕ → List Round → ℕ
delays k [] = k
delays k (r ∷ rs) = delays (if rests r then suc (before k r) else before k r) rs

abbrev Paced : ℕ → Outbound → Type 0
Paced k c = (c.ended ≡ false) × (c.backoff.eager ≡ true) × (c.backoff.delay ≡ delay_after k)

-- After a round, the timer is set if the loop waits.
abbrev pub timer : ℕ → Round → Option ℕ
timer k r = if rests r then some (time r + delay_after (before k r)) else none

abbrev Rounded : ℕ → Round → Outbound → Type 0
Rounded k r c =
    Paced (if rests r then suc (before k r) else before k r) c × (c.backoff.retry ≡ timer k r)

down-keeps :
    (s : ℕ) (c : Outbound)
    → ((set_stream_up s false c).ended ≡ c.ended) × ((set_stream_up s false c).backoff ≡ c.backoff)
unfolding set_stream_up
down-keeps s c = (ground arith, ground arith)

-- The state before the wait, with no timer set.
abbrev Rested : ℕ → Outbound → Type 0
Rested k c = Paced k c × (c.backoff.retry ≡ none)

failed-Rounded :
    (code : Error → Code) (now k : ℕ) (req : Option Request) (e : Error) (c : Outbound)
    → Rested k c
    → Paced (suc k) (stream_failed code now req e c)
      × ((stream_failed code now req e c).backoff.retry ≡ some (now + delay_after k))
unfolding stream_failed
failed-Rounded code now k req e c ((lives, eager, d), _) =
    let t = failed-Timed code now k e c.backoff eager d in
    rw (stream_failed, lives) ((refl, t.0, t.1), t.2)

down-Rested : (k s : ℕ) (c : Outbound) → Rested k c → Rested k (set_stream_up s false c)
down-Rested k s c ((lives, eager, d), off) =
    let (same, kept) = down-keeps s c in
    (
      (same ∙ lives, ap (λ b. b.eager) kept ∙ eager, ap (λ b. b.delay) kept ∙ d),
      ap (λ b. b.retry) kept ∙ off,
    )

recovered-Rested :
    (k : ℕ) (c : Outbound) → Rested k c → Rested 0 (record c { backoff = recovered c.backoff })
unfolding recovered doubled
recovered-Rested k c ((lives, eager, d), off) = ((lives, eager, refl), off)

-- The end of a session without a refusal.
lost-Rounded :
    (now k : ℕ) (has_req draining : Bool) (c : Outbound)
    → Rested k c
    → let goes_on = has_req || (draining && c.backoff.eager) in
      let rests = not (has_req || draining) in
      let c' = if goes_on then c else record c { backoff = pace now c.backoff } in
      Paced (if rests then suc k else k) c'
      × (c'.backoff.retry ≡ (if rests then some (now + delay_after k) else none))
lost-Rounded now k true draining c v = v
lost-Rounded now k false true c ((lives, eager, d), off) = rw eager ((lives, refl, d), off)
lost-Rounded now k false false c ((lives, eager, d), off) =
    let t = pace-Timed now k c.backoff eager d in ((lives, t.0, t.1), t.2)

round-Rounded :
    (code : Error → Code) (k : ℕ) (c : Outbound) (r : Round)
    → Paced k c
    → Rounded k r (round code c r)
unfolding round open_failed after_session attempt
round-Rounded code k c (unopened now req e) v =
    failed-Rounded code now k req e (record c { backoff = attempt c.backoff }) (v, refl)
round-Rounded code k c (ended now req s draining true (some e)) v =
    let c' = set_stream_up s false (record c { backoff = attempt c.backoff }) in
    failed-Rounded code now 0 req e (record c' { backoff = recovered c'.backoff })
      (recovered-Rested k c' (down-Rested k s (record c { backoff = attempt c.backoff }) (v, refl)))
round-Rounded code k c (ended now req s draining false (some e)) v =
    failed-Rounded code now k req e
      (set_stream_up s false (record c { backoff = attempt c.backoff }))
      (down-Rested k s (record c { backoff = attempt c.backoff }) (v, refl))
round-Rounded code k c (ended now req s draining true none) v =
    let c' = set_stream_up s false (record c { backoff = attempt c.backoff }) in
    lost-Rounded now 0 (is_some req) draining (record c' { backoff = recovered c'.backoff })
      (recovered-Rested k c' (down-Rested k s (record c { backoff = attempt c.backoff }) (v, refl)))
round-Rounded code k c (ended now req s draining false none) v =
    lost-Rounded now k (is_some req) draining
      (set_stream_up s false (record c { backoff = attempt c.backoff }))
      (down-Rested k s (record c { backoff = attempt c.backoff }) (v, refl))

run-Paced :
    (code : Error → Code) (k : ℕ) (c : Outbound) (rs : List Round)
    → Paced k c
    → Paced (delays k rs) (run code c rs)
unfolding run
run-Paced code k c [] v = v
run-Paced code k c (r ∷ rs) v =
    run-Paced code (if rests r then suc (before k r) else before k r) (round code c r) rs
      (round-Rounded code k c r v).0

-- Under eager reconnect, while the channel has not ended: after any rounds of its loop, a round that
-- opens no stream, or whose stream the server refused, or whose stream was lost with no request in hand
-- and without draining, sets the timer. It fires after 50 ms doubled once for each time that the timer
-- was set since the server last accepted a stream, or 2 s if that is less. No other round sets it.
pub timer_lem :
    (code : Error → Code) (c : Outbound) (rs : List Round) (r : Round)
    → c.ended ≡ false
    → c.backoff ≡ new_backoff true
    → (round code (run code c rs) r).backoff.retry ≡ timer (delays 0 rs) r
unfolding new_backoff doubled
timer_lem code c rs r lives fresh =
    let start : Paced 0 c = (lives, ap (λ b. b.eager) fresh, ap (λ b. b.delay) fresh) in
    (round-Rounded code (delays 0 rs) (run code c rs) r (run-Paced code 0 c rs start)).1
