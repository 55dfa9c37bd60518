-- ===== src/Stream/Backoff/Delays.antt =====
-- The delays between attempts of internal/stream/outbound.go.
use gorums.Prelude.{ℕ, zero, suc, ◌+◌, ◌*◌, ◌≡◌, true, none, some, if◌then◌else◌, ltb, min, arith}
use gorums.Errors.{Error, Code}
use gorums.Stream.Backoff.{Backoff, is_refusal, next, pace, failed, refusing}

-- 50 ms, doubled the given number of times.
unfoldable pub doubled : ℕ → ℕ
doubled zero = 50
doubled (suc n) = 2 * doubled n

-- After so many delays, the next one.
abbrev pub delay_after : ℕ → ℕ
delay_after k = min (doubled k) 2000

-- A timer was set for the next delay, from now on.
abbrev pub Timed : ℕ → ℕ → Backoff → Type 0
Timed k now b =
    (b.eager ≡ true) × (b.delay ≡ delay_after (suc k)) × (b.retry ≡ some (now + delay_after k))

pub pace-Timed :
    (now k : ℕ) (b : Backoff) → b.eager ≡ true → b.delay ≡ delay_after k → Timed k now (pace now b)
unfolding pace next doubled
pace-Timed now k b eager d = ground (arith, d)

module _ (code : Error → Code) where
  pub failed-Timed :
      (now k : ℕ) (e : Error) (b : Backoff)
      → b.eager ≡ true
      → b.delay ≡ delay_after k
      → Timed k now (failed code now e b)
  unfolding failed pace next doubled
  failed-Timed now k e b eager d = ground (arith, d)

  -- After a refusal, requests fail with it until its delay has ended, and not from then on. Another
  -- failure leaves the refusal and its end as they were.
  pub refusing_lem :
      (b : Backoff) (now later : ℕ) (e : Error)
      → refusing later (failed code now e b) ≡ (
          if is_refusal (code e)
          then if ltb later (now + b.delay) then some e else none
          else refusing later b)
  unfolding refusing failed pace next
  refusing_lem b now later e = ground arith
