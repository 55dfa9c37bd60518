-- ===== src/Stream/Backoff.antt =====
-- The backoff of internal/stream/outbound.go, and internal/stream/errors.go's test for a refusal.
-- Times are in milliseconds, and one operation reads the clock once.
pub mod Delays
use gorums.Prelude.{
  ℕ, ◌+◌, ◌*◌, Bool, true, false, Option, none, some, if◌then◌else◌, ltb, min, is_some,
}
use gorums.Errors.{
  Error, Code, unavailable, resource_exhausted, unauthenticated, permission_denied,
  invalid_argument, unimplemented, other_code,
}

abbrev pub base_delay : ℕ
base_delay = 50

abbrev pub max_delay : ℕ
max_delay = 2000

-- `isRefusal`, by the code that gRPC's `status.Code` gives.
unfoldable pub is_refusal : Code → Bool
is_refusal unauthenticated = true
is_refusal permission_denied = true
is_refusal invalid_argument = true
is_refusal unimplemented = true
is_refusal unavailable = false
is_refusal resource_exhausted = false
is_refusal other_code = false

-- `retry` is when the timer fires.
pub record Backoff : Type 0 where
  pub eager : Bool
  pub delay : ℕ
  pub retry : Option ℕ
  pub refusal : Option Error
  pub until : ℕ

unfoldable pub new_backoff : Bool → Backoff
new_backoff eager = record {
  eager = eager;
  delay = base_delay;
  retry = none;
  refusal = none;
  until = 0;
}

unfoldable pub attempt : Backoff → Backoff
attempt b = record b { retry = none }

unfoldable pub suspect : Backoff → Bool
suspect b = is_some b.refusal

unfoldable pub recovered : Backoff → Backoff
recovered b = record b { delay = base_delay; refusal = none }

-- `next`: when the delay ends, and the delay doubled.
unfoldable pub next : ℕ → Backoff → Backoff × ℕ
next now b = (record b { delay = min (2 * b.delay) max_delay }, now + b.delay)

unfoldable pub pace : ℕ → Backoff → Backoff
unfolding next
pace now b = if b.eager then record (next now b).0 { retry = some (next now b).1 } else b

unfoldable pub failed : (Error → Code) → ℕ → Error → Backoff → Backoff
unfolding is_refusal next pace
failed code now e b =
    let t = next now (record b { refusal = some e }) in
    if is_refusal (code e)
    then record t.0 { until = t.1; retry = if b.eager then some t.1 else t.0.retry }
    else pace now b

unfoldable pub refusing : ℕ → Backoff → Option Error
refusing now b = if is_some b.refusal then if ltb now b.until then b.refusal else none else none
