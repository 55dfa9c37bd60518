-- ===== src/Stream/Outbound/Waits.antt =====
-- internal/stream/outbound.go: the wait for a request, also while a refusal is in force.
use gorums.Prelude.{
  ℕ, ◌+◌, ◌<◌, ◌≡◌, refl, sym, ◌∙◌, ap, subst, Bool, false, Option, none, some, List, [], ◌∷◌,
  arith,
}
use gorums.Errors.{Error}
use gorums.Stream.Request.{Request}
use gorums.Stream.SendQueue.{SendQueue, pop}
use gorums.Stream.SendQueue.Counts
use gorums.Stream.SendQueue.Counts.{IsQueue, heard, count, audible, one}
use gorums.Stream.SendQueue.Steps.{step-Accounted, heard-fail, fail-keeps}
use gorums.Stream.Backoff.{Backoff, refusing}
use gorums.Stream.Outbound.{
  Outbound, Awake, closes, takes, retries, Awaited, gone, gives, await, await_round, await_taken,
}

-- The request that `await` returned.
abbrev pub returned : Option Awaited → List Request
returned none = []
returned (some gone) = []
returned (some (gives req)) = one req

module _ (f : Request → Bool) where
  abbrev Kept : Outbound → Outbound × Option Awaited → Type 0
  Kept c r =
      (heard f r.0.queue + count (audible f) (returned r.1) ≡ heard f c.queue)
      × (r.0.backoff ≡ c.backoff)

  popped :
      (q : SendQueue)
      → IsQueue q
      → (heard f (pop q).0 + count (audible f) (one (pop q).1) ≡ heard f q) × IsQueue (pop q).0
  unfolding Counts.step Counts.taken count
  popped q v =
      let a = step-Accounted f (λ _. none) false q v Counts.pops tt in (omega (arith, a.0), a.2)

  -- A round keeps the queue within its bounds, too.
  abbrev pub Round : Outbound → Outbound × Option Awaited → Type 0
  Round c r = Kept c r × IsQueue r.0.queue

  await_taken-Round :
      (taken : Option Request) (refusal : Option Error) (q : SendQueue) (c : Outbound)
      → heard f q + count (audible f) (one taken) ≡ heard f c.queue
      → IsQueue q
      → IsQueue c.queue
      → Round c (await_taken taken refusal q c)
  unfolding await_taken count
  await_taken-Round none refusal q c e iq v = ((omega arith, refl), v)
  await_taken-Round (some req) (some d) q c e iq v =
      let same = fail-keeps req q d in
      (
        (omega (arith, e, heard-fail f req q d), refl),
        record {
          bounded = ground (arith, same, iq.bounded);
          emptied = λ h. same.0 ∙ iq.emptied (sym same.1 ∙ h);
        },
      )
  await_taken-Round (some req) none q c e iq v = ((omega (arith, e), refl), iq)

  pub await_round-Round : (a : Awake) (c : Outbound) → IsQueue c.queue → Round c (await_round a c)
  unfolding await_round count
  await_round-Round closes c v = ((omega arith, refl), v)
  await_round-Round retries c v = ((omega arith, refl), v)
  await_round-Round (takes now) c v =
      let p = popped c.queue v in
      await_taken-Round (pop c.queue).1 (refusing now c.backoff) (pop c.queue).0 c p.0 p.1 v

  rest-Kept :
      (result : Option Awaited) (c c' : Outbound) (rest : Outbound × Option Awaited)
      → Kept c (c', result)
      → Kept c' rest
      → Kept c (elim result [ none ↦ rest | some x ↦ (c', some x) ])
  unfolding count
  rest-Kept none c c' rest k w = (omega (arith, k.0, w.0), w.1 ∙ k.1)
  rest-Kept (some x) c c' rest k w = k

  -- The request that `await` takes from the queue is failed, or it is the one returned.
  pub await-Kept : (es : List Awake) (c : Outbound) → IsQueue c.queue → Kept c (await es c)
  unfolding await count
  await-Kept [] c v = (omega arith, refl)
  await-Kept (a ∷ es) c v =
      let first = await_round-Round a c v in
      let (c', result) = await_round a c in
      rest-Kept result c c' (await es c') first.0 (await-Kept es c' first.1)

-- Requests taken before a time.
abbrev pub Before : ℕ → List Awake → Type 0
Before t [] = Unit
Before t (closes ∷ es) = Before t es
Before t (retries ∷ es) = Before t es
Before t (takes now ∷ es) = (now < t) × Before t es

first-Before : (a : Awake) (es : List Awake) (t : ℕ) → Before t (a ∷ es) → Before t (a ∷ [])
first-Before closes es t b = tt
first-Before retries es t b = tt
first-Before (takes now) es t b = (b.0, tt)

rest-Before : (a : Awake) (es : List Awake) (t : ℕ) → Before t (a ∷ es) → Before t es
rest-Before closes es t b = b
rest-Before retries es t b = b
rest-Before (takes now) es t b = b.1

await_taken_refused :
    (taken : Option Request) (d : Option Error) (e : Error) (q : SendQueue) (c : Outbound)
    → d ≡ some e
    → (returned (await_taken taken d q c).1 ≡ [])
      × ((await_taken taken d q c).0.backoff ≡ c.backoff)
unfolding await_taken
await_taken_refused none d e q c h = (refl, refl)
await_taken_refused (some req) none e q c h = cc
await_taken_refused (some req) (some d) e q c h = (refl, refl)

await_round_refused :
    (e : Error) (a : Awake) (c : Outbound)
    → c.backoff.refusal ≡ some e
    → Before c.backoff.until (a ∷ [])
    → (returned (await_round a c).1 ≡ []) × ((await_round a c).0.backoff ≡ c.backoff)
unfolding await_round refusing
await_round_refused e closes c h b = (refl, refl)
await_round_refused e retries c h b = (refl, refl)
await_round_refused e (takes now) c h b =
    await_taken_refused (pop c.queue).1 (refusing now c.backoff) e (pop c.queue).0 c
      (ground (arith, h))

rest_refused :
    (result : Option Awaited) (c' : Outbound) (rest : Outbound × Option Awaited)
    → returned result ≡ []
    → returned rest.1 ≡ []
    → returned
        (elim result as (λ _. Outbound × Option Awaited) [ none ↦ rest | some x ↦ (c', some x) ]).1
      ≡ []
rest_refused none c' rest h w = w
rest_refused (some x) c' rest h w = h

-- While a refusal is in force, `await` returns no request.
pub await_refuses :
    (e : Error) (es : List Awake) (c : Outbound)
    → c.backoff.refusal ≡ some e
    → Before c.backoff.until es
    → returned (await es c).1 ≡ []
unfolding await
await_refuses e [] c h b = refl
await_refuses e (a ∷ es) c h b =
    let first = await_round_refused e a c h (first-Before a es c.backoff.until b) in
    let c' = (await_round a c).0 in
    rest_refused (await_round a c).1 c' (await es c') first.0 (
      await_refuses e es c' (ap (λ k. k.refusal) first.1 ∙ h) (
        subst (λ (k : Backoff). Before k.until es) (sym first.1)
          (rest-Before a es c.backoff.until b)))
