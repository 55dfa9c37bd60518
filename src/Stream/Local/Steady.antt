-- ===== src/Stream/Local/Steady.antt =====
-- What an operation of the dispatcher of internal/stream/dispatch.go leaves as it was.
use gorums.Prelude.{
  ℕ, ◌-◌, ◌≡◌, refl, Bool, true, false, Option, none, some, List, [], ◌∷◌, ltb, arith, Bool-cases,
  Option-cases, inl, inr, get_elem?, if_both,
}
use gorums.Stream.Dispatch.{
  Dispatcher, start, take, next, claim, admit, try_push, release, take_over, finish,
}

abbrev pub Steady : Dispatcher → Dispatcher → Type 0
Steady d e = (e.stopped ≡ d.stopped) × (e.held ≡ d.held)

take-Steady : (d : Dispatcher) → Steady d (take d).0
unfolding take
take-Steady d =
    if_both (λ (t : Dispatcher × Option ℕ). Steady d t.0) d.stopped _ _ (refl, refl)
      (by_queue d.queue)
  where
    by_queue :
        (q : List ℕ)
        → Steady d
            (elim q as (λ _. Dispatcher × Option ℕ) [
              | [] ↦ (record d { running = false }, none)
              | run ∷ rest ↦ (record d { queue = rest; slots = d.slots - 1 }, some run)
            ]).0
    by_queue [] = (refl, refl)
    by_queue (run ∷ rest) = (refl, refl)

next-Steady : (d : Dispatcher) → Steady d (next d)
unfolding next start
next-Steady d = on (take d) (take-Steady d)
  where
    on :
        (t : Dispatcher × Option ℕ)
        → Steady d t.0
        → Steady d (elim t.1 as (λ _. Dispatcher) [ none ↦ t.0 | some r ↦ start r t.0 ])
    on (e, none) h = h
    on (e, some r) h = h

pub release-Steady : (i : ℕ) (d : Dispatcher) → Steady d (release i d)
unfolding release
release-Steady i d = elim (Option-cases (get_elem? d.live i)) [
  | inl absent ↦ rw (absent, release) (refl, refl)
  | inr (g, there) ↦ elim (Bool-cases g.once) [
    | inl past ↦ rw (there, release) (rw past (refl, refl))
    | inr first ↦ rw (there, release) (rw first (next-Steady _))
  ]
]

pub finish-Steady : (i : ℕ) (d : Dispatcher) → Steady d (finish i d)
unfolding finish take_over
finish-Steady i d = elim (Option-cases (get_elem? d.live i)) [
  | inl absent ↦ rw (absent, finish) (refl, refl)
  | inr (g, there) ↦ elim (Bool-cases g.once) [
    | inl past ↦ rw (there, finish) (rw past (refl, refl))
    | inr first ↦ rw (there, finish) (rw first (over (take d) (take-Steady d)))
  ]
]
  where
    over : (t : Dispatcher × Option ℕ) → Steady d t.0 → Steady d (take_over i t)
    over (e, none) h = h
    over (e, some r) h = h

-- A dispatcher that is not stopped admits.
pub admit_lem :
    (run : ℕ) (d : Dispatcher)
    → d.stopped ≡ false
    → ((admit run d).1 ≡ true)
      × ((admit run d).0.stopped ≡ false)
      × ((admit run d).0.held ≡ d.held - 1)
unfolding admit start
admit_lem run d going = elim (Bool-cases d.running) [
  | inl busy ↦ ground arith
  | inr free ↦ ground arith
]

pub try_push-Steady : (run : ℕ) (d : Dispatcher) → d.stopped ≡ false → Steady d (try_push run d).0
unfolding try_push
try_push-Steady run d going =
    if_both (λ (t : Dispatcher × Bool). Steady d t.0) (ltb d.slots d.size) _ _
      (let (_, s, h) = admit_lem run (claim d) going in (ground arith, omega (arith, h)))
      (refl, refl)
