-- ===== src/Stream/Dispatch/History.antt =====
-- Histories of the dispatcher of internal/stream/dispatch.go.
use gorums.Prelude.{
  ℕ, ◌<◌, ◌≡◌, refl, Bool, true, false, List, [], ◌∷◌, ◌++◌, if◌then◌else◌, ltb, arith, Bool-cases,
  inl, inr, length-append, append_assoc, append-nil, ap, sym, ◌∙◌,
}
use gorums.Stream.Dispatch.{
  Dispatcher, new_dispatcher, start, claim, admit, try_push, release, finish,
}
use gorums.Stream.Dispatch.Serial.{
  holding, holding-append, IsSerial, release-IsSerial, finish-IsSerial,
}

-- The operations, each a step under the lock. A push takes a slot and is then admitted.
pub data Op : Type 0 where
  claims stops : Op
  admits tries releases finishes : ℕ → Op

unfoldable pub step : Dispatcher → Op → Dispatcher
step d claims = claim d
step d stops = record d { stopped = true }
step d (admits run) = (admit run d).0
step d (tries run) = (try_push run d).0
step d (releases i) = release i d
step d (finishes i) = finish i d

abbrev pub Enabled : Dispatcher → Op → Type 0
Enabled d claims = d.slots < d.size
Enabled d (admits run) = 0 < d.held
Enabled d stops = Unit
Enabled d (tries run) = Unit
Enabled d (releases i) = Unit
Enabled d (finishes i) = Unit

-- The handlers that the operation accepts: those for which it reports true.
abbrev pub only : Bool → ℕ → List ℕ
only b run = if b then run ∷ [] else []

unfoldable pub accepted : Dispatcher → Op → List ℕ
accepted d (admits run) = only (admit run d).1 run
accepted d (tries run) = only (try_push run d).1 run
accepted d claims = []
accepted d stops = []
accepted d (releases i) = []
accepted d (finishes i) = []

module _ (acc : List ℕ) (d : Dispatcher) (v : IsSerial acc d) where
  pub claim-IsSerial : d.slots < d.size → IsSerial acc (claim d)
  unfolding claim
  claim-IsSerial room = record {
    one = v.one;
    lost = v.lost;
    order = v.order;
    kept = v.kept;
    tokens = omega (arith, v.tokens);
    bounded = room;
    idle = v.idle;
  }

  stop-IsSerial : IsSerial acc (record d { stopped = true })
  stop-IsSerial = record {
    one = v.one;
    lost = v.lost;
    order = v.order;
    kept = λ h. cc;
    tokens = v.tokens;
    bounded = v.bounded;
    idle = v.idle;
  }

  -- With nothing lost, the handlers started and queued are all that were accepted.
  all_order : d.stopped ≡ false → d.started ++ d.queue ≡ acc
  all_order going =
      ap (λ q. d.started ++ q)
        (sym (append-nil d.queue) ∙ ap (λ l. d.queue ++ l) (sym (v.kept going)))
      ∙ v.order

  none_hold : d.running ≡ false → holding d.live ≡ 0
  none_hold free = ground (arith, v.one)

  pub admit-IsSerial :
      (run : ℕ) → 0 < d.held → IsSerial (acc ++ only (admit run d).1 run) (admit run d).0
  unfolding admit start holding
  admit-IsSerial run h = elim (Bool-cases d.stopped) [
    | inl shut ↦
        rw (admit, shut, append-nil)
          (record {
            one = v.one;
            lost = v.lost;
            order = v.order;
            kept = λ i. cc;
            tokens = omega (arith, v.tokens);
            bounded = omega (arith, v.bounded);
            idle = v.idle;
          })
    | inr going ↦ elim (Bool-cases d.running) [
      | inl busy ↦
          rw (admit, going, busy)
            (record {
              one = ground (arith, v.one, busy);
              lost = [];
              order =
                  ap (λ q. d.started ++ q) (append-nil (d.queue ++ run ∷ []))
                  ∙ sym (append_assoc d.started d.queue (run ∷ []))
                  ∙ ap (λ l. l ++ run ∷ []) (all_order going);
              kept = λ i. refl;
              tokens = omega (arith, v.tokens, length-append d.queue (run ∷ []));
              bounded = v.bounded;
              idle = λ i. cc;
            })
      | inr free ↦
          rw (admit, going, free)
            (record {
              one = omega (
                arith,
                holding-append d.live ((record { handler = run; once = false }) ∷ []),
                none_hold free,
              );
              lost = [];
              order =
                  ap (λ q. d.started ++ run ∷ [] ++ q) (append-nil d.queue ∙ v.idle free)
                  ∙ append-nil (d.started ++ run ∷ [])
                  ∙ ap (λ l. l ++ run ∷ [])
                      (sym (append-nil d.started)
                        ∙ ap (λ q. d.started ++ q) (sym (v.idle free))
                        ∙ all_order going);
              kept = λ i. refl;
              tokens = omega (arith, v.tokens);
              bounded = omega (arith, v.bounded);
              idle = λ i. v.idle free;
            })
    ]
  ]

module _ (acc : List ℕ) (d : Dispatcher) (v : IsSerial acc d) where
  pub try_push-IsSerial :
      (run : ℕ) → IsSerial (acc ++ only (try_push run d).1 run) (try_push run d).0
  unfolding try_push claim
  try_push-IsSerial run = elim (Bool-cases (ltb d.slots d.size)) [
    | inl room ↦
        rw (try_push, room)
          (admit-IsSerial acc (claim d) (claim-IsSerial acc d v (ground arith)) run (omega arith))
    | inr full ↦ rw (try_push, full, append-nil) v
  ]

  step-IsSerial : (op : Op) → Enabled d op → IsSerial (acc ++ accepted d op) (step d op)
  unfolding step accepted
  step-IsSerial claims en = rw append-nil (claim-IsSerial acc d v en)
  step-IsSerial stops en = rw append-nil (stop-IsSerial acc d v)
  step-IsSerial (admits run) en = admit-IsSerial acc d v run en
  step-IsSerial (tries run) en = try_push-IsSerial run
  step-IsSerial (releases i) en = rw append-nil (release-IsSerial acc d i v)
  step-IsSerial (finishes i) en = rw append-nil (finish-IsSerial acc d i v)

unfoldable pub run : Dispatcher → List Op → Dispatcher
run d [] = d
run d (op ∷ ops) = run (step d op) ops

abbrev pub AllEnabled : Dispatcher → List Op → Type 0
AllEnabled d [] = Unit
AllEnabled d (op ∷ ops) = Enabled d op × AllEnabled (step d op) ops

unfoldable pub all_accepted : Dispatcher → List Op → List ℕ
all_accepted d [] = []
all_accepted d (op ∷ ops) = accepted d op ++ all_accepted (step d op) ops

run_from :
    (acc : List ℕ) (d : Dispatcher) (ops : List Op)
    → IsSerial acc d
    → AllEnabled d ops
    → IsSerial (acc ++ all_accepted d ops) (run d ops)
unfolding run all_accepted
run_from acc d [] v en = rw append-nil v
run_from acc d (op ∷ ops) v en =
    rw (← append_assoc acc (accepted d op) (all_accepted (step d op) ops))
      (run_from (acc ++ accepted d op) (step d op) ops (step-IsSerial acc d v op en.0) en.1)

pub new-IsSerial : (size : ℕ) → IsSerial [] (new_dispatcher size)
unfolding new_dispatcher holding
new-IsSerial size = record {
  one = refl;
  lost = [];
  order = refl;
  kept = λ h. refl;
  tokens = refl;
  bounded = omega arith;
  idle = λ h. refl;
}

-- In any history of pushes, releases, returns and a stop, on a dispatcher with a queue of the given
-- size: the handlers that run and have not released are one if the dispatcher is busy, and none
-- else; handlers start in the order in which they were accepted, and while the dispatcher is not
-- stopped, those started and those queued are all that were accepted; the tokens taken are those of
-- the queue and of the pushes under way, at most the size; and when no handler holds, none is
-- queued.
pub run-IsSerial :
    (size : ℕ) (ops : List Op)
    → AllEnabled (new_dispatcher size) ops
    → IsSerial (all_accepted (new_dispatcher size) ops) (run (new_dispatcher size) ops)
run-IsSerial size ops en = run_from [] (new_dispatcher size) ops (new-IsSerial size) en
