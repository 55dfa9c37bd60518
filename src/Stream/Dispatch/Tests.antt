-- ===== src/Stream/Dispatch/Tests.antt =====
-- A history of the dispatcher of internal/stream/dispatch.go.
use gorums.Prelude.{◌≡◌, refl, List, [], ◌∷◌, arith}
use gorums.Stream.Dispatch.{new_dispatcher, try_push, finish, release}
use gorums.Stream.Dispatch.Serial.{IsSerial}
use gorums.Stream.Dispatch.History.{
  Op, claims, stops, admits, tries, releases, finishes, run, step, accepted, all_accepted,
  run-IsSerial,
}

-- Handler 8 waits for handler 7, handler 9 finds the queue full, and a stop ends the rest.
abbrev handlers : List Op
handlers =
    tries 7
    ∷ claims
    ∷ admits 8
    ∷ tries 9
    ∷ releases 0
    ∷ finishes 0
    ∷ tries 10
    ∷ stops
    ∷ finishes 0
    ∷ tries 11
    ∷ []

run-IsSerial_example :
    IsSerial (all_accepted (new_dispatcher 1) handlers) (run (new_dispatcher 1) handlers)
unfolding step try_push new_dispatcher
run-IsSerial_example =
    run-IsSerial 1 handlers
      (tt, (omega arith, (omega arith, (tt, (tt, (tt, (tt, (tt, (tt, (tt, tt))))))))))

handlers_accepted : all_accepted (new_dispatcher 1) handlers ≡ 7 ∷ 8 ∷ 10 ∷ []
unfolding all_accepted accepted try_push new_dispatcher step finish release
handlers_accepted = refl

handlers_started : (run (new_dispatcher 1) handlers).started ≡ 7 ∷ 8 ∷ []
unfolding run try_push new_dispatcher step finish release
handlers_started = refl
