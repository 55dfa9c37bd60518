-- ===== src/Stream/Outbound/Loop/Ends.antt =====
-- How the loop of an outbound channel of internal/stream/outbound.go ends.
use gorums.Prelude.{
  ℕ, ◌≡◌, refl, ap, ◌∙◌, Bool, true, false, Option, none, some, List, [], ◌∷◌, arith, Bool-cases,
  inl, inr,
}
use gorums.Errors.{Error, Code, other_code, eof, node_closed}
use gorums.Stream.Request.{Request}
use gorums.Stream.SendQueue
use gorums.Stream.SendQueue.{
  SendQueue, Wake, space, done, ctx_ended, push_now, push_waiting, pop, fail,
}
use gorums.Stream.SendQueue.Steps.{fail_all_lem, fail-keeps}
use gorums.Stream.Outbound.{
  Outbound, set_stream_up, fail_request, stream_failed, closes, Awaited, gone, gives, await_round,
  Next, open_failed, after_session,
}
use gorums.Stream.Outbound.Loop.Holds.{call_back-queue}
use gorums.Stream.Outbound.Loop.{
  Phase, waits, begins, opening, sends, returned, Loop, finish, after_await, begin_round,
  next_round, Move, wakes, rounds, fails, opens, accepts, receives, tells, returns, pushes,
  push_waits, ends, shuts, move, Can,
}

abbrev pub is_over : Phase → Bool
is_over returned = true
is_over waits = false
is_over (begins _) = false
is_over (opening _) = false
is_over (sends _) = false

close-closed : (q : SendQueue) → (SendQueue.close q).closed ≡ true
unfolding SendQueue.close
close-closed q = (fail_all_lem (λ _. true) q.items (record q { closed = true; items = [] }) refl).3

push_now-closed : (req : Request) (q : SendQueue) → q.closed ≡ true → (push_now req q).closed ≡ true
unfolding push_now
push_now-closed req q h = ground (arith, (fail-keeps req q node_closed).1, h)

push_waiting-closed :
    (wake : Wake) (req : Request) (q : SendQueue)
    → q.closed ≡ true
    → (push_waiting wake req q).closed ≡ true
unfolding push_waiting
push_waiting-closed wake req q h = ground (arith, (fail-keeps req q node_closed).1, h)

set_stream_up-closed :
    (n : ℕ) (up : Bool) (c : Outbound) → (set_stream_up n up c).queue.closed ≡ c.queue.closed
unfolding set_stream_up
set_stream_up-closed n up c = ground arith

-- Once the loop has returned, its queue is closed.
abbrev pub Shut : Loop → Type 0
Shut s = is_over s.phase ≡ true → s.channel.queue.closed ≡ true

after_await-Shut : (r : Outbound × Option Awaited) → Shut (after_await r)
unfolding after_await finish
after_await-Shut (c, none) h = cc
after_await-Shut (c, some gone) h = close-closed c.queue
after_await-Shut (c, some (gives req)) h = cc

begin_round-Shut : (req : Option Request) (c : Outbound) → Shut (begin_round req c)
unfolding begin_round finish
begin_round-Shut req c = elim (Bool-cases c.ended) [
  | inl over ↦ rw (begin_round, over) (λ h. close-closed (fail_request req node_closed c.queue))
  | inr lives ↦ rw (begin_round, lives) (λ h. cc)
]

next_round-Shut : (x : Outbound × Next) → Shut (next_round x)
unfolding next_round
next_round-Shut (c, n) = elim (Bool-cases n.connect) [
  | inl again ↦ rw again (λ h. cc)
  | inr rests ↦ rw rests (λ h. cc)
]

pub move-Shut : (s : Loop) (m : Move) → Can m s → Shut s → Shut (move m s)
unfolding move pop
move-Shut s (wakes a) can v = after_await-Shut (await_round a s.channel)
move-Shut s (rounds req) can v = begin_round-Shut req s.channel
move-Shut s (fails code now e req) can v = next_round-Shut (open_failed code now req e s.channel)
move-Shut s (opens n req) can v = λ h. cc
move-Shut s (accepts n) can v = λ h. set_stream_up-closed n true s.channel ∙ v h
move-Shut s tells can v = λ h. ap (λ q. q.closed) (call_back-queue s.channel) ∙ v h
move-Shut s receives (n, at) v = λ h. cc
move-Shut s (returns code now n draining out) can v =
    next_round-Shut (after_session code now n draining out s.channel)
move-Shut s (pushes req) can v = λ h. push_now-closed req s.channel.queue (v h)
move-Shut s (push_waits ctxs wake req) can v =
    λ h. push_waiting-closed wake req s.channel.queue (v h)
move-Shut s ends can v = v
move-Shut s shuts can v = λ h. close-closed s.channel.queue

-- The moves can be made one after the other.
abbrev pub AllCan : Loop → List Move → Type 0
AllCan s [] = Unit
AllCan s (m ∷ ms) = Can m s × AllCan (move m s) ms

unfoldable pub run : Loop → List Move → Loop
run s [] = s
run s (m ∷ ms) = run (move m s) ms

abbrev pub is_sending : Phase → Bool
is_sending (sends _) = true
is_sending waits = false
is_sending (begins _) = false
is_sending (opening _) = false
is_sending returned = false

-- Moves that lead to the return.
abbrev pub CanEnd : Loop → Type 0
CanEnd s = (ms : List Move) × AllCan s ms × (is_over (run s ms).phase ≡ true)

failed_ended :
    (code : Error → Code) (now : ℕ) (req : Option Request) (e : Error) (c : Outbound)
    → c.ended ≡ true
    → (stream_failed code now req e c).ended ≡ true
unfolding stream_failed
failed_ended code now req e c h = ground arith

waits-CanEnd : (s : Loop) → s.phase ≡ waits → s.channel.ended ≡ true → CanEnd s
unfolding run move await_round after_await finish
waits-CanEnd s at h = (wakes closes ∷ [], ((at, h), tt), refl)

after-CanEnd : (m : Move) (s : Loop) → Can m s → CanEnd (move m s) → CanEnd s
unfolding run
after-CanEnd m s can (ms, all, over) = (m ∷ ms, (can, all), over)

begins-over :
    (req : Option Request) (c : Outbound)
    → c.ended ≡ true
    → is_over (begin_round req c).phase ≡ true
unfolding begin_round finish
begins-over req c h = ground arith

ended-CanEnd :
    (s : Loop) (p : Phase) → s.phase ≡ p → s.channel.ended ≡ true → is_sending p ≡ false → CanEnd s
unfolding run move open_failed next_round
ended-CanEnd s waits at h idle = waits-CanEnd s at h
ended-CanEnd s (begins req) at h idle = (rounds req ∷ [], (at, tt), begins-over req s.channel h)
ended-CanEnd s (opening req) at h idle =
    let m = fails (λ _. other_code) 0 eof req in
    after-CanEnd m s at
      (waits-CanEnd (move m s) refl (failed_ended (λ _. other_code) 0 req eof s.channel h))
ended-CanEnd s (sends n) at h idle = cc
ended-CanEnd s returned at h idle = ([], tt, ap is_over at)

-- Once its channel has ended, the loop can go on to its return, unless a session's send loop is
-- running.
pub run_ends : (s : Loop) → s.channel.ended ≡ true → is_sending s.phase ≡ false → CanEnd s
run_ends s h idle = ended-CanEnd s s.phase refl h idle
