-- ===== src/Stream/Outbound/Loop/Holds.antt =====
-- The requests that the loop of internal/stream/outbound.go has in its hands.
use gorums.Prelude.{
  ℕ, ◌+◌, ◌≡◌, refl, sym, ap, subst, ◌∙◌, Bool, true, false, Option, none, some, List, [],
  if◌then◌else◌, is_some, ◌&&◌, ◌||◌, arith, Bool-cases, inl, inr,
}
use gorums.Errors.{Error, Code, node_closed}
use gorums.Stream.Request.{Request}
use gorums.Stream.SendQueue.{SendQueue}
use gorums.Stream.SendQueue.Counts
use gorums.Stream.SendQueue.Counts.{IsQueue, heard, count, audible, one, count-append, failed}
use gorums.Stream.SendQueue.Steps.{step-Accounted, heard-fail, fail-keeps}
use gorums.Stream.Backoff.{recovered, pace}
use gorums.Stream.Outbound.{
  Outbound, set_stream_up, call_back, fail_request, stream_failed, Awaited, gone, gives,
  after_session,
}
use gorums.Stream.Outbound.Waits.{Round}
use gorums.Stream.Outbound.Loop.{
  Phase, waits, begins, opening, sends, returned, Loop, finish, after_await, begin_round,
  next_round,
}

-- The request in the hands of the loop.
abbrev pub hand : Phase → List Request
hand waits = []
hand (begins req) = one req
hand (opening req) = one req
hand (sends n) = []
hand returned = []

pub set_stream_up-queue :
    (n : ℕ) (up : Bool) (c : Outbound) → (set_stream_up n up c).queue ≡ c.queue
unfolding set_stream_up
set_stream_up-queue n up c = ground arith

pub call_back-queue : (c : Outbound) → (call_back c).queue ≡ c.queue
unfolding call_back
call_back-queue c = ground arith

-- The channel once the stream is down, by whether the server had accepted it.
abbrev after_end : ℕ → Bool → Outbound → Outbound
after_end n true c =
    let down = set_stream_up n false c in record down { backoff = recovered down.backoff }
after_end n false c = set_stream_up n false c

module _ (f : Request → Bool) where
  -- The requests of a kind that the channel answers for: in its queue, answered with an error, or in
  -- the hands of its loop.
  abbrev pub held : Loop → ℕ
  held s = heard f s.channel.queue + count (audible f) (hand s.phase)

  -- With so many requests of the kind, and the queue within its bounds.
  abbrev pub Holds : ℕ → Loop → Type 0
  Holds n s = (held s ≡ n) × IsQueue s.channel.queue

  -- A queue that answers for so many.
  abbrev Answers : ℕ → SendQueue → Type 0
  Answers n q = (heard f q ≡ n) × IsQueue q

  fail_request-Answers :
      (req : Option Request) (e : Error) (q : SendQueue)
      → IsQueue q
      → Answers (heard f q + count (audible f) (one req)) (fail_request req e q)
  unfolding fail_request count
  fail_request-Answers none e q v = (omega arith, v)
  fail_request-Answers (some req) e q v =
      let same = fail-keeps req q e in
      (
        heard-fail f req q e,
        record {
          bounded = ground (arith, same, v.bounded);
          emptied = λ h. same.0 ∙ v.emptied (sym same.1 ∙ h);
        },
      )

  pub finish-Holds : (n : ℕ) (c : Outbound) → Answers n c.queue → Holds n (finish c)
  unfolding finish Counts.step Counts.taken count
  finish-Holds n c (h, v) =
      let a = step-Accounted f (λ _. none) false c.queue v Counts.closes tt in
      (omega (arith, a.0), a.2)

  stream_failed-Answers :
      (code : Error → Code) (now : ℕ) (req : Option Request) (e : Error) (c : Outbound)
      → IsQueue c.queue
      → Answers
          (heard f c.queue + count (audible f) (one req))
          (stream_failed code now req e c).queue
  unfolding stream_failed
  stream_failed-Answers code now req e c v = elim (Bool-cases c.ended) [
    | inl over ↦ rw (stream_failed, over) (fail_request-Answers req node_closed c.queue v)
    | inr lives ↦ rw (stream_failed, lives) (fail_request-Answers req e c.queue v)
  ]

  pub next_round-Holds :
      (c : Outbound) (req : Option Request) (connect : Bool)
      → (is_some req ≡ true → connect ≡ true)
      → IsQueue c.queue
      → Holds
          (heard f c.queue + count (audible f) (one req))
          (next_round (c, record { req = req; connect = connect }))
  unfolding next_round count
  next_round-Holds c req true h v = (refl, v)
  next_round-Holds c none false h v = (refl, v)
  next_round-Holds c (some req) false h v = cc (h refl)

  pub refused-Holds :
      (code : Error → Code) (now : ℕ) (req : Option Request) (e : Error) (c' c : Outbound)
      → c'.queue ≡ c.queue
      → IsQueue c.queue
      → Holds
          (heard f c.queue + count (audible f) (one req))
          (next_round (stream_failed code now req e c', record { req = none; connect = false }))
  unfolding next_round count
  refused-Holds code now req e c' c same v =
      let a = stream_failed-Answers code now req e c' (subst IsQueue (sym same) v) in
      (omega (arith, a.0, ap (heard f) same), a.1)

  connects : (req : Option Request) (b : Bool) → is_some req ≡ true → (is_some req || b) ≡ true
  connects none b h = cc
  connects (some req) b h = refl

  paced-queue :
      (c' : Outbound) (connect : Bool) (now : ℕ)
      → (if connect then c' else record c' { backoff = pace now c'.backoff }).queue ≡ c'.queue
  paced-queue c' true now = refl
  paced-queue c' false now = refl

  ended-Holds :
      (req : Option Request) (now : ℕ) (b : Bool) (c' c : Outbound)
      → c'.queue ≡ c.queue
      → IsQueue c.queue
      → Holds (heard f c.queue + count (audible f) (one req)) (
          next_round (
            if is_some req || b then c' else record c' { backoff = pace now c'.backoff },
            record { req = req; connect = is_some req || b },
          ))
  ended-Holds req now b c' c same v =
      let q = paced-queue c' (is_some req || b) now ∙ same in
      let a =
        next_round-Holds
          (if is_some req || b then c' else record c' { backoff = pace now c'.backoff }) req
          (is_some req || b) (connects req b) (subst IsQueue (sym q) v) in
      (a.0 ∙ ap (λ k. heard f k + count (audible f) (one req)) q, a.1)

  pub after_session-Holds :
      (code : Error → Code) (now n : ℕ) (draining : Bool) (req : Option Request)
      (is_accepted : Bool) (refusal : Option Error) (c : Outbound)
      → IsQueue c.queue
      → Holds
          (heard f c.queue + count (audible f) (one req))
          (next_round (after_session code now n draining (req, is_accepted, refusal) c))
  unfolding after_session
  after_session-Holds code now n draining req true (some e) c v =
      refused-Holds code now req e (after_end n true c) c (set_stream_up-queue n false c) v
  after_session-Holds code now n draining req false (some e) c v =
      refused-Holds code now req e (after_end n false c) c (set_stream_up-queue n false c) v
  after_session-Holds code now n draining req true none c v =
      let c' = after_end n true c in
      ended-Holds req now (draining && c'.backoff.eager) c' c (set_stream_up-queue n false c) v
  after_session-Holds code now n draining req false none c v =
      let c' = after_end n false c in
      ended-Holds req now (draining && c'.backoff.eager) c' c (set_stream_up-queue n false c) v

  pub after_await-Holds :
      (c : Outbound) (r : Outbound × Option Awaited)
      → Round f c r
      → Holds (heard f c.queue) (after_await r)
  unfolding after_await count
  after_await-Holds c (c', none) ((k, _), v) = (omega (arith, k), v)
  after_await-Holds c (c', some gone) ((k, _), v) =
      finish-Holds (heard f c.queue) c' (omega (arith, k), v)
  after_await-Holds c (c', some (gives req)) ((k, _), v) = (omega (arith, k), v)

  pub begin_round-Holds :
      (req : Option Request) (c : Outbound)
      → IsQueue c.queue
      → Holds (heard f c.queue + count (audible f) (one req)) (begin_round req c)
  unfolding begin_round count
  begin_round-Holds req c v = elim (Bool-cases c.ended) [
    | inl over ↦
        rw (begin_round, over)
          (finish-Holds (heard f c.queue + count (audible f) (one req))
            (record c { queue = fail_request req node_closed c.queue })
            (fail_request-Answers req node_closed c.queue v))
    | inr lives ↦ rw (begin_round, lives) (refl, v)
  ]
