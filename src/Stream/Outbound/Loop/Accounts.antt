-- ===== src/Stream/Outbound/Loop/Accounts.antt =====
-- What becomes of the requests of an outbound channel of internal/stream/outbound.go.
use gorums.Prelude.{
  ℕ, ◌+◌, ◌≡◌, refl, sym, ap, subst, Bool, true, false, none, List, [], ◌∷◌, ◌++◌, arith,
}
use gorums.Stream.Request.{Request}
use gorums.Stream.SendQueue.{pop}
use gorums.Stream.SendQueue.Counts
use gorums.Stream.SendQueue.Counts.{IsQueue, heard, count, audible, one, count-append, failed}
use gorums.Stream.SendQueue.Steps.{step-Accounted}
use gorums.Stream.SendQueue.Accounts.{new-IsQueue, new_accounts}
use gorums.Stream.Outbound.{open_session, await_round, open_failed}
use gorums.Stream.Outbound.Waits.{await_round-Round}
use gorums.Stream.Outbound.Loop.{
  Phase, waits, begins, opening, sends, returned, Loop, new_outbound_channel, Move, wakes, rounds,
  fails, opens, accepts, receives, tells, returns, pushes, push_waits, ends, shuts, move, Can,
}
use gorums.Stream.Outbound.Loop.Ends.{
  AllCan, run, Shut, move-Shut, is_over, is_sending, CanEnd, run_ends,
}
use gorums.Stream.Outbound.Loop.Holds.{
  hand, held, set_stream_up-queue, call_back-queue, refused-Holds, after_session-Holds,
  after_await-Holds, begin_round-Holds,
}

-- The requests that a move brings to the channel, and those that it passes to a session.
abbrev pub brought : Move → List Request
brought (wakes a) = []
brought (rounds req) = []
brought (fails code now e req) = []
brought (opens n req) = []
brought (accepts n) = []
brought receives = []
brought tells = []
brought (returns code now n draining (req, is_accepted, refusal)) = one req
brought (pushes req) = req ∷ []
brought (push_waits ctxs wake req) = req ∷ []
brought ends = []
brought shuts = []

unfoldable pub passed : Move → Loop → List Request
passed (opens n req) s = one req
passed receives s = one (pop s.channel.queue).1
passed tells s = []
passed (wakes a) s = []
passed (rounds req) s = []
passed (fails code now e req) s = []
passed (accepts n) s = []
passed (returns code now n draining out) s = []
passed (pushes req) s = []
passed (push_waits ctxs wake req) s = []
passed ends s = []
passed shuts s = []

module _ (f : Request → Bool) where
  in_hand : Phase → ℕ
  in_hand p = count (audible f) (hand p)

  -- A move accounts for what it brings and what it passes on.
  abbrev Moved : Loop → Move → Type 0
  Moved s m =
      (held f (move m s) + count (audible f) (passed m s)
        ≡ held f s + count (audible f) (brought m))
      × IsQueue (move m s).channel.queue

  move-Moved : (s : Loop) (m : Move) → Can m s → IsQueue s.channel.queue → Moved s m
  unfolding move passed count in_hand open_session open_failed Counts.step Counts.taken
  move-Moved s (wakes a) (at, _) v =
      let h =
        after_await-Holds f s.channel (await_round a s.channel)
          (await_round-Round f a s.channel v) in
      (omega (arith, h.0, ap in_hand at), h.1)
  move-Moved s (rounds req) at v =
      let h = begin_round-Holds f req s.channel v in (omega (arith, h.0, ap in_hand at), h.1)
  move-Moved s (fails code now e req) at v =
      let h = refused-Holds f code now req e s.channel s.channel refl v in
      (omega (arith, h.0, ap in_hand at), h.1)
  move-Moved s (opens n req) at v = (omega (arith, ap in_hand at), v)
  move-Moved s (accepts n) at v =
      let q = set_stream_up-queue n true s.channel in
      (omega (arith, ap (heard f) q), subst IsQueue (sym q) v)
  move-Moved s tells at v =
      let q = call_back-queue s.channel in (omega (arith, ap (heard f) q), subst IsQueue (sym q) v)
  move-Moved s receives (n, at) v =
      let a = step-Accounted f (λ _. none) false s.channel.queue v Counts.pops tt in
      (omega (arith, a.0), a.2)
  move-Moved s (returns code now n draining (req, is_accepted, refusal)) at v =
      let h = after_session-Holds f code now n draining req is_accepted refusal s.channel v in
      (omega (arith, h.0, ap in_hand at), h.1)
  move-Moved s (pushes req) at v =
      let a = step-Accounted f (λ _. none) false s.channel.queue v (Counts.pushes req) tt in
      (omega (arith, a.0), a.2)
  move-Moved s (push_waits ctxs wake req) at v =
      let a = step-Accounted f ctxs s.channel.ended s.channel.queue v (Counts.waits wake req) at in
      (omega (arith, a.0), a.2)
  move-Moved s ends at v = (omega arith, v)
  move-Moved s shuts at v =
      let a = step-Accounted f (λ _. none) false s.channel.queue v Counts.closes tt in
      (omega (arith, a.0), a.2)

-- What a history brings to the channel, and what it passes to the sessions.
unfoldable pub all_brought : List Move → List Request
all_brought [] = []
all_brought (m ∷ ms) = brought m ++ all_brought ms

unfoldable pub all_passed : Loop → List Move → List Request
all_passed s [] = []
all_passed s (m ∷ ms) = passed m s ++ all_passed (move m s) ms

run_from :
    (f : Request → Bool) (s : Loop) (ms : List Move)
    → AllCan s ms
    → IsQueue s.channel.queue
    → Shut s
    → (held f (run s ms) + count (audible f) (all_passed s ms)
        ≡ held f s + count (audible f) (all_brought ms))
      × IsQueue (run s ms).channel.queue
      × Shut (run s ms)
unfolding run all_passed all_brought count
run_from f s [] can v shut = (refl, v, shut)
run_from f s (m ∷ ms) can v shut =
    let (a, v') = move-Moved f s m can.0 v in
    let ih = run_from f (move m s) ms can.1 v' (move-Shut s m can.0 shut) in
    (
      omega (
        arith,
        a,
        ih.0,
        count-append (audible f) (passed m s) (all_passed (move m s) ms),
        count-append (audible f) (brought m) (all_brought ms),
      ),
      ih.1,
      ih.2,
    )

-- In any history of a new outbound channel, its loop loses no request and doubles none. Of each kind
-- of requests with a response channel, as many were pushed or given back by the send loops of its
-- sessions as were passed to a session, are queued, are in the loop's hands, or were answered with an
-- error. Once the loop has returned, it has no request in its hands and none is queued. When the
-- channel has ended, the loop can go on to its return, unless a session's send loop is running.
pub loop_accounts :
    (f : Request → Bool) (id send_buffer_size : ℕ) (eager : Bool) (ms : List Move)
    → AllCan (new_outbound_channel id send_buffer_size eager) ms
    → let s = run (new_outbound_channel id send_buffer_size eager) ms in
      let out = all_passed (new_outbound_channel id send_buffer_size eager) ms in
      (count (audible f) (all_brought ms)
        ≡ count (audible f) out
          + count (audible f) s.channel.queue.items
          + count (audible f) (hand s.phase)
          + count (audible f) (failed s.channel.queue))
      × (is_over s.phase ≡ true → (s.channel.queue.items ≡ []) × (hand s.phase ≡ []))
      × (s.channel.ended ≡ true → is_sending s.phase ≡ false → CanEnd s)
unfolding new_outbound_channel count
loop_accounts f id send_buffer_size eager ms can =
    let s = new_outbound_channel id send_buffer_size eager in
    let (a, v, shut) = run_from f s ms can (new-IsQueue id send_buffer_size) (λ h. cc) in
    (
      omega (arith, a, new_accounts f id send_buffer_size),
      λ over. (v.emptied (shut over), empty_hand (run s ms).phase over),
      run_ends (run s ms),
    )
  where
    empty_hand : (p : Phase) → is_over p ≡ true → hand p ≡ []
    empty_hand returned h = refl
    empty_hand waits h = refl
    empty_hand (begins _) h = cc
    empty_hand (opening _) h = cc
    empty_hand (sends _) h = refl
