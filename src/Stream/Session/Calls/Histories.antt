-- ===== src/Stream/Session/Calls/Histories.antt =====
-- internal/stream/session.go: the two-way calls of a session over a history of it.
use gorums.Prelude.{
  ℕ, ◌+◌, ◌≡◌, refl, subst, Bool, false, none, List, [], ◌++◌, arith, Option-cases, inl, inr,
  if_both,
}
use gorums.Prelude.Go.{Go, returns, panics, IfReturns}
use gorums.Errors.{Error, Code, ErrorsIs}
use gorums.Stream.Request.{Request, Contexts}
use gorums.Stream.Pending
use gorums.Stream.Pending.{PendingCall, PendingCalls, find, delete}
use gorums.Stream.Pending.Invariant.{IsTable}
use gorums.Stream.SendQueue.Counts
use gorums.Stream.SendQueue.Counts.{count, count-append, audible, IsQueue, one}
use gorums.Stream.Session.{Session, end_if_drained, record_health}
use gorums.Stream.Session.Steps.{
  Step, step, Enabled, takes, quits, oks, settles, drains, cancels, closes, checks, adds, fails,
  hears, send_errs, recv_errs, header, frames, expires, ends, pushes, waits,
}
use gorums.Stream.Session.Verdict.{IsSession}
use gorums.Stream.Session.Verdict.Reached.{Reaches, now, after, Reaches-IsSession}
use gorums.Stream.Session.Calls.{call, open_calls, answered, given, abandoned, expired, IsFresh}
use gorums.Stream.Session.Calls.Moves.{count-delete}
use gorums.Stream.Session.Calls.Balance.{
  IsBalanced, queue_step, quiet-IsBalanced, end_session-IsBalanced, end_if_drained-IsBalanced,
  start_drain-IsBalanced, settle-IsBalanced,
}
use gorums.Stream.Session.Calls.Receiving.{
  accept-IsBalanced, receive_frame-IsBalanced, receive_failed-IsBalanced,
}
use gorums.Stream.Session.Calls.Sending.{
  take_request-IsBalanced, quit-IsBalanced, check_request-IsBalanced,
}
use gorums.Stream.Session.Calls.Adds.{add_pending-IsBalanced}
use gorums.Stream.Session.Calls.Answers.{
  send_ok-IsBalanced, send_err-IsBalanced, fail_send-IsBalanced, hear_verdict-IsBalanced,
}

module _ (f : Request → Bool) (n given_up : ℕ) where
  abbrev calls : List Request → ℕ
  calls rs = count (audible (call f)) rs

  -- An operation on the queue alone.
  queue_op :
      (ctxs : Contexts) (is_done : Bool) (op : Counts.Op) (s : Session)
      → Counts.Enabled ctxs is_done s.queue op
      → Counts.taken s.queue op ≡ []
      → IsBalanced f n given_up s
      → IsBalanced f
          (n + calls (Counts.given op))
          (given_up + 0)
          (record s { queue = Counts.step s.queue op })
  unfolding count
  queue_op ctxs is_done op s en nothing v =
      let a = queue_step (call f) ctxs is_done s.queue op v.queue en in
      record { amount = ground (arith, a.0, v.amount, nothing); queue = a.1 }

  -- The end of a call's context takes the call out of the table.
  expires-IsBalanced :
      (id seq : ℕ) (s : Session)
      → IsTable s.pending
      → IsBalanced f n given_up s
      → IsBalanced f
          (n + 0)
          (given_up + calls (expired id seq s.pending))
          (record s { pending = (Pending.expire id seq s.pending).0 })
  unfolding expired Pending.expire count
  expires-IsBalanced id seq s t v = record {
    amount = elim (Option-cases (find id s.pending.calls)) [
      | inl absent ↦ ground (arith, v.amount)
      | inr (c, there) ↦
          ground
            (arith, v.amount, count-delete (audible (call f)) id c s.pending.calls t.keys there)
    ];
    queue = v.queue;
  }

  -- The same account, with nothing added to it.
  even : (s : Session) → IsBalanced f n given_up s → IsBalanced f (n + 0) (given_up + 0) s
  even s v = record { amount = omega (arith, v.amount); queue = v.queue }

  even_go :
      (m : Go Session)
      → IfReturns (IsBalanced f n given_up) m
      → IfReturns (IsBalanced f (n + 0) (given_up + 0)) m
  even_go (returns s) v = even s v
  even_go panics v = tt

  pub step-IsBalanced :
      (lib : ErrorsIs) (code : Error → Code) (s : Session) (a : Step)
      → IsTable s.pending
      → Enabled s a
      → IsFresh s a
      → IsBalanced f n given_up s
      → IfReturns
          (IsBalanced f (n + calls (given a)) (given_up + calls (abandoned s a)))
          (step lib code s a)
  unfolding step count Counts.step Counts.taken
  step-IsBalanced lib code s takes t en fr v =
      even _ (take_request-IsBalanced f n given_up s.sender s refl v)
  step-IsBalanced lib code s quits t en fr v =
      even _ (quit-IsBalanced f n given_up s.sender s refl v)
  step-IsBalanced lib code s oks t en fr v =
      even _ (send_ok-IsBalanced f n given_up s.sender s refl v)
  step-IsBalanced lib code s settles t en fr v =
      even _ (settle-IsBalanced f n given_up code s.disposing s refl v)
  step-IsBalanced lib code s drains t en fr v = even _ (start_drain-IsBalanced f n given_up s v)
  step-IsBalanced lib code s cancels t en fr v = even _ (quiet-IsBalanced f n given_up s v)
  step-IsBalanced lib code s closes t en fr v =
      let w = queue_op (λ _. none) false Counts.closes s tt refl v in
      record { amount = w.amount; queue = w.queue }
  step-IsBalanced lib code s (checks ctxs) t en fr v =
      even _ (check_request-IsBalanced f n given_up ctxs s.sender s refl v)
  step-IsBalanced lib code s (adds ctxs) t en fr v =
      let w = add_pending-IsBalanced f n given_up ctxs s.sender s refl fr t v in
      record { amount = omega (arith, w.amount); queue = w.queue }
  step-IsBalanced lib code s (fails ctxs) t en fr v =
      even _ (fail_send-IsBalanced f n given_up ctxs s.sender s refl v)
  step-IsBalanced lib code s (hears ctxs) t en fr v =
      even _ (hear_verdict-IsBalanced f n given_up ctxs s.sender s refl v)
  step-IsBalanced lib code s (send_errs e) t en fr v =
      even _ (send_err-IsBalanced f n given_up lib e s.sender s refl v)
  step-IsBalanced lib code s (recv_errs e) t en fr v =
      even_go _ (receive_failed-IsBalanced f n given_up code e s v)
  step-IsBalanced lib code s header t en fr v =
      even_go _
        (accept-IsBalanced f n given_up (record_health none s) (quiet-IsBalanced f n given_up s v))
  step-IsBalanced lib code s (frames ctxs msg) t en fr v =
      even_go _ (receive_frame-IsBalanced f n given_up ctxs msg s t v)
  step-IsBalanced lib code s (expires id seq) t en fr v =
      let w = expires-IsBalanced id seq s t v in
      let s' = record s { pending = (Pending.expire id seq s.pending).0 } in
      if_both (IsBalanced f (n + 0) (given_up + calls (expired id seq s.pending)))
        (Pending.expire id seq s.pending).1 (end_if_drained s') s'
        (end_if_drained-IsBalanced f (n + 0) (given_up + calls (expired id seq s.pending)) s' w) w
  step-IsBalanced lib code s (ends err) t en fr v =
      even _ (end_session-IsBalanced f n given_up err s v)
  step-IsBalanced lib code s (pushes req) t en fr v =
      queue_op (λ _. none) false (Counts.pushes req) s tt refl v
  step-IsBalanced lib code s (waits wake req) t (ctxs, is_done, en) fr v =
      queue_op ctxs is_done (Counts.waits wake req) s en refl v

-- A history of a session, with the requests pushed in it and the calls whose contexts ended.
pub data Runs (lib : ErrorsIs) (code : Error → Code) (s : Session)
    : Session → List Request → List Request → Type 0 where
  begin : Runs lib code s s [] []
  go_on :
      (t u : Session) (a : Step) (pushed gone : List Request)
      → Runs lib code s t pushed gone
      → Enabled t a
      → IsFresh t a
      → step lib code t a ≡ returns u
      → Runs lib code s u (given a ++ pushed) (abandoned t a ++ gone)

module _ (lib : ErrorsIs) (code : Error → Code) where
  pub Runs-Reaches :
      (s t : Session) (ps gs : List Request) → Runs lib code s t ps gs → Reaches lib code s t
  Runs-Reaches s _ _ _ begin = now
  Runs-Reaches s _ _ _ (go_on t u a ps gs r en fr e) = after t u a (Runs-Reaches s t ps gs r) en e

  pub Runs-IsBalanced :
      (f : Request → Bool) (s t : Session) (ps gs : List Request)
      → Runs lib code s t ps gs
      → IsSession code none s
      → IsQueue s.queue
      → IsBalanced f
          (open_calls f s + answered f s + count (audible (call f)) ps)
          (count (audible (call f)) gs)
          t
  unfolding count
  Runs-IsBalanced f s _ _ _ begin v q = record { amount = omega arith; queue = q }
  Runs-IsBalanced f s _ _ _ (go_on t u a ps gs r en fr e) v q =
      let w = Runs-IsBalanced f s t ps gs r v q in
      let is = Reaches-IsSession lib code none s t (Runs-Reaches s t ps gs r) v in
      let k = audible (call f) in
      let x =
        subst
          (IfReturns (
            IsBalanced f (open_calls f s + answered f s + count k ps + count k (given a))
              (count k gs + count k (abandoned t a))))
          e
          (step-IsBalanced f (open_calls f s + answered f s + count k ps) (count k gs) lib code t a
            is.facts.table en fr w) in
      record {
        amount =
            omega (arith, x.amount, count-append k (given a) ps, count-append k (abandoned t a) gs);
        queue = x.queue;
      }
