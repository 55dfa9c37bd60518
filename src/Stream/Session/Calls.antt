-- ===== src/Stream/Session/Calls.antt =====
-- The two-way calls that a session of internal/stream/session.go answers for, and where each may be.
pub mod Moves
pub mod Balance
pub mod Receiving
pub mod Sending
pub mod Adds
pub mod Answers
pub mod Histories
pub mod Once
use gorums.Prelude.{
  ℕ, ◌+◌, ◌≡◌, ◌≤◌, Bool, true, false, not, ◌&&◌, Option, none, some, List, [], ◌∷◌, ◌++◌, map,
  if◌then◌else◌, arith, is_some, nat_beq, leb, length, max,
}
use gorums.Stream.Request.{Request, Contexts, want_server_response}
use gorums.Stream.Pending
use gorums.Stream.Pending.{PendingCall, PendingCalls, find, sweep_calls, min_sweep_size}
use gorums.Stream.SendQueue.Counts.{count, one, audible, heard}
use gorums.Stream.Session.{
  Session, Sender, idle, holding, checked, sending, failing, awaiting, stopped,
}
use gorums.Stream.Session.Steps.{
  Step, expires, adds, pushes, waits, takes, quits, oks, settles, drains, cancels, closes, checks,
  fails, hears, send_errs, recv_errs, header, frames, ends,
}

-- The calls of a kind: two-way, with one response.
abbrev pub call : (Request → Bool) → Request → Bool
call f r = want_server_response r && not r.streaming && f r

-- The request in the hands of the send loop that is neither queued nor pending.
abbrev pub hand : Sender → List Request
hand idle = []
hand (holding r) = r ∷ []
hand (checked r) = r ∷ []
hand (sending r) = []
hand (failing r e) = []
hand (awaiting r e) = r ∷ []
hand (stopped r) = one r

abbrev pub requests : List (ℕ × PendingCall) → List Request
requests calls = map (λ e. e.1.req) calls

-- How many calls of a kind the session holds: queued, in the send loop's hands, pending and being
-- disposed of; and how many it has answered, by the queue or by itself.
abbrev pub open_calls : (Request → Bool) → Session → ℕ
open_calls f s =
    count (audible (call f)) s.queue.items
    + count (audible (call f)) (hand s.sender)
    + count (audible (call f)) (requests s.pending.calls)
    + count (audible (call f)) (map (λ d. d.0) s.disposing)

abbrev pub answered : (Request → Bool) → Session → ℕ
answered f s =
    count (audible (call f)) (map (λ d. d.to) s.queue.sent)
    + count (audible (call f)) (map (λ d. d.to) s.sent)

-- The calls that a step takes in.
abbrev pub given : Step → List Request
given (pushes r) = r ∷ []
given (waits w r) = r ∷ []
given _ = []

-- The pending calls whose contexts have ended.
unfoldable pub dead_calls : Contexts → List (ℕ × PendingCall) → List Request
dead_calls ctxs [] = []
dead_calls ctxs ((j, c) ∷ m) =
    let rest = dead_calls ctxs m in if is_some (ctxs c.req.ctx) then c.req ∷ rest else rest

-- The calls of the table that a sweep, or the end of a call's context, removes: nobody waits for them.
unfoldable pub swept : Contexts → PendingCalls → List Request
unfolding dead_calls
swept ctxs p =
    if p.closed
    then []
    else if leb (max p.sweep_at min_sweep_size) (length p.calls)
    then dead_calls ctxs p.calls
    else []

-- Those that go as the send loop, at the place given, puts a call in the table.
unfoldable pub swept_by : Contexts → Sender → PendingCalls → List Request
unfolding swept
swept_by ctxs (checked r) p = if want_server_response r then swept ctxs p else []
swept_by ctxs _ p = []

-- Those that go as a context of the call of the given message ID and number ends.
unfoldable pub expired : ℕ → ℕ → PendingCalls → List Request
expired id seq p = elim (find id p.calls) [
  | none ↦ []
  | some c ↦ if nat_beq c.seq seq then c.req ∷ [] else []
]

abbrev pub abandoned : Session → Step → List Request
abandoned s (adds ctxs) = swept_by ctxs s.sender s.pending
abandoned s (expires id seq) = expired id seq s.pending
abandoned s _ = []

-- The message ID of a request that enters the table is not in use.
abbrev pub Fresh : Sender → PendingCalls → Type 0
Fresh (checked r) p = find r.msg.seq_no p.calls ≡ none
Fresh idle p = Unit
Fresh (holding r) p = Unit
Fresh (sending r) p = Unit
Fresh (failing r e) p = Unit
Fresh (awaiting r e) p = Unit
Fresh (stopped r) p = Unit

abbrev pub IsFresh : Session → Step → Type 0
IsFresh s (adds ctxs) = Fresh s.sender s.pending
IsFresh s _ = Unit
