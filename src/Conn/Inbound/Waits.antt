-- ===== src/Conn/Inbound/Waits.antt =====
-- internal/conn/inbound_manager.go: a call that waits for a condition on a view of the registry,
-- `waitForConfig`. The registry runs on beside it, and an operation under the lock is one step.
mod Broadcasts
pub mod Wakes
use gorums.Prelude.{
  ℕ, ◌≡◌, ◌<◌, Bool, true, false, Option, none, some, List, [], ◌∷◌, if◌then◌else◌,
}
use gorums.Errors.{Error, stopped}
use gorums.Conn.Inbound.{NodeRef, InboundManager, Views}
use gorums.Conn.Inbound.Assigned
use gorums.Conn.Inbound.Assigned.{Op}

-- The view that `WaitForPeers`, `WaitForClients` or `WaitForInbound` passes to its condition.
pub data View : Type 0 where
  connected_peers connected_clients inbound_peers : View

unfoldable pub view_of : View → InboundManager → List NodeRef
view_of connected_peers im = im.connected_peers
view_of connected_clients im = im.connected_clients
view_of inbound_peers im = im.inbound_peers

-- Where the call stands: before `checkConfig`, in the select statement with the channel that
-- `checkConfig` returned, or at its return with this error. The registry's channels are numbered,
-- and those below `broadcasts` are closed.
pub data Stage : Type 0 where
  checks : Stage
  selects : ℕ → Stage
  returned : Option Error → Stage

pub record Waiting : Type 0 where
  pub registry : InboundManager
  pub is_stopped : Bool
  pub ctx_err : Option Error
  pub stage : Stage

-- A call of `waitForConfig`.
abbrev pub wait_for_config : InboundManager → Bool → Option Error → Waiting
wait_for_config im is_stopped ctx_err = record {
  registry = im;
  is_stopped = is_stopped;
  ctx_err = ctx_err;
  stage = checks;
}

-- `checkConfig`, and the test of its result.
unfoldable pub check_config : (List NodeRef → Bool) → View → InboundManager → Stage
unfolding view_of
check_config cond v im = if cond (view_of v im) then returned none else selects im.broadcasts

-- The steps of the call are `check` and the cases of the select statement, each when it is ready.
-- The rest happens beside it: an operation of the registry, `Close`, and the end of the context.
pub data Step (cond : List NodeRef → Bool) (v : View) : Waiting → Waiting → Type 0 where
  check :
      {s : Waiting}
      → s.stage ≡ checks
      → Step cond v s (record s { stage = check_config cond v s.registry })
  is_done :
      {s : Waiting} {ch : ℕ} {err : Error}
      → s.stage ≡ selects ch
      → s.ctx_err ≡ some err
      → Step cond v s (record s { stage = returned (some err) })
  stops :
      {s : Waiting} {ch : ℕ}
      → s.stage ≡ selects ch
      → s.is_stopped ≡ true
      → Step cond v s (record s { stage = returned (some stopped) })
  wakes :
      {s : Waiting} {ch : ℕ}
      → s.stage ≡ selects ch
      → ch < s.registry.broadcasts
      → Step cond v s (record s { stage = checks })
  runs :
      {s : Waiting} (w : Views) (op : Op)
      → Step cond v s (record s { registry = Assigned.step w s.registry op })
  closes : {s : Waiting} → Step cond v s (record s { is_stopped = true })
  ends :
      {s : Waiting} (err : Error)
      → s.ctx_err ≡ none
      → Step cond v s (record s { ctx_err = some err })

pub data Reach (cond : List NodeRef → Bool) (v : View) (s : Waiting) : Waiting → Type 0 where
  here : Reach cond v s s
  next : {t u : Waiting} → Reach cond v s t → Step cond v t u → Reach cond v s u
