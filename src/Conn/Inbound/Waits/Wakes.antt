-- ===== src/Conn/Inbound/Waits/Wakes.antt =====
-- What a call of `waitForConfig` in internal/conn/inbound_manager.go returns, and when it wakes.
use gorums.Prelude.{
  ◌≤◌, ◌<◌, ◌≡◌, refl, sym, ap, subst, ◌∙◌, Bool, true, false, Option, none, some, List, ◌⊎◌, inl,
  inr, arith, Bool-cases,
}
use gorums.Errors.{Error, stopped}
use gorums.Conn.Inbound.{NodeRef, InboundManager, Views}
use gorums.Conn.Inbound.Assigned
use gorums.Conn.Inbound.Assigned.{
  Op, accepts, leaves, registers, unregisters, configures, stream_changes,
}
use gorums.Conn.Inbound.Waits.{
  View, view_of, Stage, checks, selects, returned, Waiting, wait_for_config, check_config, Step,
  check, is_done, stops, wakes, runs, closes, ends, Reach, here, next,
}
use gorums.Conn.Inbound.Waits.Broadcasts.{step-Told}

abbrev pub is_waiting : Stage → Bool
is_waiting checks = true
is_waiting (selects _) = true
is_waiting (returned _) = false

module _ (cond : List NodeRef → Bool) (v : View) (start : Waiting) where
  -- The condition held of the view when the call was about to check it.
  abbrev pub Held : Waiting → Type 0
  Held s =
      (t : Waiting) × Reach cond v start t
      × Reach cond v t s
      × (t.stage ≡ checks)
      × (cond (view_of v t.registry) ≡ true)

  abbrev pub Reason : Waiting → Stage → Type 0
  Reason s checks = Unit
  Reason s (selects ch) =
      (ch ≤ s.registry.broadcasts)
      × (cond (view_of v s.registry) ≡ true → ch < s.registry.broadcasts)
  Reason s (returned none) = Held s
  Reason s (returned (some err)) =
      (s.ctx_err ≡ some err) ⊎ ((err ≡ stopped) × (s.is_stopped ≡ true))

  later : {s u : Waiting} → Held s → Step cond v s u → Held u
  later (t, r, q, at, h) st = (t, r, next q st, at, h)

  runs-Reason :
      (w : Views) (op : Op) (s : Waiting) (g : Stage)
      → Reason s g
      → Reason (record s { registry = Assigned.step w s.registry op }) g
  runs-Reason w op s checks h = tt
  runs-Reason w op s (selects ch) h = elim (step-Told w s.registry op) [
    | inl more ↦ (omega arith, λ _. omega arith)
    | inr (same, views) ↦
        (omega (arith, same), λ e. omega (arith, same, h.1 (ap cond (sym (views v)) ∙ e)))
  ]
  runs-Reason w op s (returned none) h = later h (runs w op)
  runs-Reason w op s (returned (some err)) h = h

  closes-Reason : (s : Waiting) (g : Stage) → Reason s g → Reason (record s { is_stopped = true }) g
  closes-Reason s checks h = tt
  closes-Reason s (selects ch) h = h
  closes-Reason s (returned none) h = later h closes
  closes-Reason s (returned (some err)) (inl e) = inl e
  closes-Reason s (returned (some err)) (inr (e, _)) = inr (e, refl)

  ends-Reason :
      (s : Waiting) (err : Error) (g : Stage)
      → s.ctx_err ≡ none
      → Reason s g
      → Reason (record s { ctx_err = some err }) g
  ends-Reason s err checks n h = tt
  ends-Reason s err (selects ch) n h = h
  ends-Reason s err (returned none) n h = later h (ends err n)
  ends-Reason s err (returned (some e)) n (inl q) = cc
  ends-Reason s err (returned (some e)) n (inr q) = inr q

  check_met :
      (im : InboundManager) → cond (view_of v im) ≡ true → check_config cond v im ≡ returned none
  unfolding check_config
  check_met im met = rw met refl

  check_unmet :
      (im : InboundManager)
      → cond (view_of v im) ≡ false
      → check_config cond v im ≡ selects im.broadcasts
  unfolding check_config
  check_unmet im unmet = rw unmet refl

  Step-Reason :
      {s u : Waiting} → Reach cond v start s → Step cond v s u → Reason s s.stage → Reason u u.stage
  Step-Reason {s} {u} r (check at) h = elim (Bool-cases (cond (view_of v s.registry))) [
    | inl met ↦
        subst (Reason u) (sym (check_met s.registry met)) (s, r, next here (check at), at, met)
    | inr unmet ↦ subst (Reason u) (sym (check_unmet s.registry unmet)) (omega arith, λ e. cc)
  ]
  Step-Reason r (is_done {err = err} at e) h = inl e
  Step-Reason r (stops at e) h = inr (refl, e)
  Step-Reason r (wakes at e) h = tt
  Step-Reason {s} r (runs w op) h = runs-Reason w op s s.stage h
  Step-Reason {s} r closes h = closes-Reason s s.stage h
  Step-Reason {s} r (ends err n) h = ends-Reason s err s.stage n h

  Reach-Reason : {s : Waiting} → start.stage ≡ checks → Reach cond v start s → Reason s s.stage
  Reach-Reason e here = subst (Reason start) (sym e) tt
  Reach-Reason e (next r st) = Step-Reason r st (Reach-Reason e r)

  abbrev pub CanReturn : Waiting → Type 0
  CanReturn s = Reach cond v s (record s { stage = returned none })

  checked :
      (s t : Waiting)
      → Reach cond v s t
      → t.stage ≡ checks
      → cond (view_of v t.registry) ≡ true
      → Reach cond v s (record t { stage = returned none })
  checked s t r at met =
      subst (λ g. Reach cond v s (record t { stage = g })) (check_met t.registry met)
        (next r (check at))

  waiting-CanReturn :
      (s : Waiting) (g : Stage)
      → s.stage ≡ g
      → Reason s g
      → is_waiting g ≡ true
      → cond (view_of v s.registry) ≡ true
      → CanReturn s
  waiting-CanReturn s checks at h w met = checked s s here at met
  waiting-CanReturn s (selects ch) at h w met =
      checked s (record s { stage = checks }) (next here (wakes at (h.1 met))) refl met
  waiting-CanReturn s (returned e) at h w met = cc

-- A call of `waitForConfig` loses no wakeup, whatever the registry does meanwhile: while it waits
-- on a channel, the channel is closed if the condition holds of the view as it is. So whenever the
-- condition holds and the call has not returned, it can return nil with nothing else changed. It
-- returns nil only if the condition held of the view when it checked, and an error only if its context
-- has ended with that error, or if the registry is closed and the error is `ErrStopped`.
pub wait_for_config_lem :
    (cond : List NodeRef → Bool) (v : View) (im : InboundManager) (is_stopped : Bool)
    (ctx_err : Option Error) {s : Waiting}
    → Reach cond v (wait_for_config im is_stopped ctx_err) s
    → Reason cond v (wait_for_config im is_stopped ctx_err) s s.stage
      × (is_waiting s.stage ≡ true
          → cond (view_of v s.registry) ≡ true
          → CanReturn cond v (wait_for_config im is_stopped ctx_err) s)
wait_for_config_lem cond v im is_stopped ctx_err {s} r =
    let start = wait_for_config im is_stopped ctx_err in
    let h = Reach-Reason cond v start refl r in
    (h, λ w met. waiting-CanReturn cond v start s s.stage refl h w met)
