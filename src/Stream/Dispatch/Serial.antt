-- ===== src/Stream/Dispatch/Serial.antt =====
-- What the dispatcher of internal/stream/dispatch.go keeps, in any history of its operations.
use gorums.Prelude.{
  ℕ, zero, suc, ◌+◌, ◌-◌, ◌≤◌, ◌≡◌, refl, true, false, Option, none, some, List, [], ◌∷◌, ◌++◌,
  if◌then◌else◌, length, get_elem?, arith, Bool-cases, Option-cases, inl, inr, append_assoc, ap,
  sym, ◌∙◌, subst,
}
use gorums.Stream.Dispatch.{
  Goroutine, Dispatcher, start, take, next, replace, release, take_over, finish,
}

-- How many of the handlers that run have not released.
unfoldable pub holding : List Goroutine → ℕ
holding [] = 0
holding (g ∷ gs) = (if g.once then 0 else 1) + holding gs

pub holding-append : (gs hs : List Goroutine) → holding (gs ++ hs) ≡ holding gs + holding hs
unfolding holding
holding-append [] hs = omega arith
holding-append (g ∷ gs) hs = omega (arith, holding-append gs hs)

holding-replace :
    (i : ℕ) (new gs : List Goroutine) (g : Goroutine)
    → get_elem? gs i ≡ some g
    → holding (replace i new gs) + holding (g ∷ []) ≡ holding gs + holding new
unfolding holding replace
holding-replace i new [] g e = cc
holding-replace zero new (h ∷ gs) g e = ground (arith, holding-append new gs, e)
holding-replace (suc i) new (h ∷ gs) g e = ground (arith, holding-replace i new gs g e)

-- One handler at a time, in the order in which they were accepted, and a bounded queue that is
-- empty when no handler runs. `lost` are the handlers discarded by a stop.
pub record IsSerial (acc : List ℕ) (d : Dispatcher) : Type 0 where
  pub one : holding d.live ≡ (if d.running then 1 else 0)
  pub lost : List ℕ
  pub order : d.started ++ (d.queue ++ lost) ≡ acc
  pub kept : d.stopped ≡ false → lost ≡ []
  pub tokens : d.slots ≡ length d.queue + d.held
  pub bounded : d.slots ≤ d.size
  pub idle : d.running ≡ false → d.queue ≡ []

-- The same between a handler's release and the start of the next, but for the handlers that run:
-- the dispatcher is busy, or it is idle.
record IsReady (acc : List ℕ) (d : Dispatcher) : Type 0 where
  busy : d.running ≡ true
  lost : List ℕ
  order : d.started ++ (d.queue ++ lost) ≡ acc
  kept : d.stopped ≡ false → lost ≡ []
  tokens : d.slots ≡ length d.queue + d.held
  bounded : d.slots ≤ d.size

record IsIdle (acc : List ℕ) (d : Dispatcher) : Type 0 where
  idle : d.running ≡ false
  emptied : d.queue ≡ []
  lost : List ℕ
  order : d.started ++ (d.queue ++ lost) ≡ acc
  kept : d.stopped ≡ false → lost ≡ []
  tokens : d.slots ≡ length d.queue + d.held
  bounded : d.slots ≤ d.size

take-stopped :
    (d : Dispatcher)
    → d.stopped ≡ true
    → take d ≡ (record d { slots = d.slots - length d.queue; queue = []; running = false }, none)
unfolding take
take-stopped d h = ground arith

take-empty :
    (d : Dispatcher)
    → d.stopped ≡ false
    → d.queue ≡ []
    → take d ≡ (record d { running = false }, none)
unfolding take
take-empty d h e = ground arith

take-cons :
    (d : Dispatcher) (r : ℕ) (rest : List ℕ)
    → d.stopped ≡ false
    → d.queue ≡ r ∷ rest
    → take d ≡ (record d { queue = rest; slots = d.slots - 1 }, some r)
unfolding take
take-cons d r rest h e = ground arith

take-keeps : (d : Dispatcher) → (take d).0.live ≡ d.live
unfolding take
take-keeps d = ground arith

module _ (acc : List ℕ) where
  -- What `take` leaves: an idle dispatcher, or one that is to run the handler taken.
  abbrev Taken : Dispatcher × Option ℕ → Type 0
  Taken (d, none) = IsIdle acc d
  Taken (d, some r) = IsReady acc (record d { started = d.started ++ r ∷ [] })

  take-Taken : (d : Dispatcher) → IsReady acc d → Taken (take d)
  take-Taken d v = elim (Bool-cases d.stopped) [
    | inl shut ↦ subst Taken (sym (take-stopped d shut)) (record {
      idle = refl;
      emptied = refl;
      lost = d.queue ++ v.lost;
      order = v.order;
      kept = λ h. cc;
      tokens = omega (arith, v.tokens);
      bounded = omega (arith, v.bounded);
    })
    | inr going ↦ nonempty d.queue refl going
  ]
    where
      nonempty : (q : List ℕ) → d.queue ≡ q → d.stopped ≡ false → Taken (take d)
      nonempty [] e going = subst Taken (sym (take-empty d going e)) (record {
        idle = refl;
        emptied = e;
        lost = v.lost;
        order = v.order;
        kept = v.kept;
        tokens = v.tokens;
        bounded = v.bounded;
      })
      nonempty (r ∷ rest) e going = subst Taken (sym (take-cons d r rest going e)) (record {
        busy = v.busy;
        lost = v.lost;
        order =
            append_assoc d.started (r ∷ []) (rest ++ v.lost)
            ∙ ap (λ q. d.started ++ (q ++ v.lost)) (sym e)
            ∙ v.order;
        kept = v.kept;
        tokens = ground (arith, v.tokens, e);
        bounded = omega (arith, v.bounded);
      })

  -- The handler taken runs in goroutines of which no other handler holds.
  started-IsSerial :
      (d : Dispatcher) (r : ℕ) (gs : List Goroutine)
      → IsReady acc (record d { started = d.started ++ r ∷ [] })
      → holding gs ≡ 1
      → IsSerial acc (record d { live = gs; started = d.started ++ r ∷ [] })
  started-IsSerial d r gs v h = record {
    one = rw v.busy h;
    lost = v.lost;
    order = v.order;
    kept = v.kept;
    tokens = v.tokens;
    bounded = v.bounded;
    idle = λ i. cc (v.busy);
  }

  idle-IsSerial :
      (d : Dispatcher) (gs : List Goroutine)
      → IsIdle acc d
      → holding gs ≡ 0
      → IsSerial acc (record d { live = gs })
  idle-IsSerial d gs v h = record {
    one = rw v.idle h;
    lost = v.lost;
    order = v.order;
    kept = v.kept;
    tokens = v.tokens;
    bounded = v.bounded;
    idle = λ i. v.emptied;
  }

  -- While a handler holds, the dispatcher is busy.
  holds-IsReady :
      (d : Dispatcher) (i : ℕ) (g : Goroutine)
      → IsSerial acc d
      → get_elem? d.live i ≡ some g
      → g.once ≡ false
      → (gs : List Goroutine) → IsReady acc (record d { live = gs })
  unfolding holding
  holds-IsReady d i g v e h gs = record {
    busy = ground (arith, v.one, holding-replace i [] d.live g e, h);
    lost = v.lost;
    order = v.order;
    kept = v.kept;
    tokens = v.tokens;
    bounded = v.bounded;
  }

  released_none :
      (d : Dispatcher) (i : ℕ) (g : Goroutine) (new : List Goroutine)
      → IsSerial acc d
      → get_elem? d.live i ≡ some g
      → g.once ≡ false
      → holding (replace i new d.live) ≡ holding new
  unfolding holding
  released_none d i g new v e h =
      ground (arith, v.one, holding-replace i new d.live g e, holding-replace i [] d.live g e, h)

  next-IsSerial : (d : Dispatcher) → IsReady acc d → holding d.live ≡ 0 → IsSerial acc (next d)
  unfolding next start holding
  next-IsSerial d v h = go (take d) (take-Taken d v) (take-keeps d)
    where
      go :
          (t : Dispatcher × Option ℕ)
          → Taken t
          → t.0.live ≡ d.live
          → IsSerial acc (elim t.1 [ none ↦ t.0 | some r ↦ start r t.0 ])
      go (d', none) w k = idle-IsSerial d' d'.live w (ap holding k ∙ h)
      go (d', some r) w k =
          started-IsSerial d' r (d'.live ++ (record { handler = r; once = false }) ∷ []) w (
            omega (
              arith,
              ap holding k,
              h,
              holding-append d'.live ((record { handler = r; once = false }) ∷ []),
            ))

  pub release-IsSerial : (d : Dispatcher) (i : ℕ) → IsSerial acc d → IsSerial acc (release i d)
  unfolding release holding
  release-IsSerial d i v = elim (Option-cases (get_elem? d.live i)) [
    | inl out ↦ rw (release, out) v
    | inr (g, e) ↦ elim (Bool-cases g.once) [
      | inl twice ↦ rw (release, e, twice) v
      | inr first ↦
          let gs = replace i ((record g { once = true }) ∷ []) d.live in
          rw (release, e, first)
            (next-IsSerial (record d { live = gs }) (holds-IsReady d i g v e first gs)
              (released_none d i g ((record g { once = true }) ∷ []) v e first))
    ]
  ]

  pub finish-IsSerial : (d : Dispatcher) (i : ℕ) → IsSerial acc d → IsSerial acc (finish i d)
  unfolding finish take_over holding
  finish-IsSerial d i v = elim (Option-cases (get_elem? d.live i)) [
    | inl out ↦ rw (finish, out) v
    | inr (g, e) ↦ elim (Bool-cases g.once) [
      | inl ended ↦
          rw (finish, e, ended)
            (record {
              one = ground (arith, v.one, holding-replace i [] d.live g e);
              lost = v.lost;
              order = v.order;
              kept = v.kept;
              tokens = v.tokens;
              bounded = v.bounded;
              idle = v.idle;
            })
      | inr last ↦
          rw (finish, e, last)
            (go g e last (take d) (take-Taken d (holds-IsReady d i g v e last d.live))
              (take-keeps d))
    ]
  ]
    where
      go :
          (g : Goroutine)
          → get_elem? d.live i ≡ some g
          → g.once ≡ false
          → (t : Dispatcher × Option ℕ) → Taken t
          → t.0.live ≡ d.live
          → IsSerial acc (take_over i t)
      go g e last (d', none) w k =
          idle-IsSerial d' (replace i [] d'.live) w
            (ap (λ gs. holding (replace i [] gs)) k ∙ released_none d i g [] v e last)
      go g e last (d', some r) w k =
          let new = (record { handler = r; once = false }) ∷ [] in
          started-IsSerial d' r (replace i new d'.live) w
            (ap (λ gs. holding (replace i new gs)) k ∙ released_none d i g new v e last)
