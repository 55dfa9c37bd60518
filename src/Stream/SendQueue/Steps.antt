-- ===== src/Stream/SendQueue/Steps.antt =====
-- One operation on a queue of internal/stream/send_queue.go.
use gorums.Prelude.{
  ◌+◌, ◌<◌, ◌≡◌, refl, Bool, true, false, Option, none, some, List, [], ◌∷◌, ◌++◌, map, ltb, length,
  arith, Bool-cases, inl, inr, subst, sym, ◌∙◌, length-append, Option-cases,
}
use gorums.Errors.{Error, node_closed, send_queue_full}
use gorums.Stream.Request.{Request, Contexts, Delivery}
use gorums.Stream.SendQueue.{
  SendQueue, fail, enqueue, Wake, space, done, ctx_ended, Ready, push_now, push_waiting, fail_all,
  close, pop,
}
use gorums.Stream.SendQueue.Counts.{
  count, count-append, Op, pushes, waits, pops, closes, step, Enabled, IsQueue, given, one, taken,
  audible, silent, heard, unheard,
}

pub count-failed :
    (f : Request → Bool) (ds : List Delivery) (d : Delivery)
    → count f (map (λ d. d.to) (ds ++ d ∷ [])) ≡ count f (map (λ d. d.to) ds) + count f (d.to ∷ [])
unfolding count
count-failed f [] d = omega arith
count-failed f (x ∷ ds) d = omega (arith, count-failed f ds d)

module _ (f : Request → Bool) (r : Request) (q : SendQueue) where
  pub heard-fail : (e : Error) → heard f (fail r e q) ≡ heard f q + count (audible f) (r ∷ [])
  unfolding fail count
  heard-fail e = elim (Option-cases r.response_chan) [
    | inl none_set ↦ ground arith
    | inr (ch, set) ↦ ground (
      arith,
      count-failed (audible f) q.sent
          (record { to = r; response = record { node_id = q.id; value = none; err = some e } }),
    )
  ]

  heard-enqueue : heard f (enqueue r q) ≡ heard f q + count (audible f) (r ∷ [])
  heard-enqueue = omega (arith, count-append (audible f) q.items (r ∷ []))

module _ (r : Request) (q : SendQueue) where
  unheard-fail : (e : Error) → unheard (fail r e q) ≡ unheard q + count silent (r ∷ [])
  unfolding fail count
  unheard-fail e = ground arith

  unheard-enqueue : unheard (enqueue r q) ≡ unheard q + count silent (r ∷ [])
  unheard-enqueue = omega (arith, count-append silent q.items (r ∷ []))

  pub fail-keeps :
      (e : Error)
      → ((fail r e q).items ≡ q.items)
        × ((fail r e q).closed ≡ q.closed)
        × ((fail r e q).capacity ≡ q.capacity)
  unfolding fail
  fail-keeps e = ground arith

pub fail_all_lem :
    (f : Request → Bool) (rs : List Request) (q : SendQueue)
    → q.items ≡ []
    → (heard f (fail_all rs q) ≡ heard f q + count (audible f) rs)
      × (unheard (fail_all rs q) ≡ unheard q + count silent rs)
      × ((fail_all rs q).items ≡ [])
      × ((fail_all rs q).closed ≡ q.closed)
      × ((fail_all rs q).capacity ≡ q.capacity)
unfolding fail_all count
fail_all_lem f [] q e = (omega arith, omega arith, e, refl, refl)
fail_all_lem f (r ∷ rs) q e =
    let k = fail-keeps r q node_closed in
    let ih = fail_all_lem f rs (fail r node_closed q) (k.0 ∙ e) in
    (
      omega (arith, ih.0, heard-fail f r q node_closed),
      omega (arith, ih.1, unheard-fail r q node_closed),
      ih.2,
      ih.3 ∙ k.1,
      ih.4 ∙ k.2,
    )

-- One operation, on a queue within its bounds.
pop-empty : (q : SendQueue) → q.items ≡ [] → pop q ≡ (q, none)
unfolding pop
pop-empty q e = ground arith

pop-cons :
    (q : SendQueue) (r : Request) (rest : List Request)
    → q.items ≡ r ∷ rest
    → pop q ≡ (record q { items = rest }, some r)
unfolding pop
pop-cons q r rest e = ground arith

module _ (f : Request → Bool) (ctxs : Contexts) (is_done : Bool) (q : SendQueue)
    (v : IsQueue q) where
  abbrev Accounted : Op → Type 0
  Accounted op =
      (heard f (step q op) + count (audible f) (taken q op)
        ≡ heard f q + count (audible f) (given op))
      × (unheard (step q op) + count silent (taken q op) ≡ unheard q + count silent (given op))
      × IsQueue (step q op)

  abbrev Took : Request → SendQueue → Type 0
  Took r q' =
      (heard f q' + count (audible f) [] ≡ heard f q + count (audible f) (r ∷ []))
      × (unheard q' + count silent [] ≡ unheard q + count silent (r ∷ []))
      × IsQueue q'

  fail-Took : (r : Request) (e : Error) → Took r (fail r e q)
  unfolding count
  fail-Took r e =
      let k = fail-keeps r q e in
      (
        omega (arith, heard-fail f r q e),
        omega (arith, unheard-fail r q e),
        record { bounded = ground (arith, k.0, k.2); emptied = λ h. k.0 ∙ v.emptied (sym k.1 ∙ h) },
      )

  enqueue-Took :
      (r : Request) → q.closed ≡ false → length q.items < q.capacity → Took r (enqueue r q)
  unfolding count
  enqueue-Took r o room = (
    omega (arith, heard-enqueue f r q),
    omega (arith, unheard-enqueue r q),
    record { bounded = omega (arith, length-append q.items (r ∷ [])); emptied = λ h. cc },
  )

  push_now-Took : (r : Request) → Took r (push_now r q)
  unfolding push_now
  push_now-Took r = elim (Bool-cases q.closed) [
    | inl shut ↦ subst (Took r) (ground arith) (fail-Took r node_closed)
    | inr o ↦ elim (Bool-cases (ltb (length q.items) q.capacity)) [
      | inl room ↦ subst (Took r) (ground arith) (enqueue-Took r o (ground arith))
      | inr full ↦ subst (Took r) (ground arith) (fail-Took r send_queue_full)
    ]
  ]

  push_waiting-Took :
      (w : Wake) (r : Request) → Ready ctxs is_done r q w → Took r (push_waiting w r q)
  unfolding push_waiting
  push_waiting-Took w r en = elim (Bool-cases q.closed) [
    | inl shut ↦ subst (Took r) (ground arith) (fail-Took r node_closed)
    | inr o ↦ woken w o en
  ]
    where
      woken : (w : Wake) → q.closed ≡ false → Ready ctxs is_done r q w → Took r (push_waiting w r q)
      woken space o room = subst (Took r) (ground arith) (enqueue-Took r o room)
      woken done o en = subst (Took r) (ground arith) (fail-Took r node_closed)
      woken (ctx_ended e) o en = subst (Took r) (ground arith) (fail-Took r e)

  abbrev Popped : SendQueue × Option Request → Type 0
  Popped res =
      (heard f res.0 + count (audible f) (one res.1) ≡ heard f q + count (audible f) [])
      × (unheard res.0 + count silent (one res.1) ≡ unheard q + count silent [])
      × IsQueue res.0

  pop-Popped : (items : List Request) → q.items ≡ items → Popped (pop q)
  unfolding count
  pop-Popped [] e = subst Popped (sym (pop-empty q e)) (omega arith, omega arith, v)
  pop-Popped (r ∷ rest) e = subst Popped (sym (pop-cons q r rest e)) (
    ground (arith, e),
    ground (arith, e),
    record { bounded = ground (arith, v.bounded); emptied = λ h. cc (v.emptied h) },
  )

  close-Accounted : Accounted closes
  unfolding step close taken count
  close-Accounted =
      let a = fail_all_lem f q.items (record q { closed = true; items = [] }) refl in
      (
        ground (arith, a.0),
        omega (arith, a.1),
        record { bounded = rw a.2 (omega arith); emptied = λ h. a.2 },
      )

  pub step-Accounted : (op : Op) → Enabled ctxs is_done q op → Accounted op
  unfolding step taken
  step-Accounted (pushes r) en = push_now-Took r
  step-Accounted (waits w r) en = push_waiting-Took w r en
  step-Accounted pops en = pop-Popped q.items refl
  step-Accounted closes en = close-Accounted
