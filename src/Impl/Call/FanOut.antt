-- ===== src/Impl/Call/FanOut.antt =====
-- internal/impl/call_context.go: a call without transforms goes through all nodes, from a random one.
use native.Mathlib.Nat.{mod-eq_of_lt, add-mod_left}
use gorums.Prelude.{
  ℕ, zero, suc, ◌+◌, ◌%◌, ◌≤◌, ◌<◌, ◌≡◌, refl, sym, ◌∙◌, ap, subst, Bool, Option, none, some, List,
  [], ◌∷◌, arith, length, get_elem?, take, drop, drop_past, drop_next, get_elem?_below, Bool-cases,
  inl, inr, get_elem?-take, ltb, if_both, max,
}
use gorums.Errors.{skip_node}
use gorums.Stream.Request.{Message}
use gorums.Impl.Call.{
  Node, payload, fails, Protobuf, CallContext, report_node_error, report_all, enqueue, new_message,
  send_to, shared_loop, send_shared, transformed, transform_and_marshal, per_node_loop, send,
}
use gorums.Impl.Call.Sends.{
  ids, tally, outcomes, IsAfter, IsAfter-refl, IsAfter-trans, joined, report-IsAfter,
  report_all-IsAfter, new-IsAfter, send_to-IsAfter,
}

-- The loop of the shared send has its index below the length: first up to the end, then from the start.
index_up : (i j n : ℕ) → i + j < n → (i + j) % n ≡ i + j
index_up i j n h = mod-eq_of_lt h

index_around : (i j n m : ℕ) → i + j ≡ n + m → m < n → (i + j) % n ≡ m
index_around i j n m e h = rw (e, add-mod_left n m) (mod-eq_of_lt h)

drop-take : {A : Type 0} (n : ℕ) (xs : List A) → drop n (take n xs) ≡ []
drop-take zero xs = refl
drop-take (suc n) [] = refl
drop-take (suc n) (x ∷ xs) = drop-take n xs

-- The nodes of a list from index i on, and those from the next one on.
tally-drop :
    (f : ℕ → Bool) (i : ℕ) (ns : List Node) (n : Node)
    → get_elem? ns i ≡ some n
    → tally f (n.id ∷ []) + tally f (ids (drop (suc i) ns)) ≡ tally f (ids (drop i ns))
tally-drop f i ns n e = rw (drop_next i ns n e) (ground arith)

tally-drop_end :
    (f : ℕ → Bool) (i : ℕ) (ns : List Node) → length ns ≤ i → tally f (ids (drop i ns)) ≡ 0
tally-drop_end f i ns h = rw (drop_past i ns h) refl

tally-split :
    (f : ℕ → Bool) (n : ℕ) (ns : List Node)
    → tally f (ids (drop n ns)) + tally f (ids (take n ns)) ≡ tally f (ids ns)
tally-split f zero ns = omega arith
tally-split f (suc n) [] = refl
tally-split f (suc n) (x ∷ ns) = ground (arith, tally-split f n ns)

module _ {Req Seq : Type 0} (f : ℕ → Bool) where
  -- One round of the loop, at an index that holds the node n.
  round-IsAfter :
      (k i start body : ℕ) (shared : Option Message) (n : Node) (rest : ℕ) (c : CallContext Req Seq)
      → get_elem? c.config ((start + i) % length c.config) ≡ some n
      → ((d : CallContext Req Seq) (o : Option Message)
          → d.config ≡ c.config
          → IsAfter f rest d (shared_loop k (suc i) start body o d))
      → IsAfter f (tally f (n.id ∷ []) + rest) c (shared_loop (suc k) i start body shared c)
  unfolding shared_loop
  round-IsAfter k i start body shared n rest c e ih =
      let v = send_to-IsAfter f n body shared c in
      let r = send_to n body shared c in
      subst
        (λ o. IsAfter f (tally f (n.id ∷ []) + rest) c (elim o [
          | none ↦ c
          | some n ↦
              let (c', shared') = send_to n body shared c in
              shared_loop k (suc i) start body shared' c'
        ]))
        (sym e) (IsAfter-trans f _ _ c r.0 _ v (ih r.0 r.1 v.config))

  -- The rounds after the wrap, which go through the nodes before the start.
  around-IsAfter :
      (k i m start body : ℕ) (shared : Option Message) (ns : List Node) (c : CallContext Req Seq)
      → c.config ≡ ns
      → start + i ≡ length ns + m
      → k + m ≡ start
      → start < length ns
      → IsAfter f (tally f (ids (drop m (take start ns)))) c (shared_loop k i start body shared c)
  around-IsAfter zero i m start body shared ns c e at all below =
      let same : m ≡ start = omega arith in
      let gone : tally f (ids (drop m (take start ns))) ≡ 0 =
        rw (same) (ap (λ xs. tally f (ids xs)) (drop-take start ns)) in
      joined f 0 _ c _ (unfold shared_loop in IsAfter-refl f c) (sym gone)
  around-IsAfter (suc k) i m start body shared ns c e at all below =
      let (n, here) = get_elem?_below m ns (omega arith) in
      joined f _ _ _ _
        (round-IsAfter k i start body shared n (tally f (ids (drop (suc m) (take start ns)))) c
          (rw (e, index_around start i (length ns) m at (omega arith)) here)
          (λ d o same.
            around-IsAfter k (suc i) (suc m) start body o ns d (same ∙ e) (omega arith)
              (omega arith) below))
        (tally-drop f m (take start ns) n (get_elem?-take start m ns (omega arith) ∙ here))

  -- The rounds before the wrap.
  up-IsAfter :
      (k i start body : ℕ) (shared : Option Message) (ns : List Node) (c : CallContext Req Seq)
      → c.config ≡ ns
      → k + i ≡ length ns
      → start + i ≤ length ns
      → start < length ns
      → IsAfter f
          (tally f (ids (drop (start + i) ns)) + tally f (ids (take start ns)))
          c
          (shared_loop k i start body shared c)
  up-IsAfter zero i start body shared ns c e all up below =
      joined f _ _ _ _
        (around-IsAfter zero i 0 start body shared ns c e (omega arith) (omega arith) below)
        (omega (arith, tally-drop_end f (start + i) ns (omega arith)))
  up-IsAfter (suc k) i start body shared ns c e all up below =
      elim (Bool-cases (ltb (start + i) (length ns))) [
        | inl more ↦
            let (n, here) = get_elem?_below (start + i) ns (ground arith) in
            joined f _ _ _ _
              (round-IsAfter k i start body shared n
                (tally f (ids (drop (suc (start + i)) ns)) + tally f (ids (take start ns))) c
                (rw (e, index_up start i (length ns) (ground arith)) here)
                (λ d o same.
                  let next : start + suc i ≡ suc (start + i) = omega arith in
                  joined f _ _ _ _
                    (up-IsAfter k (suc i) start body o ns d (same ∙ e) (omega arith) (ground arith)
                      below)
                    (ap (λ j. tally f (ids (drop j ns)) + tally f (ids (take start ns))) next)))
              (omega (arith, tally-drop f (start + i) ns n here))
        | inr end ↦
            joined f _ _ _ _
              (around-IsAfter (suc k) i 0 start body shared ns c e (ground arith) (ground arith)
                below)
              (omega (arith, tally-drop_end f (start + i) ns (ground arith)))
      ]

  fan_out-IsAfter :
      (start body : ℕ) (ns : List Node) (c : CallContext Req Seq)
      → c.config ≡ ns
      → start < max (length ns) 1
      → IsAfter f (tally f (ids ns)) c (shared_loop (length ns) 0 start body none c)
  fan_out-IsAfter start body [] c e below = unfold shared_loop in IsAfter-refl f c
  fan_out-IsAfter start body (n ∷ ns) c e below =
      let around =
        up-IsAfter (length (n ∷ ns)) 0 start body none (n ∷ ns) c e (omega arith) (omega arith)
          (omega arith) in
      let at_start : start + 0 ≡ start = omega arith in
      joined f _ _ _ _ around (rw at_start (tally-split f start (n ∷ ns)))

  module _ (pb : Protobuf Req) where
    pub send_shared-IsAfter :
        (start ch : ℕ) (c : CallContext Req Seq)
        → c.response_chan ≡ some ch
        → start < max (length c.config) 1
        → IsAfter f (tally f (ids c.config)) c (send_shared pb start c)
    unfolding send_shared
    send_shared-IsAfter start ch c h below =
        elim (pb.marshal c.request)
          as (λ m. IsAfter f (tally f (ids c.config)) c (elim m [
            | fails e ↦ report_all c.config e c
            | payload body ↦ shared_loop (length c.config) 0 start body none c
          ])) [
            | fails e ↦ report_all-IsAfter f c.config e ch c h
            | payload body ↦ fan_out-IsAfter start body c.config c refl below
          ]

    -- The node is sent the transformed request, or reported on.
    node-IsAfter :
        (n : Node) (ch : ℕ) (c : CallContext Req Seq)
        → c.response_chan ≡ some ch
        → let r = transform_and_marshal pb n c in
          IsAfter f (tally f (n.id ∷ [])) c (elim r.1 [ none ↦ r.0 | some m ↦ enqueue n m r.0 ])
    unfolding transform_and_marshal new_message
    node-IsAfter n ch c h =
        let req = transformed c.req_transforms n c.request in
        let Sent = λ (r : CallContext Req Seq × Option Message).
          IsAfter f (tally f (n.id ∷ [])) c (elim r.1 [ none ↦ r.0 | some m ↦ enqueue n m r.0 ]) in
        let next = new_message n 0 c in
        if_both Sent (pb.is_valid req) _ _
          (elim (pb.marshal req)
            as (λ m. Sent (elim m [
              | fails e ↦ (report_node_error n.id e next.0, none)
              | payload body ↦ (next.0, some (record next.1 { payload = body }))
            ])) [
              | fails e ↦
                  let v = report-IsAfter f n.id e ch next.0 h in
                  record {
                    amount = v.amount;
                    config = v.config;
                    chan = v.chan;
                    request = v.request;
                    transforms = v.transforms;
                    dispatched = v.dispatched;
                    sent = v.sent;
                  }
              | payload body ↦ new-IsAfter f n 0 (record next.1 { payload = body }) c
            ])
          (report-IsAfter f n.id skip_node ch c h)

    per_node_loop-IsAfter :
        (ns : List Node) (ch : ℕ) (c : CallContext Req Seq)
        → c.response_chan ≡ some ch
        → IsAfter f (tally f (ids ns)) c (per_node_loop pb ns c)
    unfolding per_node_loop
    per_node_loop-IsAfter [] ch c h = IsAfter-refl f c
    per_node_loop-IsAfter (n ∷ ns) ch c h =
        let v = node-IsAfter n ch c h in
        let w = per_node_loop-IsAfter ns ch _ (v.chan ∙ h) in
        joined f _ _ _ _ (IsAfter-trans f _ _ _ _ _ v w) (ground arith)

    pub send-IsAfter :
        (start ch : ℕ) (c : CallContext Req Seq)
        → c.response_chan ≡ some ch
        → start < max (length c.config) 1
        → IsAfter f (tally f (ids c.config)) c (send pb start c)
    unfolding send
    send-IsAfter start ch c h below =
        elim c.req_transforms
          as (λ fs.
            IsAfter f (tally f (ids c.config)) c
              (elim fs [ [] ↦ send_shared pb start c | _ ∷ _ ↦ per_node_loop pb c.config c ])) [
                | [] ↦ send_shared-IsAfter start ch c h below
                | _ ∷ _ ↦ per_node_loop-IsAfter c.config ch c h
              ]

    -- A send has one outcome for each node of the configuration, whatever the start and the transforms:
    -- of any kind of node IDs, as many are enqueued or reported on more than before as the configuration
    -- has nodes of the kind. The call has a response channel, and the start is below the size.
    pub send_each :
        (start ch : ℕ) (c : CallContext Req Seq)
        → c.response_chan ≡ some ch
        → start < max (length c.config) 1
        → outcomes f (send pb start c) ≡ outcomes f c + tally f (ids c.config)
    send_each start ch c h below = (send-IsAfter start ch c h below).amount
