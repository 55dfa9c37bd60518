-- ===== src/Stream/Local/Moves.antt =====
-- The steps of the channel of internal/stream/local.go after a request is taken in.
use gorums.Prelude.{
  ℕ, ◌+◌, ◌≡◌, refl, Bool, true, false, Option, none, some, [], ◌∷◌, ◌++◌, ltb, arith, Option-cases,
  inl, inr, get_elem?, length, length-append, if_both, if_case, sym, subst,
}
use gorums.Stream.Request.{
  Contexts, Message, Request, Delivery, want_send_confirmation, want_server_response,
}
use gorums.Stream.SendQueue.Counts.{count, count-append, audible}
use gorums.Stream.Dispatch.{Dispatcher, claim, admit}
use gorums.Stream.Dispatch.Serial.{IsSerial}
use gorums.Stream.Dispatch.History.{only, claim-IsSerial, admit-IsSerial}
use gorums.Stream.Local.{
  LocalChannel, refuse, remove_at, claim_slot, give_up, pushed, admit_push, send,
}
use gorums.Stream.Local.Steady.{admit_lem}
use gorums.Stream.Local.Accepts.{
  upto, is_refusal, is_confirmation, answered, total, confirmable, Serves, refuse-Serves,
  deliver_empty-answered, deliver_empty-kept, queued-IsLocal, count-remove_at, length-remove_at,
  answered-append,
}

module _ (f : Request → Bool) where
  pub claim_slot-Serves :
      (i : ℕ) (o : Option Request) (c : LocalChannel) (n : ℕ)
      → get_elem? c.waiting i ≡ o
      → Serves f n c
      → Serves f n (claim_slot i o c)
  unfolding claim_slot claim
  claim_slot-Serves i none c n at v = v
  claim_slot-Serves i (some r) c n at v =
      if_case (Serves f n) (ltb c.requests.slots c.requests.size) _ _
        (λ room. record {
          ordered = record {
            serial =
                claim-IsSerial (upto (length c.runs)) c.requests v.ordered.serial (ground arith);
            going = v.ordered.going;
            held = omega (arith, v.ordered.held, length-append c.claimed (r ∷ []));
          };
          accounts = omega (
            arith,
            v.accounts,
            count-remove_at (audible f) i c.waiting r at,
            count-append (audible f) c.claimed (r ∷ []),
          );
          confirms = v.confirms;
        })
        (λ full. v)

  pub give_up-Serves :
      (i : ℕ) (o : Option Request) (ctxs : Contexts) (c : LocalChannel) (n : ℕ)
      → get_elem? c.waiting i ≡ o
      → Serves f n c
      → Serves f n (give_up i o ctxs c)
  unfolding give_up
  give_up-Serves i none ctxs c n at v = v
  give_up-Serves i (some r) ctxs c n at v = elim (Option-cases (ctxs r.ctx)) [
    | inl alive ↦ rw (alive, give_up) v
    | inr (e, ended) ↦
        let c' = record c { waiting = remove_at i c.waiting } in
        rw (ended, give_up)
          (subst (λ k. Serves f k (refuse r e c'))
            (omega (arith, v.accounts, count-remove_at (audible f) i c.waiting r at))
            (refuse-Serves f r e c' (total f c') (record {
              ordered = record {
                serial = v.ordered.serial;
                going = v.ordered.going;
                held = v.ordered.held;
              };
              accounts = refl;
              confirms = v.confirms;
            })))
  ]

  pushed-Serves :
      (r : Request) (ctxs : Contexts) (c : LocalChannel) (n : ℕ) (t : Dispatcher × Bool)
      → IsSerial (upto (length c.runs) ++ only t.1 (length c.runs)) t.0
      → t.1 ≡ true
      → t.0.stopped ≡ false
      → t.0.held ≡ length c.claimed
      → total f c + count (audible f) (r ∷ []) ≡ n
      → count (audible f) (answered is_confirmation c.sent) ≡ count (confirmable f) c.runs
      → Serves f n (pushed r ctxs c t)
  unfolding pushed count want_send_confirmation
  pushed-Serves r ctxs c n (d, false) s taken going held all told = absurd cc
  pushed-Serves r ctxs c n (d, true) s taken going held all told =
      let c' : LocalChannel = record c { requests = d; runs = c.runs ++ r ∷ [] } in
      let o = queued-IsLocal f r c d s going held in
      if_case (Serves f n) (want_send_confirmation r) _ _
        (λ asks. subst (Serves f n) (sym (deliver_empty-kept f r none c')) (record {
          ordered = record { serial = o.serial; going = o.going; held = o.held };
          accounts = omega (
            arith,
            all,
            count-append (audible f) c.runs (r ∷ []),
            deliver_empty-answered f is_refusal f r none c',
          );
          confirms = ground (
            arith,
            told,
            count-append (confirmable f) c.runs (r ∷ []),
            deliver_empty-answered f is_confirmation f r none c',
            asks,
          );
        }))
        (λ silent. record {
          ordered = o;
          accounts = omega (arith, all, count-append (audible f) c.runs (r ∷ []));
          confirms = ground (arith, told, count-append (confirmable f) c.runs (r ∷ []), silent);
        })

  pub admit_push-Serves :
      (i : ℕ) (o : Option Request) (ctxs : Contexts) (c : LocalChannel) (n : ℕ)
      → get_elem? c.claimed i ≡ o
      → Serves f n c
      → Serves f n (admit_push i o ctxs c)
  unfolding admit_push
  admit_push-Serves i none ctxs c n at v = v
  admit_push-Serves i (some r) ctxs c n at v =
      let k = length c.runs in
      let (ok, going, held) = admit_lem k c.requests v.ordered.going in
      let fewer = length-remove_at i c.claimed r at in
      pushed-Serves r ctxs (record c { claimed = remove_at i c.claimed }) n (admit k c.requests)
        (admit-IsSerial (upto k) c.requests v.ordered.serial k
          (omega (arith, v.ordered.held, fewer)))
        ok going (omega (arith, held, v.ordered.held, fewer))
        (omega (arith, v.accounts, count-remove_at (audible f) i c.claimed r at)) v.confirms

  pub send-Serves :
      (msg : Message) (o : Option Request) (ctxs : Contexts) (c : LocalChannel) (n : ℕ)
      → Serves f n c
      → Serves f n (send msg o ctxs c)
  unfolding send count
  send-Serves msg none ctxs c n v = v
  send-Serves msg (some r) ctxs c n v =
      let d : Delivery = record {
        to = r;
        response = record { node_id = c.id; value = some msg; err = msg.status };
      } in
      record {
        ordered = record {
          serial = v.ordered.serial;
          going = v.ordered.going;
          held = v.ordered.held;
        };
        accounts =
            if_both
              (λ ds.
                count (audible f) c.waiting
                  + count (audible f) c.claimed
                  + count (audible f) c.runs
                  + count (audible f) (answered is_refusal ds)
                ≡ n)
              (want_server_response r) _ _
              (omega (arith, v.accounts, answered-append is_refusal (audible f) c.sent (d ∷ [])))
              v.accounts;
        confirms =
            if_both
              (λ ds. count (audible f) (answered is_confirmation ds) ≡ count (confirmable f) c.runs)
              (want_server_response r) _ _
              (omega
                (arith, v.confirms, answered-append is_confirmation (audible f) c.sent (d ∷ [])))
              v.confirms;
      }
