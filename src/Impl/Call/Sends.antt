-- ===== src/Impl/Call/Sends.antt =====
-- internal/impl/call_context.go: what becomes of the nodes of a call.
use gorums.Prelude.{
  ℕ, ◌+◌, ◌≡◌, refl, ◌∙◌, subst, Bool, Option, none, some, List, [], ◌∷◌, ◌++◌, map, arith, length,
  keep, if_both,
}
use gorums.Errors.{Error}
use gorums.Stream.Request.{Request, Message}
use gorums.Impl.Call.{
  Node, CallContext, report_node_error, report_all, enqueue, new_message, send_to,
}

-- How many of the IDs of a list are of a kind.
abbrev pub tally : (ℕ → Bool) → List ℕ → ℕ
tally f ids = length (keep f ids)

abbrev pub ids : List Node → List ℕ
ids ns = map (λ n. n.id) ns

tally-map :
    {A : Type 0} (f : ℕ → Bool) (g : A → ℕ) (xs : List A) (x : A)
    → tally f (map g (xs ++ x ∷ [])) ≡ tally f (map g xs) + tally f (g x ∷ [])
tally-map f g [] x = omega arith
tally-map f g (y ∷ xs) x = ground (arith, tally-map f g xs x)

module _ {Req Seq : Type 0} where
  abbrev pub targets : CallContext Req Seq → List ℕ
  targets c = map (λ e. e.0.id) c.enqueued

  abbrev pub informed : CallContext Req Seq → List ℕ
  informed c = map (λ r. r.node_id) c.reported

  -- The nodes that a call has either sent to or reported on.
  abbrev pub outcomes : (ℕ → Bool) → CallContext Req Seq → ℕ
  outcomes f c = tally f (targets c) + tally f (informed c)

  -- A call after some of its work, which keeps what it was made with.
  pub record IsAfter (f : ℕ → Bool) (n : ℕ) (c d : CallContext Req Seq) : Type 0 where
    pub amount : outcomes f d ≡ outcomes f c + n
    pub config : d.config ≡ c.config
    pub chan : d.response_chan ≡ c.response_chan
    pub request : d.request ≡ c.request
    pub transforms : d.req_transforms ≡ c.req_transforms
    pub dispatched : d.dispatched ≡ c.dispatched
    pub sent : d.sent ≡ c.sent

  module _ (f : ℕ → Bool) where
    pub IsAfter-refl : (c : CallContext Req Seq) → IsAfter f 0 c c
    IsAfter-refl c = record {
      amount = omega arith;
      config = refl;
      chan = refl;
      request = refl;
      transforms = refl;
      dispatched = refl;
      sent = refl;
    }

    pub IsAfter-trans :
        (m n : ℕ) (b c d : CallContext Req Seq)
        → IsAfter f m b c
        → IsAfter f n c d
        → IsAfter f (m + n) b d
    IsAfter-trans m n b c d v w = record {
      amount = omega (arith, v.amount, w.amount);
      config = w.config ∙ v.config;
      chan = w.chan ∙ v.chan;
      request = w.request ∙ v.request;
      transforms = w.transforms ∙ v.transforms;
      dispatched = w.dispatched ∙ v.dispatched;
      sent = w.sent ∙ v.sent;
    }

    pub joined : (m n : ℕ) (c d : CallContext Req Seq) → IsAfter f m c d → m ≡ n → IsAfter f n c d
    joined m n c d v e = subst (λ k. IsAfter f k c d) e v

    pub report-IsAfter :
        (id : ℕ) (e : Error) (ch : ℕ) (c : CallContext Req Seq)
        → c.response_chan ≡ some ch
        → IsAfter f (tally f (id ∷ [])) c (report_node_error id e c)
    unfolding report_node_error
    report-IsAfter id e ch c h = record {
      amount = ground (
        arith,
        h,
        tally-map f (λ r. r.node_id) c.reported
            (record { node_id = id; value = none; err = some e }),
      );
      config = ground (arith, h);
      chan = ground (arith, h);
      request = ground (arith, h);
      transforms = ground (arith, h);
      dispatched = ground (arith, h);
      sent = ground (arith, h);
    }

    pub enqueue-IsAfter :
        (n : Node) (msg : Message) (c : CallContext Req Seq)
        → IsAfter f (tally f (n.id ∷ [])) c (enqueue n msg c)
    unfolding enqueue
    enqueue-IsAfter n msg c = record {
      amount = omega (
        arith,
        tally-map f (λ (e : Node × Request). e.0.id) c.enqueued
            (
              n,
              record {
                ctx = c.ctx;
                msg = msg;
                streaming = c.streaming;
                oneway = c.oneway;
                response_chan = c.response_chan;
              },
            ),
      );
      config = refl;
      chan = refl;
      request = refl;
      transforms = refl;
      dispatched = refl;
      sent = refl;
    }

    pub report_all-IsAfter :
        (ns : List Node) (e : Error) (ch : ℕ) (c : CallContext Req Seq)
        → c.response_chan ≡ some ch
        → IsAfter f (tally f (ids ns)) c (report_all ns e c)
    unfolding report_all
    report_all-IsAfter [] e ch c h = IsAfter-refl c
    report_all-IsAfter (n ∷ ns) e ch c h =
        let v = report-IsAfter n.id e ch c h in
        let w = report_all-IsAfter ns e ch (report_node_error n.id e c) (v.chan ∙ h) in
        joined _ _ _ _ (IsAfter-trans _ _ _ _ _ v w) (ground arith)

    -- A message with a new ID, enqueued.
    pub new-IsAfter :
        (n : Node) (body : ℕ) (msg : Message) (c : CallContext Req Seq)
        → IsAfter f (tally f (n.id ∷ [])) c (enqueue n msg (new_message n body c).0)
    unfolding new_message
    new-IsAfter n body msg c =
        let v = enqueue-IsAfter n msg (new_message n body c).0 in
        record {
          amount = v.amount;
          config = v.config;
          chan = v.chan;
          request = v.request;
          transforms = v.transforms;
          dispatched = v.dispatched;
          sent = v.sent;
        }

    pub send_to-IsAfter :
        (n : Node) (body : ℕ) (shared : Option Message) (c : CallContext Req Seq)
        → IsAfter f (tally f (n.id ∷ [])) c (send_to n body shared c).0
    unfolding send_to
    send_to-IsAfter n body shared c =
        let Sent =
          λ (r : CallContext Req Seq × Option Message). IsAfter f (tally f (n.id ∷ [])) c r.0 in
        let msg = (new_message n body c).1 in
        let c' = (new_message n body c).0 in
        if_both Sent n.is_shared _ _ (new-IsAfter n body msg c)
          (elim shared
            as (λ o. Sent (elim o [
              | none ↦ (enqueue n msg c', some msg)
              | some old ↦ (enqueue n old c, some old)
            ])) [ none ↦ new-IsAfter n body msg c | some old ↦ enqueue-IsAfter n old c ])
