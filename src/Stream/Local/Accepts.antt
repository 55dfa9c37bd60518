-- ===== src/Stream/Local/Accepts.antt =====
-- What the channel of internal/stream/local.go has to answer for, and how it takes a request.
use gorums.Prelude.{
  ℕ, zero, suc, ◌+◌, ◌≡◌, refl, Bool, true, false, not, ◌&&◌, Option, none, some, List, [], ◌∷◌,
  ◌++◌, map, if◌then◌else◌, arith, Option-cases, inl, inr, append-nil, get_elem?, length,
  length-append, keep, is_some, if_both, if_case, sym, subst, ap, ◌∙◌,
}
use gorums.Errors.{Error, status, unimplemented, send_queue_full}
use gorums.Stream.Request.{Request, Delivery, want_send_confirmation, want_server_response}
use gorums.Stream.SendQueue.Counts.{count, count-append, audible}
use gorums.Stream.Dispatch.{Dispatcher, try_push}
use gorums.Stream.Dispatch.Serial.{IsSerial}
use gorums.Stream.Dispatch.History.{only, try_push-IsSerial}
use gorums.Stream.Local.{LocalChannel, refuse, pushed_now, take_in, remove_at, deliver_empty}
use gorums.Stream.Local.Steady.{try_push-Steady}

-- The numbers below a bound, in order.
abbrev pub upto : ℕ → List ℕ
upto zero = []
upto (suc n) = upto n ++ n ∷ []

-- The dispatcher runs the queued requests in order, one at a time; it is not stopped; and it keeps a slot
-- for each push that has one.
pub record IsLocal (c : LocalChannel) : Type 0 where
  pub serial : IsSerial (upto (length c.runs)) c.requests
  pub going : c.requests.stopped ≡ false
  pub held : c.requests.held ≡ length c.claimed

abbrev pub is_refusal : Delivery → Bool
is_refusal d = not (is_some d.response.value) && is_some d.response.err

abbrev pub is_confirmation : Delivery → Bool
is_confirmation d = not (is_some d.response.value) && not (is_some d.response.err)

-- The requests that were answered so.
abbrev pub answered : (Delivery → Bool) → List Delivery → List Request
answered p ds = map (λ d. d.to) (keep p ds)

pub answered-append :
    (p : Delivery → Bool) (f : Request → Bool) (ds es : List Delivery)
    → count f (answered p (ds ++ es)) ≡ count f (answered p ds) + count f (answered p es)
unfolding count
answered-append p f [] es = omega arith
answered-append p f (d ∷ ds) es = ground (arith, answered-append p f ds es)

pub count-remove_at :
    (f : Request → Bool) (i : ℕ) (rs : List Request) (r : Request)
    → get_elem? rs i ≡ some r
    → count f (remove_at i rs) + count f (r ∷ []) ≡ count f rs
unfolding count remove_at
count-remove_at f i [] r h = cc
count-remove_at f zero (q ∷ rs) r h = ground arith
count-remove_at f (suc i) (q ∷ rs) r h = ground (arith, count-remove_at f i rs r h)

pub length-remove_at :
    (i : ℕ) (rs : List Request) (r : Request)
    → get_elem? rs i ≡ some r
    → suc (length (remove_at i rs)) ≡ length rs
unfolding remove_at
length-remove_at i [] r h = cc
length-remove_at zero (q ∷ rs) r h = omega arith
length-remove_at (suc i) (q ∷ rs) r h = omega (arith, length-remove_at i rs r h)

-- Those of the requests that ask for a confirmation.
abbrev pub confirmable : (Request → Bool) → Request → Bool
confirmable f r = want_send_confirmation r && f r

module _ (f : Request → Bool) where
  -- The requests of a kind in the hands of the channel or refused by it.
  abbrev pub total : LocalChannel → ℕ
  total c =
      count (audible f) c.waiting
      + count (audible f) c.claimed
      + count (audible f) c.runs
      + count (audible f) (answered is_refusal c.sent)

  -- The channel is in order, has so many more requests than before, and has confirmed those that it
  -- queued and that ask for it.
  pub record Serves (n : ℕ) (c : LocalChannel) : Type 0 where
    pub ordered : IsLocal c
    pub accounts : total c ≡ n
    pub confirms :
        count (audible f) (answered is_confirmation c.sent) ≡ count (confirmable f) c.runs

  pub deliver_empty-answered :
      (p : Delivery → Bool) (g : Request → Bool) (r : Request) (e : Option Error) (c : LocalChannel)
      → let d : Delivery = record {
        to = r;
        response = record { node_id = c.id; value = none; err = e };
      } in
        count (audible g) (answered p (deliver_empty r e c).sent)
        ≡ count (audible g) (answered p c.sent) + (if p d then count (audible g) (r ∷ []) else 0)
  unfolding deliver_empty count
  deliver_empty-answered p g r e c = elim (Option-cases r.response_chan) [
    | inl deaf ↦ ground (arith, deaf)
    | inr (ch, hears) ↦
        let d : Delivery = record {
          to = r;
          response = record { node_id = c.id; value = none; err = e };
        } in
        ground (arith, hears, answered-append p (audible g) c.sent (d ∷ []))
  ]

  -- The parts of the channel that a response does not change.
  pub deliver_empty-kept :
      (r : Request) (e : Option Error) (c : LocalChannel)
      → deliver_empty r e c ≡ record c { sent = (deliver_empty r e c).sent }
  unfolding deliver_empty
  deliver_empty-kept r e c = elim (Option-cases r.response_chan) [
    | inl deaf ↦ rw (deaf, deliver_empty) refl
    | inr (ch, hears) ↦ rw (hears, deliver_empty) refl
  ]

  pub refuse-Serves :
      (r : Request) (e : Error) (c : LocalChannel) (n : ℕ)
      → Serves n c
      → Serves (n + count (audible f) (r ∷ [])) (refuse r e c)
  unfolding refuse
  refuse-Serves r e c n v =
      subst (Serves (n + count (audible f) (r ∷ []))) (sym (deliver_empty-kept r (some e) c))
        (record {
          ordered = record {
            serial = v.ordered.serial;
            going = v.ordered.going;
            held = v.ordered.held;
          };
          accounts = omega (arith, v.accounts, deliver_empty-answered is_refusal f r (some e) c);
          confirms =
              omega (arith, v.confirms, deliver_empty-answered is_confirmation f r (some e) c);
        })

  upto_next :
      (rs : List Request) (r : Request)
      → upto (length (rs ++ r ∷ [])) ≡ upto (length rs) ++ length rs ∷ []
  upto_next rs r =
      let e : length (rs ++ r ∷ []) ≡ suc (length rs) = omega (arith, length-append rs (r ∷ [])) in
      ap upto e

  -- The request is queued as the next run; `c` has its dispatcher as it was.
  pub queued-IsLocal :
      (r : Request) (c : LocalChannel) (d : Dispatcher)
      → IsSerial (upto (length c.runs) ++ length c.runs ∷ []) d
      → d.stopped ≡ false
      → d.held ≡ length c.claimed
      → IsLocal (record c { requests = d; runs = c.runs ++ r ∷ [] })
  queued-IsLocal r c d s going held = record {
    serial = subst (λ u. IsSerial u d) (sym (upto_next c.runs r)) s;
    going = going;
    held = held;
  }

  pushed_now-Serves :
      (r : Request) (c : LocalChannel) (n : ℕ) (t : Dispatcher × Bool)
      → Serves n c
      → want_server_response r ≡ true
      → IsSerial (upto (length c.runs) ++ only t.1 (length c.runs)) t.0
      → t.0.stopped ≡ false
      → t.0.held ≡ c.requests.held
      → Serves (n + count (audible f) (r ∷ [])) (pushed_now r c t)
  unfolding pushed_now want_server_response want_send_confirmation count
  pushed_now-Serves r c n (d, true) v two_way s going held = record {
    ordered = queued-IsLocal r c d s going (held ∙ v.ordered.held);
    accounts = omega (arith, v.accounts, count-append (audible f) c.runs (r ∷ []));
    confirms = ground (arith, v.confirms, count-append (confirmable f) c.runs (r ∷ []), two_way);
  }
  pushed_now-Serves r c n (d, false) v two_way s going held =
      refuse-Serves r send_queue_full (record c { requests = d }) n
        (record {
          ordered = record {
            serial = subst (λ u. IsSerial u d) (append-nil (upto (length c.runs))) s;
            going = going;
            held = held ∙ v.ordered.held;
          };
          accounts = v.accounts;
          confirms = v.confirms;
        })

  pub take_in-Serves :
      (o : Option Error) (r : Request) (c : LocalChannel) (n : ℕ)
      → Serves n c
      → Serves (n + count (audible f) (r ∷ [])) (take_in o r c)
  unfolding take_in
  take_in-Serves (some e) r c n v = refuse-Serves r e c n v
  take_in-Serves none r c n v =
      if_both (Serves (n + count (audible f) (r ∷ []))) (not c.handler) _ _
        (refuse-Serves r (status unimplemented 0) c n v)
        (if_case (Serves (n + count (audible f) (r ∷ []))) (want_server_response r) _ _
          (λ two_way.
            let k = length c.runs in
            let steady = try_push-Steady k c.requests v.ordered.going in
            pushed_now-Serves r c n (try_push k c.requests) v two_way
              (try_push-IsSerial (upto k) c.requests v.ordered.serial k)
              (steady.0 ∙ v.ordered.going) steady.1)
          (λ oneway. record {
            ordered = record {
              serial = v.ordered.serial;
              going = v.ordered.going;
              held = v.ordered.held;
            };
            accounts = omega (arith, v.accounts, count-append (audible f) c.waiting (r ∷ []));
            confirms = v.confirms;
          }))
