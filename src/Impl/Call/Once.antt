-- ===== src/Impl/Call/Once.antt =====
-- internal/impl/call.go: a call is dispatched once.
use gorums.Prelude.{
  ℕ, ◌+◌, ◌<◌, ◌≡◌, refl, Bool, true, false, Option, none, some, List, arith, length, max,
}
use gorums.Prelude.Go.{returns, panics}
use gorums.Impl.Call.{
  Protobuf, CallContext, Interceptor, send, send_once, send_now, async, dispatch, intercept,
}
use gorums.Impl.Call.Sends.{ids, tally, outcomes}
use gorums.Impl.Call.FanOut.{send-IsAfter}

module _ {Req Seq : Type 0} (pb : Protobuf Req) where
  -- What a dispatched call refuses.
  abbrev pub IsSpent : CallContext Req Seq → Type 0
  IsSpent d =
      ((start ch : ℕ) → dispatch pb start ch d ≡ panics)
      × ((start : ℕ) → async pb start d ≡ panics)
      × ((ics : List (Option (Interceptor Req Seq))) → intercept ics d ≡ panics)
      × ((start : ℕ) → send_now pb start d ≡ record d { dispatched = true })

  pub spent : (d : CallContext Req Seq) → d.dispatched ≡ true → d.sent ≡ true → IsSpent d
  unfolding dispatch async intercept send_now send_once
  spent d was sent =
      (λ start ch. ground arith, λ start. ground arith, λ ics. ground arith, λ start. ground arith)

  -- The dispatch of a one-way call that holds no error and was not dispatched before returns, for any
  -- random start below the size. It has one outcome, an enqueued request or a reported error, for each
  -- node of the configuration. From then on a dispatch, Async and Intercept panic, and sendNow sends
  -- nothing.
  pub dispatch_once :
      (f : ℕ → Bool) (start ch : ℕ) (c : CallContext Req Seq)
      → c.dispatched ≡ false
      → c.sent ≡ false
      → c.err ≡ none
      → start < max (length c.config) 1
      → (d : CallContext Req Seq) × (dispatch pb start ch c ≡ returns d)
        × (outcomes f d ≡ outcomes f c + tally f (ids c.config))
        × IsSpent d
  unfolding dispatch send_once
  dispatch_once f start ch c fresh unsent fine below =
      let c' : CallContext Req Seq = record c {
        dispatched = true;
        response_chan = some ch;
        sent = true;
      } in
      let v = send-IsAfter f pb start ch c' refl below in
      (send pb start c', ground arith, v.amount, spent (send pb start c') v.dispatched v.sent)

  -- The same holds of Async on a call of either kind that has a response channel.
  pub async_once :
      (f : ℕ → Bool) (start ch : ℕ) (c : CallContext Req Seq)
      → c.dispatched ≡ false
      → c.sent ≡ false
      → c.response_chan ≡ some ch
      → start < max (length c.config) 1
      → (d : CallContext Req Seq) × (async pb start c ≡ returns d)
        × (outcomes f d ≡ outcomes f c + tally f (ids c.config))
        × IsSpent d
  unfolding async send_once
  async_once f start ch c fresh unsent set below =
      let c' : CallContext Req Seq = record c { dispatched = true; sent = true } in
      let v = send-IsAfter f pb start ch c' set below in
      (send pb start c', ground arith, v.amount, spent (send pb start c') v.dispatched v.sent)
