-- ===== src/Stream/Local.antt =====
-- internal/stream/local.go: the channel that passes requests to the handler of this process. Log lines
-- and metadata are left out.
mod Steady
pub mod Accepts
pub mod Moves
pub mod Serves
mod Tests
use gorums.Prelude.{
  ℕ, zero, suc, ◌+◌, Bool, true, false, not, ◌&&◌, ◌||◌, Option, none, some, List, [], ◌∷◌, ◌++◌,
  if◌then◌else◌, is_some, ltb, length, get_elem?,
}
use gorums.Prelude.Go.{Go, returns, panics, ◌>>◌, panic_if}
use gorums.Errors.{Error, status, unimplemented, send_queue_full}
use gorums.Stream.Request.{
  Contexts, Message, Request, Response, Delivery, want_server_response, want_send_confirmation,
}
use gorums.Stream.Dispatch
use gorums.Stream.Dispatch.{Dispatcher, new_dispatcher, claim, admit, try_push, release, finish}

-- `runs` lists the requests that were queued for the handler: the dispatcher runs the one at i as
-- its handler i. `waiting` and `claimed` are the one-way requests in a call of `push`, which waits for
-- a slot or has one. `unmatched` counts error replies.
pub record LocalChannel : Type 0 where
  pub id : ℕ
  pub handler : Bool
  pub requests : Dispatcher
  pub runs : List Request
  pub waiting : List Request
  pub claimed : List Request
  pub sent : List Delivery
  pub unmatched : ℕ

unfoldable pub new_local_channel : ℕ → Bool → ℕ → LocalChannel
unfolding new_dispatcher
new_local_channel id handler recv_buffer_size = record {
  id = id;
  handler = handler;
  requests = new_dispatcher recv_buffer_size;
  runs = [];
  waiting = [];
  claimed = [];
  sent = [];
  unmatched = 0;
}

-- `sendErrorResponse`, and the confirmation of a request, which has no error.
unfoldable pub deliver_empty : Request → Option Error → LocalChannel → LocalChannel
deliver_empty r e c = elim r.response_chan [
  | none ↦ c
  | some _ ↦ record c {
    sent =
        c.sent
        ++ (record { to = r; response = record { node_id = c.id; value = none; err = e } }) ∷ [];
  }
]

unfoldable pub refuse : Request → Error → LocalChannel → LocalChannel
unfolding deliver_empty
refuse req e c = deliver_empty req (some e) c

-- What follows `tryPush`.
unfoldable pub pushed_now : Request → LocalChannel → Dispatcher × Bool → LocalChannel
unfolding refuse
pushed_now req c (d, true) = record c { requests = d; runs = c.runs ++ req ∷ [] }
pushed_now req c (d, false) = refuse req send_queue_full (record c { requests = d })

-- `Enqueue`, up to the wait of a one-way request.
unfoldable pub take_in : Option Error → Request → LocalChannel → LocalChannel
unfolding refuse pushed_now try_push
take_in (some e) req c = refuse req e c
take_in none req c =
    if not c.handler
    then refuse req (status unimplemented 0) c
    else if want_server_response req
    then pushed_now req c (try_push (length c.runs) c.requests)
    else record c { waiting = c.waiting ++ req ∷ [] }

unfoldable pub enqueue : Contexts → Request → LocalChannel → Go LocalChannel
unfolding take_in
enqueue ctxs req c =
    panic_if (req.oneway && req.streaming) >> returns (take_in (ctxs req.ctx) req c)

unfoldable pub remove_at : ℕ → List Request → List Request
remove_at i [] = []
remove_at zero (r ∷ rs) = rs
remove_at (suc i) (r ∷ rs) = r ∷ remove_at i rs

-- `push` of the request that waits at i: it gets a slot.
unfoldable pub claim_slot : ℕ → Option Request → LocalChannel → LocalChannel
unfolding claim remove_at
claim_slot i none c = c
claim_slot i (some r) c =
    if ltb c.requests.slots c.requests.size
    then record c {
      requests = claim c.requests;
      waiting = remove_at i c.waiting;
      claimed = c.claimed ++ r ∷ [];
    }
    else c

-- `push` of the request that waits at i: its context ends.
unfoldable pub give_up : ℕ → Option Request → Contexts → LocalChannel → LocalChannel
unfolding refuse remove_at
give_up i none ctxs c = c
give_up i (some r) ctxs c = elim (ctxs r.ctx) [
  | none ↦ c
  | some e ↦ refuse r e (record c { waiting = remove_at i c.waiting })
]

-- What follows `push` of a request that had a slot.
unfoldable pub pushed : Request → Contexts → LocalChannel → Dispatcher × Bool → LocalChannel
unfolding deliver_empty want_send_confirmation
pushed r ctxs c (d, true) =
    let c' = record c { requests = d; runs = c.runs ++ r ∷ [] } in
    if want_send_confirmation r then deliver_empty r none c' else c'
pushed r ctxs c (d, false) = deliver_empty r (ctxs r.ctx) (record c { requests = d })

unfoldable pub admit_push : ℕ → Option Request → Contexts → LocalChannel → LocalChannel
unfolding pushed admit remove_at
admit_push i none ctxs c = c
admit_push i (some r) ctxs c =
    pushed r ctxs (record c { claimed = remove_at i c.claimed }) (admit (length c.runs) c.requests)

-- The handler of a request sends a reply.
unfoldable pub send : Message → Option Request → Contexts → LocalChannel → LocalChannel
send msg none ctxs c = c
send msg (some r) ctxs c =
    let unseen = is_some msg.status && (not (want_server_response r) || is_some (ctxs r.ctx)) in
    record c {
      unmatched = if unseen then suc c.unmatched else c.unmatched;
      sent =
          if want_server_response r
          then c.sent
            ++ (record {
              to = r;
              response = record { node_id = c.id; value = some msg; err = msg.status };
            })
              ∷ []
          else c.sent;
    }
