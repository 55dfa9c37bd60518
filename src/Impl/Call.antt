-- ===== src/Impl/Call.antt =====
-- internal/impl/call.go and call_context.go: the dispatch of a call to the nodes of its configuration,
-- and one-way calls. Protobuf is a parameter. What the sends do with a request is the channels' matter:
-- a call keeps the list of what it enqueued and, apart, of the errors that it reported itself.
pub mod Sends
pub mod FanOut
pub mod Once
pub mod Collects
pub mod Sequences
mod Tests
use gorums.Prelude.{
  ℕ, zero, suc, ◌+◌, ◌%◌, ◌≡◌, Bool, true, false, not, ◌&&◌, Option, none, some, List, [], ◌∷◌,
  ◌++◌, map, if◌then◌else◌, is_some, length, get_elem?, nat_beq,
}
use gorums.Prelude.Go.{Go, returns, panics, ◌>>=◌, ◌>>◌, panic_if}
use gorums.Errors.{
  Error, skip_node, send_failure, no_node, empty_config, NodeError, CallError, plain, quorum,
  ErrorsIs,
}
use gorums.Stream.Request.{Request, Message, Response, server_sequence_number}

-- A node as a call sees it: its ID, whether its stream is shared, and whether its transport takes message
-- IDs from the inbound manager, in the server's space, or from the outbound manager.
pub record Node : Type 0 where
  pub id : ℕ
  pub is_shared : Bool
  pub server_ids : Bool

-- The counters of message IDs of the two managers.
pub record MsgIds : Type 0 where
  pub client : ℕ
  pub server : ℕ

-- `nextMsgID` of the manager of the node's transport.
unfoldable pub next_msg_id : Node → MsgIds → MsgIds × ℕ
unfolding server_sequence_number
next_msg_id n ids =
    if n.server_ids
    then (record ids { server = suc ids.server }, server_sequence_number (suc ids.server))
    else (record ids { client = suc ids.client }, suc ids.client)

pub data Marshalled : Type 0 where
  payload : ℕ → Marshalled
  fails : Error → Marshalled

-- What a call uses of protobuf: `proto.Marshal`, and whether a request is a valid message.
pub record Protobuf (Req : Type 0) : Type 0 where
  pub marshal : Req → Marshalled
  pub is_valid : Req → Bool

-- `Seq` is the type of response sequences. `sent` is whether `sendOnce` has run.
pub record CallContext (Req Seq : Type 0) : Type 0 where
  pub ctx : ℕ
  pub config : List Node
  pub request : Req
  pub method : ℕ
  pub response_chan : Option ℕ
  pub req_transforms : List (Req → Node → Req)
  pub response_seq : Seq
  pub streaming : Bool
  pub oneway : Bool
  pub err : Option Error
  pub sent : Bool
  pub dispatched : Bool
  pub ids : MsgIds
  pub enqueued : List (Node × Request)
  pub reported : List Response

-- The transforms of a request for a node, in order.
unfoldable pub transformed : {Req : Type 0} → List (Req → Node → Req) → Node → Req → Req
transformed [] n req = req
transformed (f ∷ fs) n req = transformed fs n (f req n)

-- An interceptor, which may be nil, takes the call and the sequence so far.
abbrev pub Interceptor : Type 0 → Type 0 → Type 0
Interceptor Req Seq = CallContext Req Seq → Seq → CallContext Req Seq × Seq

module _ {Req Seq : Type 0} where
  -- `reportNodeError`
  unfoldable pub report_node_error : ℕ → Error → CallContext Req Seq → CallContext Req Seq
  report_node_error id e c = elim c.response_chan [
    | none ↦ c
    | some _ ↦ record c {
      reported = c.reported ++ (record { node_id = id; value = none; err = some e }) ∷ [];
    }
  ]

  unfoldable pub report_all : List Node → Error → CallContext Req Seq → CallContext Req Seq
  unfolding report_node_error
  report_all [] e c = c
  report_all (n ∷ ns) e c = report_all ns e (report_node_error n.id e c)

  -- `enqueue`
  unfoldable pub enqueue : Node → Message → CallContext Req Seq → CallContext Req Seq
  enqueue n msg c = record c {
    enqueued =
        c.enqueued
        ++ (
          n,
          record {
            ctx = c.ctx;
            msg = msg;
            streaming = c.streaming;
            oneway = c.oneway;
            response_chan = c.response_chan;
          },
        )
          ∷ [];
  }

  -- A message with the next ID of the node's transport.
  unfoldable pub new_message : Node → ℕ → CallContext Req Seq → CallContext Req Seq × Message
  unfolding next_msg_id
  new_message n body c =
      let (ids, id) = next_msg_id n c.ids in
      (
        record c { ids = ids },
        record { seq_no = id; method = c.method; payload = body; status = none },
      )

  -- One round of the loop of `sendShared`, with the message shared so far.
  unfoldable pub send_to :
      Node → ℕ → Option Message → CallContext Req Seq → CallContext Req Seq × Option Message
  unfolding enqueue new_message
  send_to n body shared c =
      let (c', msg) = new_message n body c in
      if n.is_shared then (enqueue n msg c', shared) else elim shared [
        | none ↦ (enqueue n msg c', some msg)
        | some old ↦ (enqueue n old c, some old)
      ]

  -- The loop: k rounds, from round i. The index is below the length of the configuration.
  unfoldable pub shared_loop :
      ℕ → ℕ → ℕ → ℕ → Option Message → CallContext Req Seq → CallContext Req Seq
  unfolding send_to
  shared_loop zero i start body shared c = c
  shared_loop (suc k) i start body shared c =
      elim (get_elem? c.config ((start + i) % length c.config)) [
        | none ↦ c
        | some n ↦
            let (c', shared') = send_to n body shared c in
            shared_loop k (suc i) start body shared' c'
      ]

  module _ (pb : Protobuf Req) where
    -- `sendShared`, with the random start.
    unfoldable pub send_shared : ℕ → CallContext Req Seq → CallContext Req Seq
    unfolding report_all shared_loop
    send_shared start c = elim (pb.marshal c.request) [
      | fails e ↦ report_all c.config e c
      | payload body ↦ shared_loop (length c.config) 0 start body none c
    ]

    -- `transformAndMarshal`
    unfoldable pub transform_and_marshal :
        Node → CallContext Req Seq → CallContext Req Seq × Option Message
    unfolding transformed report_node_error new_message
    transform_and_marshal n c =
        let req = transformed c.req_transforms n c.request in
        let (c', msg) = new_message n 0 c in
        if pb.is_valid req
        then elim (pb.marshal req) [
          | fails e ↦ (report_node_error n.id e c', none)
          | payload body ↦ (c', some (record msg { payload = body }))
        ]
        else (report_node_error n.id skip_node c, none)

    -- The loop of `sendWithPerNodeTransformation`.
    unfoldable pub per_node_loop : List Node → CallContext Req Seq → CallContext Req Seq
    unfolding transform_and_marshal enqueue
    per_node_loop [] c = c
    per_node_loop (n ∷ ns) c =
        let (c', msg) = transform_and_marshal n c in
        per_node_loop ns (elim msg [ none ↦ c' | some m ↦ enqueue n m c' ])

    unfoldable pub send : ℕ → CallContext Req Seq → CallContext Req Seq
    unfolding send_shared per_node_loop
    send start c = elim c.req_transforms [
      | [] ↦ send_shared start c
      | _ ∷ _ ↦ per_node_loop c.config c
    ]

    -- `sendOnce.Do(c.send)`
    unfoldable pub send_once : ℕ → CallContext Req Seq → CallContext Req Seq
    unfolding send
    send_once start c = if c.sent then c else send start (record c { sent = true })

    -- `sendNow`
    unfoldable pub send_now : ℕ → CallContext Req Seq → CallContext Req Seq
    unfolding send_once
    send_now start c = send_once start (record c { dispatched = true })

    -- `Call.Async`
    unfoldable pub async : ℕ → CallContext Req Seq → Go (CallContext Req Seq)
    unfolding send_once
    async start c =
        if c.dispatched then panics else returns (send_once start (record c { dispatched = true }))

    -- `OnewayCall.dispatch`; ch is the response channel that it makes.
    unfoldable pub dispatch : ℕ → ℕ → CallContext Req Seq → Go (CallContext Req Seq)
    unfolding send_once
    dispatch start ch c = if c.dispatched then panics else elim c.err [
      | some _ ↦ returns (record c { dispatched = true })
      | none ↦ returns (send_once start (record c { dispatched = true; response_chan = some ch }))
    ]

  -- The loop of `intercept`.
  unfoldable pub intercept_all :
      List (Option (Interceptor Req Seq)) → CallContext Req Seq → CallContext Req Seq
  intercept_all [] c = c
  intercept_all (none ∷ ics) c = intercept_all ics c
  intercept_all (some ic ∷ ics) c =
      let (c', seq) = ic c c.response_seq in intercept_all ics (record c' { response_seq = seq })

  unfoldable pub intercept :
      List (Option (Interceptor Req Seq)) → CallContext Req Seq → Go (CallContext Req Seq)
  unfolding intercept_all
  intercept ics c = if c.dispatched then panics else returns (intercept_all ics c)

  -- `MapRequest`
  unfoldable pub map_request : Option (Req → Node → Req) → Interceptor Req Seq
  map_request fn c next = elim fn [
    | none ↦ (c, next)
    | some f ↦ (record c { req_transforms = c.req_transforms ++ f ∷ [] }, next)
  ]
