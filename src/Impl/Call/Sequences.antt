-- ===== src/Impl/Call/Sequences.antt =====
-- internal/impl/call_context.go: the response sequences of a quorum call. A sequence is run on how each of
-- its waits ends; a consumer that stops takes a prefix. Decoding is left out.
use gorums.Prelude.{
  ℕ, zero, suc, Bool, true, false, none, some, List, [], ◌∷◌, if◌then◌else◌, length, Option,
}
use gorums.Errors.{Error, empty_config}
use gorums.Stream.Request.{Response}
use gorums.Impl.Call.{Node, MsgIds, Protobuf, CallContext, send_now}
use gorums.Impl.Call.Sends.{ids}
use gorums.Impl.Call.Collects.{Wait, arrives, done}

-- The three sequences.
pub data Sequence : Type 0 where
  errors streams defaults : Sequence

-- `newQuorumCallContext`, on a response channel and the counters of message IDs.
unfoldable pub new_quorum_call_context :
    {Req : Type 0} → ℕ → List Node → Req → ℕ → Bool → ℕ → MsgIds → CallContext Req Sequence
new_quorum_call_context ctx config request method streaming chan ids = record {
  ctx = ctx;
  config = config;
  request = request;
  method = method;
  response_chan = some chan;
  req_transforms = [];
  response_seq = elim config [ [] ↦ errors | _ ∷ _ ↦ if streaming then streams else defaults ];
  streaming = streaming;
  oneway = false;
  err = elim config [ [] ↦ some empty_config | _ ∷ _ ↦ none ];
  sent = false;
  dispatched = false;
  ids = ids;
  enqueued = [];
  reported = [];
}

-- The loop of `streamingResponseSeq`, over its waits.
unfoldable pub stream_loop : List Wait → List Response
stream_loop [] = []
stream_loop (arrives r ∷ ws) = r ∷ stream_loop ws
stream_loop (done e ∷ ws) = []

-- The loop of `defaultResponseSeq`, of k rounds at most.
unfoldable pub default_loop : ℕ → List Wait → List Response
default_loop zero ws = []
default_loop (suc k) [] = []
default_loop (suc k) (arrives r ∷ ws) = r ∷ default_loop k ws
default_loop (suc k) (done e ∷ ws) = []

-- The waits in which these responses arrive, and then the context ends, or nothing more comes.
abbrev pub waits_of : List Response → Option (Error × List Wait) → List Wait
waits_of [] none = []
waits_of [] (some (e, later)) = done e ∷ later
waits_of (r ∷ rs) ending = arrives r ∷ waits_of rs ending

module _ {Req : Type 0} (pb : Protobuf Req) where
  -- Ranging over a sequence: the call after it, and the responses.
  unfoldable pub range_over :
      Sequence → ℕ → List Wait → CallContext Req Sequence → CallContext Req Sequence × List Response
  unfolding send_now stream_loop default_loop
  range_over errors start ws c =
      (record c { dispatched = true }, (record { node_id = 0; value = none; err = c.err }) ∷ [])
  range_over streams start ws c = (send_now pb start c, stream_loop ws)
  range_over defaults start ws c = (send_now pb start c, default_loop (length c.config) ws)
