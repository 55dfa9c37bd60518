-- ===== src/Stream/Request.antt =====
-- internal/stream/request.go and message.go: requests, responses and message IDs. A context is named
-- by a number; the state of the contexts at a time is the function that gives each its error.
pub mod Ids
use gorums.Prelude.{
  ℕ, ◌+◌, ◌^◌, ◌/◌, ◌%◌, Bool, true, not, ◌&&◌, Option, none, some, List, [], ◌∷◌, if◌then◌else◌,
  is_some, nat_beq,
}
use gorums.Errors.{Error}

-- What `Ctx.Err()` returns for each context at one time.
abbrev pub Contexts : Type 0
Contexts = ℕ → Option Error

-- The fields of a Message that the runtime reads; `status` is the error of its status, if any.
pub record Message : Type 0 where
  pub seq_no : ℕ
  pub method : ℕ
  pub payload : ℕ
  pub status : Option Error

pub record Request : Type 0 where
  pub ctx : ℕ
  pub msg : Message
  pub streaming : Bool
  pub oneway : Bool
  pub response_chan : Option ℕ

-- NodeResponse[*Message]
pub record Response : Type 0 where
  pub node_id : ℕ
  pub value : Option Message
  pub err : Option Error

unfoldable pub want_server_response : Request → Bool
want_server_response r = is_some r.response_chan && not r.oneway

unfoldable pub want_send_confirmation : Request → Bool
want_send_confirmation r = r.oneway && is_some r.response_chan

-- What a request's caller is sent: `deliver` of a response to the request.
pub record Delivery : Type 0 where
  pub to : Request
  pub response : Response

-- `sendErrorResponse`: the delivery, if the request has a response channel.
unfoldable pub send_error_response : Request → ℕ → Error → List Delivery
send_error_response r node_id e = elim r.response_chan [
  | none ↦ []
  | some _ ↦
      (record { to = r; response = record { node_id = node_id; value = none; err = some e } }) ∷ []
]

-- The select statements of `deliver`: whether the channel has room at once and, where it has not,
-- whether room comes before the context ends.
unfoldable pub deliver : Bool → Bool → Bool
deliver room room_before_end = if room then true else room_before_end

abbrev pub server_bit : ℕ
server_bit = 2 ^ 63

-- `seqNo | serverSequenceNumberBitMask` on a uint64, and the test of that bit.
unfoldable pub is_server_sequence_number : ℕ → Bool
is_server_sequence_number seq_no = nat_beq (seq_no / server_bit % 2) 1

unfoldable pub server_sequence_number : ℕ → ℕ
unfolding is_server_sequence_number
server_sequence_number seq_no =
    if is_server_sequence_number seq_no then seq_no else seq_no + server_bit
