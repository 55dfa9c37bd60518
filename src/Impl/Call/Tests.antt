-- ===== src/Impl/Call/Tests.antt =====
-- The theorems on the dispatch of calls, at concrete calls.
use gorums.Prelude.{
  ℕ, ◌+◌, ◌≡◌, refl, Bool, true, false, Option, none, some, List, [], ◌∷◌, nat_beq, arith, ◌==◌,
}
use gorums.Prelude.Go.{returns}
use gorums.Errors.{Error, ErrorsIs, Error-eq, skip_node, stream_down, context_ended}
use gorums.Stream.Request.{Response}
use gorums.Impl.Call.{Node, MsgIds, Protobuf, payload, CallContext, dispatch}
use gorums.Impl.Call.Sends.{ids, tally, outcomes}
use gorums.Impl.Call.Once.{IsSpent, dispatch_once}
use gorums.Impl.Call.Collects.{
  Wait, done, all_in, buffered, wait_for, verdict, failures, collect_lem,
}

-- An error is the target itself.
abbrev is_target : Option Error → Error → Bool
is_target none t = false
is_target (some e) t = e == t

is_target_self : (t : Error) → is_target (some t) t ≡ true
is_target_self t = (Error-eq.same_iff t t).1 refl

abbrev plain_is : ErrorsIs
plain_is = record { is = is_target; is_nil = λ t. refl; is_self = is_target_self }

abbrev numbers : Protobuf ℕ
numbers = record { marshal = λ n. payload n; is_valid = λ n. true }

-- Three nodes, of which one is reached on its own stream to this node.
abbrev first_node : Node
first_node = record { id = 1; is_shared = false; server_ids = false }

abbrev rest_nodes : List Node
rest_nodes =
    (record { id = 2; is_shared = true; server_ids = true })
    ∷ (record { id = 3; is_shared = false; server_ids = false })
    ∷ []

abbrev three : List Node
three = first_node ∷ rest_nodes

abbrev counters : MsgIds
counters = record { client = 4; server = 0 }

abbrev multicast : CallContext ℕ (Unit {0})
multicast = record {
  ctx = 0;
  config = three;
  request = 7;
  method = 1;
  response_chan = none;
  req_transforms = [];
  response_seq = tt;
  streaming = false;
  oneway = true;
  err = none;
  sent = false;
  dispatched = false;
  ids = record { client = 4; server = 0 };
  enqueued = [];
  reported = [];
}

abbrev quorum_call : CallContext ℕ (Unit {0})
quorum_call = record multicast { response_chan = some 9; oneway = false }

abbrev is_three : ℕ → Bool
is_three n = nat_beq n 3

abbrev sent_to : ℕ → Option Error → Response
sent_to id e = record { node_id = id; value = none; err = e }

dispatch_once_example :
    (d : CallContext ℕ (Unit {0})) × (dispatch numbers 2 9 multicast ≡ returns d)
    × (outcomes is_three d ≡ outcomes is_three multicast + tally is_three (ids three))
    × IsSpent numbers d
dispatch_once_example = dispatch_once numbers is_three 2 9 multicast refl refl refl (omega arith)

-- Node 1 confirms, node 2 was skipped, and node 3 failed; the context has ended meanwhile.
abbrev confirmations : List Response
confirmations = sent_to 1 none ∷ sent_to 2 (some skip_node) ∷ sent_to 3 (some stream_down) ∷ []

abbrev too_late : ℕ → List Response × Wait
too_late k = ([], done context_ended)

collect_lem_example :
    wait_for plain_is none false 3 too_late confirmations none
    ≡ verdict plain_is (failures plain_is confirmations) none
collect_lem_example = collect_lem plain_is too_late 3 confirmations confirmations none (
    buffered 2 _ _ _ _ none refl
      (buffered 1 _ _ _ _ none refl (buffered 0 _ _ _ _ none refl (all_in []))))
