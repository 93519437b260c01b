-- ===== src/Tests/ProcessorTests.antt =====
-- Concrete runs of the messaging and the processor packages, and of intkey's arithmetic.
use sawtooth_sdk_go.Base.{
  ◌≡◌, ◌≢◌, refl, ◌+◌, ◌-◌, All, Bytes, text, bytes_eq, Dict, lookup, insert, erase, List, [], ◌∷◌,
  ◌++◌, none, some, ◌⊎◌, inl, inr, pos, arith, if◌then◌else◌, take, drop, leb,
}
use sawtooth_sdk_go.Processor.Errors.{Error, other, invalid, ok, err}
use sawtooth_sdk_go.Processor.Request.{TransactionHeader}
use sawtooth_sdk_go.Processor.Worker.{
  TransactionHandler, ProcessCodec, find_handler, has_version, process, or_break, run_handler,
  response_of, worker,
}
use sawtooth_sdk_go.Processor.Worker.Loop.{none_left, next, worker_ends_at_unknown_family}
use sawtooth_sdk_go.Processor.Worker.Handlers.{IsFor, find_handler-first}
use sawtooth_sdk_go.Processor.Worker.Applied.{Ran, worker-Ran}
use sawtooth_sdk_go.Processor.Router.{Router, receive_validator, receive_workers}
use sawtooth_sdk_go.Processor.Router.Routing.{done, from_worker, reply_reaches_its_worker}
use sawtooth_sdk_go.Processor.Register.{
  RegisterCodec, register_ok, Registrar, validator_ready, register,
}
use sawtooth_sdk_go.Processor.Start.{register_versions, register_handlers}
use sawtooth_sdk_go.Processor.Start.Registered.{
  all_versions, Registered, register_handlers-Registered,
}
use sawtooth_sdk_go.Messaging.Message.{
  DataConnection, Message, tp_state_get_request, tp_state_get_response,
}
use sawtooth_sdk_go.Processor.Context.{
  StateCodec, Status, status_ok, add_ok, authorization_error, get_state, exchange, state_reply,
  collect,
}
use sawtooth_sdk_go.Processor.Context.Replies.{Exchanged, get_state-ok}
use sawtooth_sdk_go.Messaging.Connection.{parts, ZmqConnection, data_of, recv_msg_with_id}
use sawtooth_sdk_go.Messaging.Connection.Replies.{
  recv_msg_with_id-reply, recv_msg_with_id-correlation_id,
}
use sawtooth_sdk_go.Tests.Wire.{toy, reply_to, toy_validator}
use sawtooth_sdk_go.Intkey.Value.{new_value, new_value_within_bounds}

-- a reply to 40 arrives before that to 41
abbrev two_replies : ZmqConnection
two_replies = record {
  incoming = [];
  events = parts ((8 ∷ 40 ∷ 1 ∷ []) ∷ []) ∷ parts ((8 ∷ 41 ∷ 1 ∷ []) ∷ []) ∷ [];
  sent = [];
}

abbrev one_stored : ZmqConnection
one_stored = record {
  incoming = (40 ∷ [], record { id = []; msg = reply_to 40 }) ∷ [];
  events = [];
  sent = [];
}

recv_msg_with_id-reply_example :
    recv_msg_with_id toy (41 ∷ []) two_replies
    ≡ (some (record { sender = []; msg = some (reply_to 41); error = none }), one_stored)
unfolding data_of bytes_eq insert lookup
recv_msg_with_id-reply_example =
    recv_msg_with_id-reply toy (41 ∷ []) (parts ((8 ∷ 40 ∷ 1 ∷ []) ∷ []) ∷ [])
      (parts ((8 ∷ 41 ∷ 1 ∷ []) ∷ [])) [] two_replies [] (reply_to 41) none refl refl
      (([], reply_to 40, none, (8 ∷ 40 ∷ 1 ∷ [], refl, refl), refl), tt)
      (8 ∷ 41 ∷ 1 ∷ [], refl, refl) refl

recv_msg_with_id-correlation_id_test : (reply_to 41).correlation_id ≡ 41 ∷ []
unfolding recv_msg_with_id data_of bytes_eq insert lookup
recv_msg_with_id-correlation_id_test =
    recv_msg_with_id-correlation_id toy (41 ∷ []) two_replies one_stored
      (record { sender = []; msg = some (reply_to 41); error = none }) (reply_to 41)
      (λ k s found. absurd (cc)) refl refl

-- a validator that holds one entry, at the address that is asked for
abbrev toy_states : StateCodec
toy_states = record {
  marshal_get = λ c addresses. inr [];
  marshal_set = λ c pairs. inr [];
  marshal_delete = λ c addresses. inr [];
  marshal_receipt = λ c bytes. inr [];
  marshal_event = λ c t attributes bytes. inr [];
  unmarshal_get = λ bytes. inr (status_ok, (3 ∷ [], bytes) ∷ (4 ∷ [], []) ∷ []);
  unmarshal_set = λ bytes. inr (status_ok, []);
  unmarshal_delete = λ bytes. inr (status_ok, []);
  unmarshal_receipt = λ bytes. inr add_ok;
  unmarshal_event = λ bytes. inr add_ok;
  type_name = λ t. [];
}

get_state-ok_test :
    (bytes : Bytes) × (content : Bytes) × (status : Status) × (entries : Dict Bytes)
    × (toy_states.marshal_get [] ((3 ∷ []) ∷ []) ≡ inr bytes)
    × Exchanged toy_validator toy_states tp_state_get_request tp_state_get_response bytes content tt
        tt
    × (toy_states.unmarshal_get content ≡ inr (status, entries))
    × (status ≢ authorization_error)
    × ((3 ∷ [], 1 ∷ []) ∷ [] ≡ collect entries [])
unfolding get_state exchange collect bytes_eq insert state_reply
get_state-ok_test =
    get_state-ok toy_validator toy_states [] ((3 ∷ []) ∷ []) tt tt ((3 ∷ [], 1 ∷ []) ∷ []) refl

abbrev handler_for : Bytes → Bytes → TransactionHandler (Unit {0})
handler_for family version = record {
  family_name = family;
  family_versions = (9 ∷ []) ∷ version ∷ [];
  namespaces = [];
  apply = λ request ctx w. (ok tt, w);
}

abbrev header_of : Bytes → Bytes → TransactionHeader
header_of family version = record {
  family_name = family;
  family_version = version;
  signer_public_key = [];
}

abbrev second_handlers : List (TransactionHandler (Unit {0}))
second_handlers = handler_for (1 ∷ []) (2 ∷ []) ∷ handler_for (1 ∷ []) (3 ∷ []) ∷ []

find_handler-first_test :
    (before : List (TransactionHandler (Unit {0}))) × (after : List (TransactionHandler (Unit {0})))
    × (second_handlers ≡ before ++ handler_for (1 ∷ []) (3 ∷ []) ∷ after)
    × IsFor (header_of (1 ∷ []) (3 ∷ [])) (handler_for (1 ∷ []) (3 ∷ []))
    × All (λ x. ¬ IsFor (header_of (1 ∷ []) (3 ∷ [])) x) before
unfolding find_handler has_version bytes_eq
find_handler-first_test =
    find_handler-first (header_of (1 ∷ []) (3 ∷ [])) second_handlers (handler_for (1 ∷ []) (3 ∷ []))
      refl

abbrev toy_registers : RegisterCodec
toy_registers = record {
  marshal_register = λ request. inr [];
  unmarshal_register = λ bytes. inr register_ok;
  type_name = λ t. [];
  status_name = λ x. [];
}

-- a validator that confirms every registration
abbrev confirming : Registrar (Unit {0})
confirming = record {
  send_new_msg = λ t bytes w. (ok (7 ∷ []), w);
  poll = λ w. (ok validator_ready, w);
  recv_msg = λ w. (
    record {
      sender = [];
      msg = some (record { message_type = 2; correlation_id = 7 ∷ []; content = [] });
      error = none;
    },
    w,
  );
}

register_handlers-Registered_example :
    Registered confirming toy_registers 100 (all_versions second_handlers) [] tt [] tt
unfolding register_handlers register_versions register bytes_eq
register_handlers-Registered_example =
    register_handlers-Registered confirming toy_registers 100 second_handlers [] [] tt tt refl

-- The two sockets of a router: what they will deliver, and what the workers were sent.
abbrev Wire : Type 0
Wire = List (Bytes × Bytes) × List (Bytes × Bytes) × List (Bytes × Bytes)

abbrev next_of : List (Bytes × Bytes) → Error ⊎ (Bytes × Bytes)
next_of [] = inl (other [])
next_of (x ∷ xs) = inr x

abbrev validator_wire : DataConnection Wire
validator_wire = record {
  recv_data = λ w. (next_of w.0, (drop 1 w.0, w.1, w.2));
  send_data = λ id bytes w. (none, w);
  send_msg = λ t bytes corr_id w. (none, w);
}

abbrev workers_wire : DataConnection Wire
workers_wire = record {
  recv_data = λ w. (next_of w.1, (w.0, drop 1 w.1, w.2));
  send_data = λ id bytes w. (none, (w.0, w.1, (id, bytes) ∷ w.2));
  send_msg = λ t bytes corr_id w. (none, w);
}

abbrev toy_processes : ProcessCodec
toy_processes = record {
  unmarshal_request = λ bytes. inl (other []);
  marshal_response = λ response. inr [];
}

-- worker 1 calls with correlation id 40 and worker 2 with 41; the reply to 40 comes
abbrev calls : Wire
calls = (([], 8 ∷ 40 ∷ []) ∷ [], (1 ∷ [], 7 ∷ 40 ∷ []) ∷ (2 ∷ [], 7 ∷ 41 ∷ []) ∷ [], [])

abbrev before_calls : Router Wire
before_calls = record { ids = []; queue = []; world = calls }

abbrev both_called : Router Wire
both_called = record {
  ids = (40 ∷ [], 1 ∷ []) ∷ (41 ∷ [], 2 ∷ []) ∷ [];
  queue = [];
  world = (([], 8 ∷ 40 ∷ []) ∷ [], [], []);
}

reply_reaches_its_worker_example :
    receive_validator toy toy_processes (inr []) 100 validator_wire workers_wire both_called
    ≡ record both_called {
      ids = erase (40 ∷ []) both_called.ids;
      world = ([], [], (1 ∷ [], 8 ∷ 40 ∷ []) ∷ []);
    }
unfolding receive_workers bytes_eq insert
reply_reaches_its_worker_example =
    reply_reaches_its_worker toy toy_processes (inr []) 100 validator_wire workers_wire before_calls
      both_called (1 ∷ []) (7 ∷ 40 ∷ []) [] (8 ∷ 40 ∷ [])
      (record { message_type = 7; correlation_id = 40 ∷ []; content = [] })
      (record { message_type = 8; correlation_id = 40 ∷ []; content = [] })
      (([], 8 ∷ 40 ∷ []) ∷ [], (2 ∷ [], 7 ∷ 41 ∷ []) ∷ [], []) ([], [], [])
      ([], [], (1 ∷ [], 8 ∷ 40 ∷ []) ∷ []) refl refl refl refl (from_worker refl done) refl refl
      refl refl refl refl

-- a request is its family and version, of a byte each
abbrev by_bytes : ProcessCodec
by_bytes = record {
  unmarshal_request = λ bytes. inr (record {
    header = header_of (take 1 bytes) (drop 1 bytes);
    payload = none;
    signature = [];
    context_id = [];
  });
  marshal_response = λ response. inr [];
}

abbrev request_for : Bytes → Message
request_for bytes = record { message_type = 5; correlation_id = 40 ∷ []; content = bytes }

-- the second request has an unknown family
worker_ends_at_unknown_family_example :
    worker toy_validator toy_states by_bytes second_handlers
      (request_for (1 ∷ 3 ∷ []) ∷ request_for (5 ∷ 3 ∷ []) ∷ request_for (1 ∷ 3 ∷ []) ∷ [])
      tt
    ≡ (ok tt, tt)
unfolding process or_break run_handler response_of find_handler has_version bytes_eq
worker_ends_at_unknown_family_example =
    worker_ends_at_unknown_family toy_validator toy_states by_bytes second_handlers
      (request_for (1 ∷ 3 ∷ []) ∷ []) (request_for (5 ∷ 3 ∷ [])) (request_for (1 ∷ 3 ∷ []) ∷ []) tt
      tt
      (record {
        header = header_of (5 ∷ []) (3 ∷ []);
        payload = none;
        signature = [];
        context_id = [];
      })
      (other (text "Unknown handler: (" ++ ((5 ∷ []) ++ (text ", " ++ ((3 ∷ []) ++ text ")")))))
      (next refl none_left) refl refl

-- the first request is served, the second is of an unknown family
worker-Ran_example :
    Ran toy_validator toy_states by_bytes second_handlers
      (request_for (1 ∷ 3 ∷ []) ∷ request_for (5 ∷ 3 ∷ []) ∷ request_for (1 ∷ 3 ∷ []) ∷ [])
      tt
      tt
unfolding worker process or_break run_handler response_of find_handler has_version bytes_eq
worker-Ran_example =
    worker-Ran toy_validator toy_states by_bytes second_handlers
      (request_for (1 ∷ 3 ∷ []) ∷ request_for (5 ∷ 3 ∷ []) ∷ request_for (1 ∷ 3 ∷ []) ∷ []) tt tt
      refl

new_value_within_bounds_test :
    (new_value (text "inc") (pos 4294967295) (some (pos 1)) ≡ (
      if leb (1 + 4294967295) 4294967295
      then ok (pos (1 + 4294967295))
      else err (invalid (text "New Value must be <= %!(EXTRA int=4294967295)"))))
    × (new_value (text "dec") (pos 4294967295) (some (pos 1)) ≡ (
        if leb 4294967295 1
        then ok (pos (1 - 4294967295))
        else err (invalid (text "New Value must be >= %!(EXTRA int=0)"))))
new_value_within_bounds_test = new_value_within_bounds 4294967295 1 (omega arith) (omega arith)
