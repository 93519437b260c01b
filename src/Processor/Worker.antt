-- ===== src/Processor/Worker.antt =====
-- processor/worker.go: a worker takes requests from the queue, finds the handler of each, and sends
-- back how its `Apply` ended. Identity, logging and the dial of the connection are left out.
pub mod Handlers
pub mod Loop
pub mod Answers
pub mod Applied
pub mod Preserved
use sawtooth_sdk_go.Base.{
  ℕ, Bytes, text, bytes_eq, List, [], ◌∷◌, ◌++◌, ◌⊎◌, inl, inr, Bool, true, false, not,
  if◌then◌else◌,
}
use sawtooth_sdk_go.Processor.Errors.{
  Error, other, invalid_transaction, internal_error, authorization_exception, consensus_error,
  kind_text, Outcome, ok, err, panic, Call, continue_with, lift, ◌>>=◌,
}
use sawtooth_sdk_go.Processor.Request.{TransactionHeader, TpProcessRequest}
use sawtooth_sdk_go.Processor.Store
use sawtooth_sdk_go.Processor.Context.{StateCodec, as_store}
use sawtooth_sdk_go.Messaging.Message.{Connection, Message, tp_process_response}

-- the interface of processor/handler.go
pub record TransactionHandler (W : Type 0) : Type 0 where
  pub family_name : Bytes
  pub family_versions : List Bytes
  pub namespaces : List Bytes
  pub apply : TpProcessRequest → Store.Context W → Call W (Unit {0})

pub data ProcessStatus : Type 0 where
  process_ok process_invalid process_internal_error : ProcessStatus

pub record TpProcessResponse : Type 0 where
  pub status : ProcessStatus
  pub message : Bytes
  pub extended_data : Bytes

-- the protobuf library at the two messages of processor_pb2 that a worker reads and writes
pub record ProcessCodec : Type 0 where
  pub unmarshal_request : Bytes → Error ⊎ TpProcessRequest
  pub marshal_response : TpProcessResponse → Error ⊎ Bytes

-- the loop over a handler's versions
unfoldable pub has_version : Bytes → List Bytes → Bool
has_version v [] = false
has_version v (x ∷ xs) = if bytes_eq x v then true else has_version v xs

unfoldable pub find_handler :
    {W : Type 0} → List (TransactionHandler W) → TransactionHeader → Error ⊎ TransactionHandler W
find_handler [] header = inl (
    other (
      text "Unknown handler: ("
      ++ (header.family_name ++ (text ", " ++ (header.family_version ++ text ")")))))
find_handler (h ∷ hs) header =
    let rest = find_handler hs header in
    if not (bytes_eq header.family_name h.family_name)
    then rest
    else if not (has_version header.family_version h.family_versions)
    then rest
    else inr h

-- the response of an error of `Apply`
unfoldable pub failure_response : Error → TpProcessResponse
failure_response (invalid_transaction m d) = record {
  status = process_invalid;
  message = m;
  extended_data = d;
}
failure_response (internal_error m d) = record {
  status = process_internal_error;
  message = m;
  extended_data = d;
}
failure_response (authorization_exception m d) = record {
  status = process_invalid;
  message = m;
  extended_data = d;
}
failure_response (consensus_error k m) = record {
  status = process_internal_error;
  message = kind_text k m;
  extended_data = [];
}
failure_response (other m) = record {
  status = process_internal_error;
  message = m;
  extended_data = [];
}

-- The response to how `Apply` ended; a panic is not recovered, and ends the process.
unfoldable pub response_of : Outcome (Unit {0}) → Outcome TpProcessResponse
response_of (ok tt) = ok (record { status = process_ok; message = []; extended_data = [] })
response_of (err e) = ok (failure_response e)
response_of panic = panic

-- a result with an error as the outcome of a call
unfoldable pub or_break : {A : Type 0} → Error ⊎ A → Outcome A
or_break (inl e) = err e
or_break (inr a) = ok a

module _ {W : Type 0} (conn : Connection W) (states : StateCodec) (codec : ProcessCodec)
    (handlers : List (TransactionHandler W)) where
  -- runs the handler, and goes on with its response whichever way it ended
  unfoldable pub run_handler : TransactionHandler W → TpProcessRequest → Call W TpProcessResponse
  run_handler h request w =
      let (r, w') = h.apply request (as_store conn states request.context_id) w in
      (response_of r, w')

  -- one pass of the loop; an error is a `break`
  unfoldable pub process : Message → Call W (Unit {0})
  process m = lift (or_break (codec.unmarshal_request m.content)) >>= λ request.
      lift (or_break (find_handler handlers request.header)) >>= λ handler.
      run_handler handler request >>= λ response.
      lift (or_break (codec.marshal_response response)) >>= λ bytes.
      conn.send_msg tp_process_response bytes m.correlation_id

  -- the loop over the messages that the queue yields until it is closed
  unfoldable pub worker : List Message → Call W (Unit {0})
  worker [] w = (ok tt, w)
  worker (m ∷ ms) w =
      let (r, t) = process m w in
      elim r [ ok u ↦ worker ms t | err e ↦ (ok tt, t) | panic ↦ (panic, t) ]
