-- ===== src/Processor/Router.antt =====
-- The message routing of processor/processor.go, between the validator and the workers, and the
-- registration of a handler. The sockets are an interface on a state `W`: what is received next
-- and what becomes of a sent message. `recover` has nothing to do here, since no call panics.
pub mod Routing
use sawtooth_sdk_go.Base.{
  ℕ, Bytes, text, bytes_eq, Dict, lookup, insert, erase, length, ltb, List, [], ◌∷◌, ◌++◌, ◌==◌,
  Option, none, some, ◌⊎◌, inl, inr, Bool, true, false, not, if◌then◌else◌,
}
use sawtooth_sdk_go.Processor.Errors.{
  Error, other, error_text, Outcome, ok, err, panic, Call, lift, ◌>>=◌,
}
use sawtooth_sdk_go.Processor.Worker.{
  TransactionHandler, ProcessStatus, process_internal_error, TpProcessResponse, ProcessCodec,
  or_break,
}
use sawtooth_sdk_go.Messaging.Message.{
  DataConnection, Message, Received, message_of, tp_process_request, tp_process_response,
  tp_register_request, tp_register_response, ping_request, ping_response,
}
use sawtooth_sdk_go.Messaging.Connection.{MessageCodec}

-- `ids` tells which worker waits for the reply to a correlation id.
pub record Router (W : Type 0) : Type 0 where
  pub ids : Dict Bytes
  pub queue : List Message
  pub world : W

-- the result of a `proto.Marshal` whose error is logged: nil on an error
abbrev pub bytes_or_nil : Error ⊎ Bytes → Bytes
bytes_or_nil (inl e) = []
bytes_or_nil (inr bytes) = bytes

abbrev pub denied : TpProcessResponse
denied = record {
  status = process_internal_error;
  message = text "Work queue is full, denying request";
  extended_data = [];
}

module _ {W : Type 0} (codec : MessageCodec) (processes : ProcessCodec) (ping : Error ⊎ Bytes)
    (max_queue : ℕ) (validator workers : DataConnection W) where
  queue_request : Message → Router W → Router W
  queue_request m r =
      if ltb (length r.queue) max_queue then record r { queue = r.queue ++ m ∷ [] } else record r {
        world =
            (validator.send_msg tp_process_response
              (bytes_or_nil (processes.marshal_response denied)) m.correlation_id r.world).1;
      }

  answer_ping : Message → Router W → Router W
  answer_ping m r = record r {
    world = (validator.send_msg ping_response (bytes_or_nil ping) m.correlation_id r.world).1;
  }

  -- the correlation id is forgotten when its reply has been handed over
  handed_over : Message → Option Error × W → Router W → Router W
  handed_over m (some e, w) r = record r { world = w }
  handed_over m (none, w) r = record r { ids = erase m.correlation_id r.ids; world = w }

  to_worker : Option Bytes → Message → Bytes → Router W → Router W
  unfolding handed_over
  to_worker none m bytes r = r
  to_worker (some worker_id) m bytes r =
      if bytes_eq m.correlation_id []
      then r
      else handed_over m (workers.send_data worker_id bytes r.world) r

  validator_msg : Bytes → Message × Option Error → Router W → Router W
  unfolding queue_request answer_ping to_worker
  validator_msg bytes (m, some e) r = r
  validator_msg bytes (m, none) r =
      if m.message_type == tp_process_request
      then queue_request m r
      else if m.message_type == ping_request
      then answer_ping m r
      else to_worker (lookup m.correlation_id r.ids) m bytes r

  validator_data : Error ⊎ (Bytes × Bytes) → Router W → Router W
  unfolding validator_msg
  validator_data (inl e) r = r
  validator_data (inr (sender, bytes)) r = validator_msg bytes (codec.load bytes) r

  unfoldable pub receive_validator : Router W → Router W
  unfolding validator_data
  receive_validator r =
      let (received, w) = validator.recv_data r.world in
      validator_data received (record r { world = w })

  -- every message but a response to a request is a call of the context, whose reply will be routed
  remember : Bytes → Message → Router W → Router W
  remember worker_id m r =
      if m.message_type == tp_process_response
      then r
      else record r { ids = insert m.correlation_id worker_id r.ids }

  worker_msg : Bytes → Bytes → Message × Option Error → Router W → Router W
  unfolding remember
  worker_msg worker_id bytes (m, some e) r = r
  worker_msg worker_id bytes (m, none) r = record (remember worker_id m r) {
    world = (validator.send_data [] bytes r.world).1;
  }

  worker_data : Error ⊎ (Bytes × Bytes) → Router W → Router W
  unfolding worker_msg
  worker_data (inl e) r = r
  worker_data (inr (worker_id, bytes)) r = worker_msg worker_id bytes (codec.load bytes) r

  unfoldable pub receive_workers : Router W → Router W
  unfolding worker_data
  receive_workers r =
      let (received, w) = workers.recv_data r.world in worker_data received (record r { world = w })
