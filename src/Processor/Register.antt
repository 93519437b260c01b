-- ===== src/Processor/Register.antt =====
-- processor/processor.go: `register`, the registration of one version of a handler. Its poll waits
-- for a socket, and every case of the first socket that is ready returns.
pub mod Confirmed
use sawtooth_sdk_go.Base.{
  ◌≡◌, refl, ℕ, Bytes, text, bytes_eq, List, [], ◌∷◌, ◌++◌, ◌==◌, Option, none, some, ◌⊎◌, inl, inr,
  false, not, if◌then◌else◌,
}
use sawtooth_sdk_go.Processor.Errors.{Error, other, error_text, Outcome, ok, err, panic, Call}
use sawtooth_sdk_go.Processor.Worker.{TransactionHandler}
use sawtooth_sdk_go.Messaging.Message.{
  Message, Received, message_of, tp_register_request, tp_register_response,
}

pub record TpRegisterRequest : Type 0 where
  pub family : Bytes
  pub version : Bytes
  pub namespaces : List Bytes
  pub max_occupancy : ℕ

pub data RegisterStatus : Type 0 where
  register_ok register_unset register_error : RegisterStatus

-- the protobuf library at the registration's messages, and the names of the enumerations' values
pub record RegisterCodec : Type 0 where
  pub marshal_register : TpRegisterRequest → Error ⊎ Bytes
  pub unmarshal_register : Bytes → Error ⊎ RegisterStatus
  pub type_name : ℕ → Bytes
  pub status_name : RegisterStatus → Bytes

pub data Ready : Type 0 where
  validator_ready shutdown_ready : Ready

-- what `register` calls: the validator's connection, and the poll of the two sockets
pub record Registrar (W : Type 0) : Type 0 where
  pub send_new_msg : ℕ → Bytes → Call W Bytes
  pub poll : Call W Ready
  pub recv_msg : W → Received × W

-- The messages that were put on the queue, in order, and the sockets. A send on the queue waits until
-- there is room, which the workers, who take from it at the same time, make: what they take is not
-- taken off here, and that no worker may be left to do so is not modelled.
abbrev pub Registering : Type 0 → Type 0
Registering W = Outcome (Unit {0}) × (List Message × W)

module _ {W : Type 0} (net : Registrar W) (codec : RegisterCodec) where
  status_outcome : Error ⊎ RegisterStatus → Outcome (Unit {0})
  status_outcome (inl e) = err e
  status_outcome (inr register_ok) = ok tt
  status_outcome (inr register_unset) =
      err (other (text "Got response: " ++ codec.status_name register_unset))
  status_outcome (inr register_error) =
      err (other (text "Got response: " ++ codec.status_name register_error))

  reply_outcome : Message → Outcome (Unit {0})
  unfolding status_outcome
  reply_outcome m =
      if not (m.message_type == tp_register_response)
      then err (other (text "Received unexpected message type: " ++ codec.type_name m.message_type))
      else status_outcome (codec.unmarshal_register m.content)

  -- Another message than the one asked for goes to the queue, and its type is looked at all the
  -- same.
  on_message : Bytes → Option Error → Message → List Message → W → Registering W
  unfolding reply_outcome
  on_message corr_id (some e) m queue w = (err e, (queue, w))
  on_message corr_id none m queue w = (
    reply_outcome m,
    ((if not (bytes_eq m.correlation_id corr_id) then queue ++ m ∷ [] else queue), w),
  )

  on_poll : Bytes → Outcome Ready × W → List Message → Registering W
  unfolding on_message
  on_poll corr_id (ok validator_ready, w) queue =
      let (r, w') = net.recv_msg w in on_message corr_id r.error (message_of r.msg) queue w'
  on_poll corr_id (ok shutdown_ready, w) queue =
      (err (other (text "Received shutdown while registering")), (queue, w))
  on_poll corr_id (err e, w) queue =
      (err (other (text "Polling failed: " ++ error_text e)), (queue, w))
  on_poll corr_id (panic, w) queue = (panic, (queue, w))

  on_sent : Outcome Bytes × W → List Message → Registering W
  unfolding on_poll
  on_sent (ok corr_id, w) queue = on_poll corr_id (net.poll w) queue
  on_sent (err e, w) queue = (err e, (queue, w))
  on_sent (panic, w) queue = (panic, (queue, w))

  on_marshalled : Error ⊎ Bytes → List Message → W → Registering W
  unfolding on_sent
  on_marshalled (inl e) queue w = (err e, (queue, w))
  on_marshalled (inr bytes) queue w = on_sent (net.send_new_msg tp_register_request bytes w) queue

  unfoldable pub register : TransactionHandler W → Bytes → ℕ → List Message → W → Registering W
  unfolding on_marshalled
  register h version max_occupancy = on_marshalled (
      codec.marshal_register (record {
        family = h.family_name;
        version = version;
        namespaces = h.namespaces;
        max_occupancy = max_occupancy;
      }))
