-- ===== src/Consensus/Engine.antt =====
-- consensus/engine.go: the messages that a running engine routes, and the updates that it passes to
-- its implementation. A send on the update channel waits until there is room: `updates` are the
-- updates that were sent, in order. The sockets are an interface on a state `W`.
pub mod Notifications
use sawtooth_sdk_go.Base.{
  ℕ, Bytes, text, bytes_eq, Dict, List, [], ◌∷◌, ◌++◌, ◌==◌, Option, none, some, ◌⊎◌, inl, inr,
  Bool, true, false, not, ◌&&◌, ◌||◌, if◌then◌else◌,
}
use sawtooth_sdk_go.Processor.Errors.{Error, Outcome, ok, err, panic, Call}
use sawtooth_sdk_go.Messaging.Message.{DataConnection, Message, ping_request, ping_response}
use sawtooth_sdk_go.Messaging.Connection.{MessageCodec}
use sawtooth_sdk_go.Consensus.MessageTypes
use sawtooth_sdk_go.Consensus.Types.{
  new_block_id_from_bytes, new_peer_id_from_slice, ConsensusBlock, new_block_from_proto,
  PeerMessage, PeerMessageHeader, ConsensusPeerMessage, new_peer_message_from_proto,
  ConsensusUpdate, peer_connected, peer_disconnected, peer_message_arrived, block_new, block_valid,
  block_invalid, block_commit,
}
use sawtooth_sdk_go.Consensus.Rpc.{has_correlation_id}

-- The protobuf library at the notifications. A peer info that is not set is nil.
pub record NotificationCodec : Type 0 where
  pub unmarshal_connected : Bytes → Error ⊎ Option Bytes
  pub unmarshal_disconnected : Bytes → Error ⊎ Bytes
  pub unmarshal_peer_message : Bytes → Error ⊎ (ConsensusPeerMessage × Bytes)
  pub unmarshal_header : Bytes → Error ⊎ PeerMessageHeader
  pub unmarshal_block_new : Bytes → Error ⊎ ConsensusBlock
  pub unmarshal_block_valid : Bytes → Error ⊎ Bytes
  pub unmarshal_block_invalid : Bytes → Error ⊎ Bytes
  pub unmarshal_block_commit : Bytes → Error ⊎ Bytes
  pub marshal_ack : Error ⊎ Bytes
  pub marshal_ping : Error ⊎ Bytes

pub record Engine (W : Type 0) : Type 0 where
  pub updates : List ConsensusUpdate
  pub channel_closed : Bool
  pub corr_ids : Dict (Unit {0})
  pub world : W

-- the cases of the switch in `receiveValidator`
unfoldable pub is_notification : ℕ → Bool
is_notification t =
    t == MessageTypes.consensus_notify_peer_connected
    || (t == MessageTypes.consensus_notify_peer_disconnected
        || (t == MessageTypes.consensus_notify_peer_message
            || (t == MessageTypes.consensus_notify_block_new
                || (t == MessageTypes.consensus_notify_block_valid
                    || (t == MessageTypes.consensus_notify_block_invalid
                        || t == MessageTypes.consensus_notify_block_commit)))))

unfoldable pub connected : Error ⊎ Option Bytes → Outcome ConsensusUpdate
connected (inl e) = err e
connected (inr none) = panic
connected (inr (some id)) = ok (peer_connected (new_peer_id_from_slice id))

unfoldable pub of_id : (Bytes → ConsensusUpdate) → Error ⊎ Bytes → Outcome ConsensusUpdate
of_id make (inl e) = err e
of_id make (inr id) = ok (make id)

unfoldable pub of_block : Error ⊎ ConsensusBlock → Outcome ConsensusUpdate
of_block (inl e) = err e
of_block (inr p) = ok (block_new (new_block_from_proto p))

of_header : Bytes → Outcome PeerMessage → Outcome ConsensusUpdate
of_header sender (ok m) = ok (peer_message_arrived m (new_peer_id_from_slice sender))
of_header sender (err e) = err e
of_header sender panic = panic

-- an update, or none behind an error, which is logged
unfoldable pub some_update : Outcome ConsensusUpdate → Outcome (Option ConsensusUpdate)
some_update (ok u) = ok (some u)
some_update (err e) = ok none
some_update panic = panic

module _ (codec : NotificationCodec) where
  of_peer_message : Error ⊎ (ConsensusPeerMessage × Bytes) → Outcome ConsensusUpdate
  unfolding of_header
  of_peer_message (inl e) = err e
  of_peer_message (inr (p, sender)) =
      of_header sender (new_peer_message_from_proto codec.unmarshal_header p)

  -- The update of a notification. An error is logged; a message of another type has no update.
  unfoldable pub update_of : Message → Outcome (Option ConsensusUpdate)
  unfolding of_peer_message
  update_of m =
      let t = m.message_type in
      let bytes = m.content in
      if t == MessageTypes.consensus_notify_peer_connected
      then some_update (connected (codec.unmarshal_connected bytes))
      else if t == MessageTypes.consensus_notify_peer_disconnected
      then some_update (
          of_id (λ id. peer_disconnected (new_peer_id_from_slice id))
            (codec.unmarshal_disconnected bytes))
      else if t == MessageTypes.consensus_notify_peer_message
      then some_update (of_peer_message (codec.unmarshal_peer_message bytes))
      else if t == MessageTypes.consensus_notify_block_new
      then some_update (of_block (codec.unmarshal_block_new bytes))
      else if t == MessageTypes.consensus_notify_block_valid
      then some_update (
          of_id (λ id. block_valid (new_block_id_from_bytes id))
            (codec.unmarshal_block_valid bytes))
      else if t == MessageTypes.consensus_notify_block_invalid
      then some_update (
          of_id (λ id. block_invalid (new_block_id_from_bytes id))
            (codec.unmarshal_block_invalid bytes))
      else if t == MessageTypes.consensus_notify_block_commit
      then some_update (
          of_id (λ id. block_commit (new_block_id_from_bytes id))
            (codec.unmarshal_block_commit bytes))
      else ok none

  sent_on : {W : Type 0} → Outcome (Option ConsensusUpdate) → Call (Engine W) (Unit {0})
  sent_on (ok none) e = (ok tt, e)
  sent_on (ok (some u)) e = (ok tt, record e { updates = e.updates ++ u ∷ [] })
  sent_on (err x) e = (ok tt, e)
  sent_on panic e = (panic, e)

  unfoldable pub handle_update : {W : Type 0} → Message → Call (Engine W) (Unit {0})
  unfolding sent_on
  handle_update m = sent_on (update_of m)

module _ {W : Type 0} (messages : MessageCodec) (codec : NotificationCodec)
    (validator service : DataConnection W) where
  -- an answer with the message's correlation id, unless it cannot be marshalled
  answer : ℕ → Error ⊎ Bytes → Message → Engine W → Engine W
  answer t (inl x) m e = e
  answer t (inr bytes) m e = record e {
    world = (validator.send_msg t bytes m.correlation_id e.world).1;
  }

  acked : Message → Outcome (Unit {0}) × Engine W → Outcome (Unit {0}) × Engine W
  unfolding answer
  acked m (ok u, e) = (ok tt, answer MessageTypes.consensus_notify_ack codec.marshal_ack m e)
  acked m (err x, e) = (err x, e)
  acked m (panic, e) = (panic, e)

  -- a reply to the service, if it waits for it
  to_service : Message → Bytes → Engine W → Engine W
  to_service m bytes e =
      if not (bytes_eq m.correlation_id []) && has_correlation_id m.correlation_id e.corr_ids
      then record e { world = (service.send_data [] bytes e.world).1 }
      else e

  engine_msg : Bytes → Message × Option Error → Call (Engine W) (Unit {0})
  unfolding acked to_service
  engine_msg bytes (m, some x) e = (ok tt, e)
  engine_msg bytes (m, none) e =
      if is_notification m.message_type
      then acked m (handle_update codec m e)
      else if m.message_type == ping_request
      then (ok tt, answer ping_response codec.marshal_ping m e)
      else (ok tt, to_service m bytes e)

  engine_data : Error ⊎ (Bytes × Bytes) → Call (Engine W) (Unit {0})
  unfolding engine_msg
  engine_data (inl x) e = (ok tt, e)
  engine_data (inr (sender, bytes)) e = engine_msg bytes (messages.load bytes) e

  -- a panic is not recovered
  unfoldable pub receive_validator : Call (Engine W) (Unit {0})
  unfolding engine_data
  receive_validator e =
      let (received, w) = validator.recv_data e.world in
      engine_data received (record e { world = w })

  service_msg : Bytes → Message × Option Error → Engine W → Engine W
  service_msg bytes (m, some x) e = e
  service_msg bytes (m, none) e = record e { world = (validator.send_data [] bytes e.world).1 }

  service_data : Error ⊎ (Bytes × Bytes) → Engine W → Engine W
  unfolding service_msg
  service_data (inl x) e = e
  service_data (inr (sender, bytes)) e = service_msg bytes (messages.load bytes) e

  unfoldable pub receive_service : Engine W → Engine W
  unfolding service_data
  receive_service e =
      let (received, w) = service.recv_data e.world in
      service_data received (record e { world = w })
