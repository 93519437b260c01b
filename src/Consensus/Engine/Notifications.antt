-- ===== src/Consensus/Engine/Notifications.antt =====
-- What an engine makes of the validator's messages: notifications become updates, and replies reach
-- the service while it waits for them.
use sawtooth_sdk_go.Base.{◌≡◌, Bytes, List, [], ◌∷◌, Option, none, some, inl, inr}
use sawtooth_sdk_go.Processor.Errors.{Error, Outcome, ok, err, panic}
use sawtooth_sdk_go.Messaging.Message.{DataConnection, Message}
use sawtooth_sdk_go.Messaging.Connection.{MessageCodec}
use sawtooth_sdk_go.Consensus.MessageTypes
use sawtooth_sdk_go.Consensus.Types.{
  ConsensusUpdate, ConsensusBlock, ConsensusPeerMessage, PeerMessage, new_peer_id_from_slice,
  new_block_id_from_bytes, new_block_from_proto, new_peer_message_from_proto, peer_connected,
  peer_disconnected, peer_message_arrived, block_new, block_valid, block_invalid, block_commit,
}
use sawtooth_sdk_go.Consensus.Engine.{NotificationCodec, Engine, receive_validator}

-- the updates of some notifications, without those that could not be unmarshalled
abbrev pub updates_of : List (Option ConsensusUpdate) → List ConsensusUpdate
updates_of [] = []
updates_of (none ∷ us) = updates_of us
updates_of (some u ∷ us) = u ∷ updates_of us

-- What a notification says: the update of its type, from what the protobuf library reads of its
-- content, or no update, if the library cannot read it. A peer's message has a header of its own.
pub data Carries (codec : NotificationCodec) (m : Message) : Option ConsensusUpdate → Type 0 where
  connects :
      {id : Bytes}
      → m.message_type ≡ MessageTypes.consensus_notify_peer_connected
      → codec.unmarshal_connected m.content ≡ inr (some id)
      → Carries codec m (some (peer_connected (new_peer_id_from_slice id)))
  disconnects :
      {id : Bytes}
      → m.message_type ≡ MessageTypes.consensus_notify_peer_disconnected
      → codec.unmarshal_disconnected m.content ≡ inr id
      → Carries codec m (some (peer_disconnected (new_peer_id_from_slice id)))
  is_new :
      {block : ConsensusBlock}
      → m.message_type ≡ MessageTypes.consensus_notify_block_new
      → codec.unmarshal_block_new m.content ≡ inr block
      → Carries codec m (some (block_new (new_block_from_proto block)))
  is_valid :
      {id : Bytes}
      → m.message_type ≡ MessageTypes.consensus_notify_block_valid
      → codec.unmarshal_block_valid m.content ≡ inr id
      → Carries codec m (some (block_valid (new_block_id_from_bytes id)))
  is_invalid :
      {id : Bytes}
      → m.message_type ≡ MessageTypes.consensus_notify_block_invalid
      → codec.unmarshal_block_invalid m.content ≡ inr id
      → Carries codec m (some (block_invalid (new_block_id_from_bytes id)))
  is_commit :
      {id : Bytes}
      → m.message_type ≡ MessageTypes.consensus_notify_block_commit
      → codec.unmarshal_block_commit m.content ≡ inr id
      → Carries codec m (some (block_commit (new_block_id_from_bytes id)))
  says :
      {p : ConsensusPeerMessage} {sender : Bytes} {said : PeerMessage}
      → m.message_type ≡ MessageTypes.consensus_notify_peer_message
      → codec.unmarshal_peer_message m.content ≡ inr (p, sender)
      → new_peer_message_from_proto codec.unmarshal_header p ≡ ok said
      → Carries codec m (some (peer_message_arrived said (new_peer_id_from_slice sender)))
  no_connects :
      {e : Error}
      → m.message_type ≡ MessageTypes.consensus_notify_peer_connected
      → codec.unmarshal_connected m.content ≡ inl e
      → Carries codec m none
  no_disconnects :
      {e : Error}
      → m.message_type ≡ MessageTypes.consensus_notify_peer_disconnected
      → codec.unmarshal_disconnected m.content ≡ inl e
      → Carries codec m none
  no_is_new :
      {e : Error}
      → m.message_type ≡ MessageTypes.consensus_notify_block_new
      → codec.unmarshal_block_new m.content ≡ inl e
      → Carries codec m none
  no_is_valid :
      {e : Error}
      → m.message_type ≡ MessageTypes.consensus_notify_block_valid
      → codec.unmarshal_block_valid m.content ≡ inl e
      → Carries codec m none
  no_is_invalid :
      {e : Error}
      → m.message_type ≡ MessageTypes.consensus_notify_block_invalid
      → codec.unmarshal_block_invalid m.content ≡ inl e
      → Carries codec m none
  no_is_commit :
      {e : Error}
      → m.message_type ≡ MessageTypes.consensus_notify_block_commit
      → codec.unmarshal_block_commit m.content ≡ inl e
      → Carries codec m none
  no_says :
      {e : Error}
      → m.message_type ≡ MessageTypes.consensus_notify_peer_message
      → codec.unmarshal_peer_message m.content ≡ inl e
      → Carries codec m none
  no_header :
      {p : ConsensusPeerMessage} {sender : Bytes} {e : Error}
      → m.message_type ≡ MessageTypes.consensus_notify_peer_message
      → codec.unmarshal_peer_message m.content ≡ inr (p, sender)
      → new_peer_message_from_proto codec.unmarshal_header p ≡ err e
      → Carries codec m none

module _ {W : Type 0} (messages : MessageCodec) (codec : NotificationCodec)
    (validator service : DataConnection W) where
  -- The validator's socket delivers notifications, one after another, and after each of them one ack with its correlation id is sent.
  pub data Notifies (ack : Bytes) : List (Option ConsensusUpdate) → W → W → Type 0 where
    quiet : {w : W} → Notifies ack [] w w
    notifies :
        {o : Option ConsensusUpdate} {os : List (Option ConsensusUpdate)} {w t : W}
        (sender bytes : Bytes) (m : Message) (v : W)
        → validator.recv_data w ≡ (inr (sender, bytes), v)
        → messages.load bytes ≡ (m, none)
        → Carries codec m o
        → Notifies ack os
            (validator.send_msg MessageTypes.consensus_notify_ack ack m.correlation_id v).1
            t
        → Notifies ack (o ∷ os) w t

  -- `receiveValidator` called once for each of some messages
  abbrev pub receive_each : List (Option ConsensusUpdate) → Engine W → Outcome (Unit {0}) × Engine W
  receive_each [] e = (ok tt, e)
  receive_each (o ∷ os) e = elim (receive_validator messages codec validator service e).0 [
    | ok u ↦ receive_each os (receive_validator messages codec validator service e).1
    | err x ↦ (err x, (receive_validator messages codec validator service e).1)
    | panic ↦ (panic, (receive_validator messages codec validator service e).1)
  ]
