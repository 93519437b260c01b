-- ===== src/Messaging/Connection.antt =====
-- messaging/connection.go: `ZmqConnection`. The socket is seen as the events that it will deliver,
-- in order, and the frames that were sent on it; a receive with no event left waits.
pub mod Replies
use sawtooth_sdk_go.Base.{
  ℕ, Bytes, text, bytes_eq, Dict, lookup, insert, erase, length, print_ℕ, List, [], ◌∷◌, ◌++◌,
  Option, none, some, ◌⊎◌, inl, inr, if◌then◌else◌,
}
use sawtooth_sdk_go.Processor.Errors.{Error, other, Outcome, ok, err, panic}
use sawtooth_sdk_go.Messaging.Message.{Message, Received}

-- The protobuf library at Message. `load` gives the message as far as it was read, and an error.
pub record MessageCodec : Type 0 where
  pub dump : Message → Error ⊎ Bytes
  pub load : Bytes → Message × Option Error

-- `RecvMessage(0)` returns the parts of a message, or an error
pub data Event : Type 0 where
  parts : List Bytes → Event
  failed : Error → Event

pub record StoredMsg : Type 0 where
  pub id : Bytes
  pub msg : Message

pub record ZmqConnection : Type 0 where
  pub incoming : Dict StoredMsg
  pub events : List Event
  pub sent : List (List Bytes)

-- `none` means that the call still waits
abbrev pub Waits : Type 0 → Type 0
Waits A = Option A × ZmqConnection

-- what was sent, if `SendMessage` returns no error
send_frames : Option Error → List Bytes → ZmqConnection → Option Error × ZmqConnection
send_frames (some e) frames c = (some e, c)
send_frames none frames c = (none, record c { sent = c.sent ++ frames ∷ [] })

-- `SendData(id, data)`: with the identity of the receiver in front, if there is one. The first
-- argument is what the socket's `SendMessage` returns.
unfoldable pub send_data :
    Option Error → Bytes → Bytes → ZmqConnection → Option Error × ZmqConnection
unfolding send_frames
send_data result id bytes c =
    if bytes_eq id []
    then send_frames result (bytes ∷ []) c
    else send_frames result (id ∷ bytes ∷ []) c

-- the sender and the data of a received message
unfoldable pub data_of : Event → Error ⊎ (Bytes × Bytes)
data_of (failed e) = inl e
data_of (parts (bytes ∷ [])) = inr ([], bytes)
data_of (parts (id ∷ bytes ∷ [])) = inr (id, bytes)
data_of (parts ps) =
    inl (other (text "Receive message with unexpected length: " ++ print_ℕ (length ps)))

module _ (codec : MessageCodec) where
  -- behind the marshalling, which may fail
  send_dumped : Option Error → Bytes → Error ⊎ Bytes → ZmqConnection → Option Error × ZmqConnection
  send_dumped result id (inr bytes) c = send_data result id bytes c
  send_dumped result id (inl e) c = (some e, c)

  unfoldable pub send_msg_to :
      Option Error → Bytes → ℕ → Bytes → Bytes → ZmqConnection → Option Error × ZmqConnection
  unfolding send_dumped
  send_msg_to result id t content corr_id c =
      send_dumped result id
        (codec.dump (record { message_type = t; correlation_id = corr_id; content = content })) c

  -- `SendNewMsgTo(id, t, c)`, with the correlation id that `GenerateId` returns: it is returned
  -- with an error too.
  unfoldable pub send_new_msg_to :
      Option Error
      → Bytes
      → Bytes
      → ℕ
      → Bytes
      → ZmqConnection
      → (Bytes × Option Error) × ZmqConnection
  send_new_msg_to result corr_id id t content c =
      let (e, c') = send_msg_to result id t content corr_id c in ((corr_id, e), c')

  -- `SendMsg` and `SendNewMsg`: no identity in front
  unfoldable pub send_msg :
      Option Error → ℕ → Bytes → Bytes → ZmqConnection → Option Error × ZmqConnection
  send_msg result = send_msg_to result []

  unfoldable pub send_new_msg :
      Option Error → Bytes → ℕ → Bytes → ZmqConnection → (Bytes × Option Error) × ZmqConnection
  send_new_msg result corr_id = send_new_msg_to result corr_id []

  -- `RecvMsg()`: a stored message first, whichever the map yields; here the oldest
  recv_from : List Event → ZmqConnection → Waits Received
  recv_from [] c = (none, c)
  recv_from (e ∷ es) c = elim (data_of e) [
    | inl x ↦ (some (record { sender = []; msg = none; error = some x }), record c { events = es })
    | inr (id, bytes) ↦
        let loaded = codec.load bytes in
        (
          some (record { sender = id; msg = some loaded.0; error = loaded.1 }),
          record c { events = es },
        )
  ]

  recv_stored : Dict StoredMsg → ZmqConnection → Waits Received
  unfolding recv_from
  recv_stored [] c = recv_from c.events c
  recv_stored ((corr_id, s) ∷ rest) c = (
    some (record { sender = s.id; msg = some s.msg; error = none }),
    record c { incoming = erase corr_id c.incoming },
  )

  unfoldable pub recv_msg : ZmqConnection → Waits Received
  unfolding recv_stored
  recv_msg c = recv_stored c.incoming c

  -- the loop of `RecvMsgWithId` over the events, with the messages stored so far
  unfoldable pub await : Bytes → List Event → Dict StoredMsg → List (List Bytes) → Waits Received
  await corr_id [] stored sent = (none, record { incoming = stored; events = []; sent = sent })
  await corr_id (e ∷ es) stored sent = elim (data_of e) [
    | inl x ↦ (
      some (record { sender = []; msg = none; error = some x }),
      record { incoming = stored; events = es; sent = sent },
    )
    | inr (id, bytes) ↦
        let loaded = codec.load bytes in
        let store = insert (loaded.0).correlation_id (record { id = id; msg = loaded.0 }) stored in
        let later = await corr_id es store sent in
        if bytes_eq (loaded.0).correlation_id corr_id
        then (
          some (record { sender = id; msg = some loaded.0; error = loaded.1 }),
          record { incoming = stored; events = es; sent = sent },
        )
        else later
  ]

  -- A stored reply is returned, and stays stored.
  await_stored : Option StoredMsg → Bytes → ZmqConnection → Waits Received
  unfolding await
  await_stored (some s) corr_id c =
      (some (record { sender = s.id; msg = some s.msg; error = none }), c)
  await_stored none corr_id c = await corr_id c.events c.incoming c.sent

  unfoldable pub recv_msg_with_id : Bytes → ZmqConnection → Waits Received
  unfolding await_stored
  recv_msg_with_id corr_id c = await_stored (lookup corr_id c.incoming) corr_id c
