-- ===== src/Tests/Wire.antt =====
-- A wire format and a connection for concrete runs.
use sawtooth_sdk_go.Base.{
  ℕ, Bytes, List, [], ◌∷◌, ◌++◌, Option, none, some, ◌⊎◌, inl, inr, take, drop,
}
use sawtooth_sdk_go.Processor.Errors.{Error, other, ok}
use sawtooth_sdk_go.Messaging.Message.{Message, Connection, DataConnection}
use sawtooth_sdk_go.Messaging.Connection.{MessageCodec}

-- the first byte is the type, the second the correlation id, the rest the content
abbrev pub load_toy : Bytes → Message × Option Error
load_toy [] = (record { message_type = 0; correlation_id = []; content = [] }, none)
load_toy (t ∷ rest) =
    (record { message_type = t; correlation_id = take 1 rest; content = drop 1 rest }, none)

abbrev pub toy : MessageCodec
toy = record { dump = λ m. inr (m.message_type ∷ (m.correlation_id ++ m.content)); load = load_toy }

abbrev pub reply_to : ℕ → Message
reply_to c = record { message_type = 8; correlation_id = c ∷ []; content = 1 ∷ [] }

-- what is still to arrive at a socket, and what was sent to the other ends
pub record Wire : Type 0 where
  pub incoming : List Bytes
  pub sent : List Bytes

abbrev pub arriving : List Bytes → List Bytes → (Error ⊎ (Bytes × Bytes)) × Wire
arriving [] sent = (inl (other []), record { incoming = []; sent = sent })
arriving (b ∷ bs) sent = (inr ([], b), record { incoming = bs; sent = sent })

abbrev pub wire : DataConnection Wire
wire = record {
  recv_data = λ w. arriving w.incoming w.sent;
  send_data = λ id bytes w. (none, record w { sent = w.sent ++ bytes ∷ [] });
  send_msg = λ t bytes c w. (none, record w { sent = w.sent ++ (t ∷ (c ++ bytes)) ∷ [] });
}

-- a validator that answers each request with the same reply
abbrev pub toy_validator : Connection (Unit {0})
toy_validator = record {
  send_new_msg = λ t bytes w. (ok (40 ∷ []), w);
  send_msg = λ t bytes corr_id w. (ok tt, w);
  recv_msg_with_id =
      λ corr_id w. (record { sender = []; msg = some (reply_to 40); error = none }, w);
}
