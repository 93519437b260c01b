-- ===== src/Messaging/Message.antt =====
-- The message that is exchanged with the validator (protobuf/validator_pb2), and the interface
-- `Connection` of messaging/connection.go as far as the contexts and workers use it.
use sawtooth_sdk_go.Base.{ℕ, Bytes, [], Option, none, some, ◌⊎◌}
use sawtooth_sdk_go.Processor.Errors.{Error, Call}

pub record Message : Type 0 where
  pub message_type : ℕ
  pub correlation_id : Bytes
  pub content : Bytes

-- the enumeration Message_MessageType, as far as it is used
abbrev pub tp_register_request : ℕ
tp_register_request = 1

abbrev pub tp_register_response : ℕ
tp_register_response = 2

abbrev pub tp_unregister_request : ℕ
tp_unregister_request = 3

abbrev pub tp_unregister_response : ℕ
tp_unregister_response = 4

abbrev pub tp_process_request : ℕ
tp_process_request = 5

abbrev pub tp_process_response : ℕ
tp_process_response = 6

abbrev pub tp_state_get_request : ℕ
tp_state_get_request = 7

abbrev pub tp_state_get_response : ℕ
tp_state_get_response = 8

abbrev pub tp_state_set_request : ℕ
tp_state_set_request = 9

abbrev pub tp_state_set_response : ℕ
tp_state_set_response = 10

abbrev pub tp_state_delete_request : ℕ
tp_state_delete_request = 11

abbrev pub tp_state_delete_response : ℕ
tp_state_delete_response = 12

abbrev pub tp_receipt_add_data_request : ℕ
tp_receipt_add_data_request = 13

abbrev pub tp_receipt_add_data_response : ℕ
tp_receipt_add_data_response = 14

abbrev pub tp_event_add_request : ℕ
tp_event_add_request = 15

abbrev pub tp_event_add_response : ℕ
tp_event_add_response = 16

abbrev pub ping_request : ℕ
ping_request = 700

abbrev pub ping_response : ℕ
ping_response = 701

-- What `RecvMsg` and `RecvMsgWithId` return: the sender, a message or nil, and an error or nil.
pub record Received : Type 0 where
  pub sender : Bytes
  pub msg : Option Message
  pub error : Option Error

-- `msg.GetCorrelationId()` and so on, which return zero values at nil
abbrev pub message_of : Option Message → Message
message_of none = record { message_type = 0; correlation_id = []; content = [] }
message_of (some m) = m

pub record Connection (W : Type 0) : Type 0 where
  -- returns the new message's correlation id
  pub send_new_msg : ℕ → Bytes → Call W Bytes
  pub send_msg : ℕ → Bytes → Bytes → Call W (Unit {0})
  pub recv_msg_with_id : Bytes → W → Received × W

-- The methods of `Connection` that pass data on as it is. `RecvData` yields the sender and the
-- data.
pub record DataConnection (W : Type 0) : Type 0 where
  pub recv_data : W → (Error ⊎ (Bytes × Bytes)) × W
  pub send_data : Bytes → Bytes → W → Option Error × W
  pub send_msg : ℕ → Bytes → Bytes → W → Option Error × W
