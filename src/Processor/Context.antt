-- ===== src/Processor/Context.antt =====
-- processor/context.go: the calls of a transaction's context, each a request to the validator and
-- its reply over the interface `Connection`.
pub mod Replies
pub mod Replied
pub mod Stored
pub mod Atomic
use sawtooth_sdk_go.Base.{
  ℕ, Bytes, text, bytes_eq, Dict, insert, keys, List, [], ◌∷◌, ◌++◌, ◌==◌, Option, none, some, ◌⊎◌,
  inl, inr, Bool, true, false, not, if◌then◌else◌,
}
use sawtooth_sdk_go.Processor.Errors.{
  Error, other, authorization_exception, error_text, Outcome, ok, err, panic, Call, continue_with,
  lift, ◌>>=◌,
}
use sawtooth_sdk_go.Messaging.Message.{
  Connection, Received, Message, message_of, tp_state_get_request, tp_state_get_response,
  tp_state_set_request, tp_state_set_response, tp_state_delete_request, tp_state_delete_response,
  tp_receipt_add_data_request, tp_receipt_add_data_response, tp_event_add_request,
  tp_event_add_response,
}
use sawtooth_sdk_go.Processor.Store

pub record Attribute : Type 0 where
  pub key : Bytes
  pub value : Bytes

-- the status of a state response, and of a receipt or event response
pub data Status : Type 0 where
  status_ok status_unset authorization_error : Status

pub data AddStatus : Type 0 where
  add_ok add_unset add_error : AddStatus

-- The protobuf library at the messages of state_context_pb2; each request takes the context's id.
-- `inl` is its error.
pub record StateCodec : Type 0 where
  pub marshal_get : Bytes → List Bytes → Error ⊎ Bytes
  pub marshal_set : Bytes → Dict Bytes → Error ⊎ Bytes
  pub marshal_delete : Bytes → List Bytes → Error ⊎ Bytes
  pub marshal_receipt : Bytes → Bytes → Error ⊎ Bytes
  pub marshal_event : Bytes → Bytes → List Attribute → Bytes → Error ⊎ Bytes
  pub unmarshal_get : Bytes → Error ⊎ (Status × Dict Bytes)
  pub unmarshal_set : Bytes → Error ⊎ (Status × List Bytes)
  pub unmarshal_delete : Bytes → Error ⊎ (Status × List Bytes)
  pub unmarshal_receipt : Bytes → Error ⊎ AddStatus
  pub unmarshal_event : Bytes → Error ⊎ AddStatus
  -- the name of a message type
  pub type_name : ℕ → Bytes

-- `fmt.Sprint` of a list of strings
show_rest : List Bytes → Bytes
show_rest [] = []
show_rest (a ∷ rest) = text " " ++ (a ++ show_rest rest)

unfoldable pub show_list : List Bytes → Bytes
unfolding show_rest
show_list [] = text "[]"
show_list (a ∷ rest) = text "[" ++ (a ++ (show_rest rest ++ text "]"))

-- the loop over the entries of a response: no data means no entry
unfoldable pub collect : Dict Bytes → Dict Bytes → Dict Bytes
collect [] results = results
collect ((a, d) ∷ entries) results =
    collect entries (if bytes_eq d [] then results else insert a d results)

module _ {W : Type 0} (conn : Connection W) (codec : StateCodec) where
  -- the checks of the reply, on the message or nil
  check_reply : ℕ → Bytes → Bytes → Message → Outcome Bytes
  check_reply expected e_text corr_id m =
      if not (bytes_eq m.correlation_id corr_id)
      then err (
          other (
            text "Expected message with correlation id "
            ++ (corr_id ++ (text " but got " ++ m.correlation_id))))
      else if not (m.message_type == expected)
      then err (other (e_text ++ codec.type_name m.message_type))
      else ok m.content

  -- waits for the reply; the error of the receive is not looked at
  receive : ℕ → Bytes → Bytes → Call W Bytes
  unfolding check_reply
  receive expected e_text corr_id w =
      let (r, w') = conn.recv_msg_with_id corr_id w in
      (check_reply expected e_text corr_id (message_of r.msg), w')

  sent : ℕ → Bytes → Bytes → Outcome Bytes × W → Outcome Bytes × W
  unfolding receive
  sent expected s_text e_text (ok corr_id, w) = receive expected e_text corr_id w
  sent expected s_text e_text (err e, w) = (err (other (s_text ++ error_text e)), w)
  sent expected s_text e_text (panic, w) = (panic, w)

  -- The part that the five calls share: marshal, send, receive, check. The texts are those of the
  -- call's messages for a failure to marshal, to send, and for a reply of another type.
  unfoldable pub exchange : ℕ → ℕ → Bytes → Bytes → Bytes → Error ⊎ Bytes → Call W Bytes
  unfolding sent
  exchange request expected m_text s_text e_text (inl e) w =
      (err (other (m_text ++ error_text e)), w)
  exchange request expected m_text s_text e_text (inr bytes) w =
      sent expected s_text e_text (conn.send_new_msg request bytes w)

  unfoldable pub state_reply : {A : Type 0} → Bytes → Bytes → Error ⊎ (Status × A) → Outcome A
  state_reply u_text a_text (inl e) = err (other (u_text ++ error_text e))
  state_reply u_text a_text (inr (authorization_error, a)) = err (authorization_exception a_text [])
  state_reply u_text a_text (inr (status_ok, a)) = ok a
  state_reply u_text a_text (inr (status_unset, a)) = ok a

  add_reply : Bytes → Bytes → Error ⊎ AddStatus → Outcome (Unit {0})
  add_reply u_text f_text (inl e) = err (other (u_text ++ error_text e))
  add_reply u_text f_text (inr add_error) = err (other f_text)
  add_reply u_text f_text (inr add_ok) = ok tt
  add_reply u_text f_text (inr add_unset) = ok tt

  module _ (context_id : Bytes) where
    unfoldable pub get_state : List Bytes → Call W (Dict Bytes)
    get_state addresses =
        exchange tp_state_get_request tp_state_get_response
          (text "Failed to marshal TpStateGetRequest: ") (text "Failed to send TpStateGetRequest: ")
          (text "Expected TpStateGetResponse but got ") (codec.marshal_get context_id addresses)
        >>= λ content.
            lift (
              state_reply (text "Failed to unmarshal TpStateGetResponse: ")
                (text "Tried to get unauthorized address: " ++ show_list addresses)
                (codec.unmarshal_get content))
            >>= λ entries. lift (ok (collect entries []))

    unfoldable pub set_state : Dict Bytes → Call W (List Bytes)
    set_state pairs =
        exchange tp_state_set_request tp_state_set_response (text "Failed to marshal: ")
          (text "Failed to send set: ") (text "Expected TP_STATE_SET_RESPONSE but got ")
          (codec.marshal_set context_id pairs)
        >>= λ content. lift (
            state_reply (text "Failed to unmarshal TpStateSetResponse: ")
              (text "Tried to set unauthorized address: " ++ show_list (keys pairs))
              (codec.unmarshal_set content))

    unfoldable pub delete_state : List Bytes → Call W (List Bytes)
    delete_state addresses =
        exchange tp_state_delete_request tp_state_delete_response
          (text "Failed to marshal TpStateDeleteRequest: ")
          (text "Failed to send TpStateDeleteRequest: ")
          (text "Expected TpStateDeleteResponse but got ")
          (codec.marshal_delete context_id addresses)
        >>= λ content. lift (
            state_reply (text "Failed to unmarshal TpStatedDeleteResponse: ")
              (text "Tried to get unauthorized address: " ++ show_list addresses)
              (codec.unmarshal_delete content))

    unfoldable pub add_receipt_data : Bytes → Call W (Unit {0})
    unfolding add_reply
    add_receipt_data bytes =
        exchange tp_receipt_add_data_request tp_receipt_add_data_response
          (text "Failed to marshal: ") (text "Failed to add receipt data: ")
          (text "Expected TP_RECEIPT_ADD_DATA_RESPONSE but got ")
          (codec.marshal_receipt context_id bytes)
        >>= λ content. lift (
            add_reply (text "Failed to unmarshal TpReceiptAddDataResponse: ")
              (text "Failed to add receipt data") (codec.unmarshal_receipt content))

    unfoldable pub add_event : Bytes → List Attribute → Bytes → Call W (Unit {0})
    unfolding add_reply
    add_event event_type attributes event_data =
        exchange tp_event_add_request tp_event_add_response (text "Failed to marshal: ")
          (text "Failed to add event: ") (text "Expected TP_EVENT_ADD_RESPONSE but got ")
          (codec.marshal_event context_id event_type attributes event_data)
        >>= λ content. lift (
            add_reply (text "Failed to unmarshal TpEventAddResponse: ") (text "Failed to add event")
              (codec.unmarshal_event content))

    -- the context as handlers use it
    abbrev pub as_store : Store.Context W
    as_store = record { get_state = get_state; set_state = set_state; delete_state = delete_state }
