-- ===== src/Consensus/Rpc.antt =====
-- consensus/service.go: `serviceRpc`, the exchange that all methods of the service share, and
-- `hasCorrelationId`.
pub mod Replies
use sawtooth_sdk_go.Base.{
  ℕ, Bytes, text, bytes_eq, Dict, lookup, insert, erase, List, [], ◌++◌, ◌==◌, Option, none, some,
  ◌⊎◌, inl, inr, Bool, true, false, not, if◌then◌else◌,
}
use sawtooth_sdk_go.Processor.Errors.{Error, other, error_text, Outcome, ok, err, panic, Call}
use sawtooth_sdk_go.Messaging.Message.{Connection, Received, Message, message_of}

-- `ZmqService`: the correlation ids of the requests under way, and the connection's state.
pub record Service (W : Type 0) : Type 0 where
  pub corr_ids : Dict (Unit {0})
  pub world : W

unfoldable pub has_key : Option (Unit {0}) → Bool
has_key none = false
has_key (some u) = true

unfoldable pub has_correlation_id : Bytes → Dict (Unit {0}) → Bool
unfolding has_key
has_correlation_id c ids = has_key (lookup c ids)

module _ {W A : Type 0} (conn : Connection W) (type_name : ℕ → Bytes) where
  rpc_unmarshalled : ℕ → Error ⊎ A → Outcome A
  rpc_unmarshalled t (inl e) =
      err (
        other (text "Failed to unmarshal " ++ (type_name t ++ (text " message: " ++ error_text e))))
  rpc_unmarshalled t (inr a) = ok a

  rpc_content : ℕ → (Bytes → Error ⊎ A) → Message → Outcome A
  unfolding rpc_unmarshalled
  rpc_content t unmarshal m =
      if not (m.message_type == t)
      then err (
          other (
            text "Expected message with type "
            ++ (type_name t ++ (text " but received " ++ type_name m.message_type))))
      else rpc_unmarshalled t (unmarshal m.content)

  -- The error of the receive is not looked at; an id whose reply did not come stays.
  rpc_received :
      ℕ → (Bytes → Error ⊎ A) → Bytes → Dict (Unit {0}) → Received × W → Outcome A × Service W
  unfolding rpc_content
  rpc_received t unmarshal c ids (r, w) =
      let m = message_of r.msg in
      if not (bytes_eq m.correlation_id c)
      then (
        err (
            other (
              text "Expected message with correlation id "
              ++ (c ++ (text " but received " ++ m.correlation_id)))),
        record { corr_ids = ids; world = w },
      )
      else (rpc_content t unmarshal m, record { corr_ids = erase c ids; world = w })

  rpc_sent :
      ℕ → ℕ → (Bytes → Error ⊎ A) → Dict (Unit {0}) → Outcome Bytes × W → Outcome A × Service W
  unfolding rpc_received
  rpc_sent rt t unmarshal ids (ok c, w) =
      rpc_received t unmarshal c (insert c tt ids) (conn.recv_msg_with_id c w)
  rpc_sent rt t unmarshal ids (err e, w) = (
    err (other (text "Failed to send " ++ (type_name rt ++ (text " message: " ++ error_text e)))),
    record { corr_ids = ids; world = w },
  )
  rpc_sent rt t unmarshal ids (panic, w) = (panic, record { corr_ids = ids; world = w })

  -- the request's type and bytes, and the response's type and how it is unmarshalled
  unfoldable pub service_rpc : ℕ → Error ⊎ Bytes → ℕ → (Bytes → Error ⊎ A) → Call (Service W) A
  unfolding rpc_sent
  service_rpc rt (inl e) t unmarshal s = (
    err (
        other (text "Failed to marshal " ++ (type_name rt ++ (text " message: " ++ error_text e)))),
    s,
  )
  service_rpc rt (inr bytes) t unmarshal s =
      rpc_sent rt t unmarshal s.corr_ids (conn.send_new_msg rt bytes s.world)
