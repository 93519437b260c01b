-- ===== src/Consensus/Service.antt =====
-- consensus/service.go: the methods of `ZmqService`, each an exchange and the check of its status.
use sawtooth_sdk_go.Base.{ℕ, Bytes, text, Dict, insert, List, [], ◌∷◌, ◌++◌, map, ◌⊎◌}
use sawtooth_sdk_go.Processor.Errors.{
  Error, consensus_error, receive_error, invalid_state_error, unknown_block_error,
  no_chain_head_error, block_not_ready_error, Outcome, ok, err, Call, lift, ◌>>=◌,
}
use sawtooth_sdk_go.Messaging.Message.{Connection}
use sawtooth_sdk_go.Consensus.MessageTypes
use sawtooth_sdk_go.Consensus.Types.{
  block_id_as_bytes, new_block_id_from_bytes, peer_id_as_bytes, Block, ConsensusBlock,
  new_block_from_proto,
}
use sawtooth_sdk_go.Consensus.Interface.{ConsensusService}
use sawtooth_sdk_go.Consensus.Rpc.{Service, service_rpc}

-- the status of a response: those that some method tells apart, and the others by name
pub data ServiceStatus : Type 0 where
  service_ok invalid_state unknown_block block_not_ready no_chain_head : ServiceStatus
  other_status : Bytes → ServiceStatus

unfoldable pub status_name : ServiceStatus → Bytes
status_name service_ok = text "OK"
status_name invalid_state = text "INVALID_STATE"
status_name unknown_block = text "UNKNOWN_BLOCK"
status_name block_not_ready = text "BLOCK_NOT_READY"
status_name no_chain_head = text "NO_CHAIN_HEAD"
status_name (other_status n) = n

abbrev pub failed_with : ServiceStatus → Outcome (Unit {0})
failed_with s = err (consensus_error receive_error (text "Failed with status: " ++ status_name s))

-- `SendTo`, `Broadcast`
unfoldable pub check_ok : ServiceStatus → Outcome (Unit {0})
check_ok service_ok = ok tt
check_ok s = failed_with s

-- `InitializeBlock`
unfoldable pub check_initialize : ServiceStatus → Outcome (Unit {0})
check_initialize service_ok = ok tt
check_initialize invalid_state =
    err (consensus_error invalid_state_error (text "Cannot initialize block in current state"))
check_initialize unknown_block = err (consensus_error unknown_block_error (text "Block not found"))
check_initialize s = failed_with s

-- `SummarizeBlock`, `FinalizeBlock`, with the text for an invalid state
unfoldable pub check_building : Bytes → ServiceStatus → Outcome (Unit {0})
check_building t service_ok = ok tt
check_building t invalid_state = err (consensus_error invalid_state_error t)
check_building t block_not_ready = err (consensus_error block_not_ready_error [])
check_building t s = failed_with s

-- `CancelBlock`
unfoldable pub check_cancel : ServiceStatus → Outcome (Unit {0})
check_cancel service_ok = ok tt
check_cancel invalid_state =
    err (consensus_error invalid_state_error (text "Cannot cancel block in current state"))
check_cancel s = failed_with s

-- `CheckBlocks`, `CommitBlock`, `IgnoreBlock`, `FailBlock`, `GetBlocks`, `GetSettings`, `GetState`
unfoldable pub check_block : ServiceStatus → Outcome (Unit {0})
check_block service_ok = ok tt
check_block unknown_block = err (consensus_error unknown_block_error (text "Block not found"))
check_block s = failed_with s

-- `GetChainHead`
unfoldable pub check_chain_head : ServiceStatus → Outcome (Unit {0})
check_chain_head service_ok = ok tt
check_chain_head no_chain_head = err (consensus_error no_chain_head_error [])
check_chain_head s = failed_with s

-- the blocks of a response by their ids
unfoldable pub collect_blocks : List ConsensusBlock → Dict Block → Dict Block
collect_blocks [] found = found
collect_blocks (p ∷ ps) found =
    collect_blocks ps (insert (new_block_id_from_bytes p.block_id) (new_block_from_proto p) found)

-- the entries of a response, as a map
unfoldable pub collect_entries : Dict Bytes → Dict Bytes → Dict Bytes
collect_entries [] found = found
collect_entries ((k, v) ∷ rest) found = collect_entries rest (insert k v found)

-- The protobuf library at the requests and responses of consensus_pb2.
pub record ServiceCodec : Type 0 where
  pub type_name : ℕ → Bytes
  pub marshal_send_to : (content message_type receiver : Bytes) → Error ⊎ Bytes
  pub marshal_broadcast : (content message_type : Bytes) → Error ⊎ Bytes
  pub marshal_initialize : Bytes → Error ⊎ Bytes
  pub marshal_finalize : Bytes → Error ⊎ Bytes
  pub marshal_commit : Bytes → Error ⊎ Bytes
  pub marshal_ignore : Bytes → Error ⊎ Bytes
  pub marshal_fail : Bytes → Error ⊎ Bytes
  pub marshal_summarize : Error ⊎ Bytes
  pub marshal_cancel : Error ⊎ Bytes
  pub marshal_chain_head : Error ⊎ Bytes
  pub marshal_check : List Bytes → Error ⊎ Bytes
  pub marshal_blocks_get : List Bytes → Error ⊎ Bytes
  pub marshal_settings_get : Bytes → List Bytes → Error ⊎ Bytes
  pub marshal_state_get : Bytes → List Bytes → Error ⊎ Bytes
  pub unmarshal_send_to : Bytes → Error ⊎ ServiceStatus
  pub unmarshal_broadcast : Bytes → Error ⊎ ServiceStatus
  pub unmarshal_initialize : Bytes → Error ⊎ ServiceStatus
  pub unmarshal_cancel : Bytes → Error ⊎ ServiceStatus
  pub unmarshal_check : Bytes → Error ⊎ ServiceStatus
  pub unmarshal_commit : Bytes → Error ⊎ ServiceStatus
  pub unmarshal_ignore : Bytes → Error ⊎ ServiceStatus
  pub unmarshal_fail : Bytes → Error ⊎ ServiceStatus
  pub unmarshal_summarize : Bytes → Error ⊎ (ServiceStatus × Bytes)
  pub unmarshal_finalize : Bytes → Error ⊎ (ServiceStatus × Bytes)
  pub unmarshal_blocks_get : Bytes → Error ⊎ (ServiceStatus × List ConsensusBlock)
  pub unmarshal_chain_head : Bytes → Error ⊎ (ServiceStatus × ConsensusBlock)
  pub unmarshal_settings_get : Bytes → Error ⊎ (ServiceStatus × Dict Bytes)
  pub unmarshal_state_get : Bytes → Error ⊎ (ServiceStatus × Dict Bytes)

module _ {W : Type 0} (conn : Connection W) (codec : ServiceCodec) where
  unfoldable pub send_to : Bytes → Bytes → Bytes → Call (Service W) (Unit {0})
  send_to peer message_type content =
      service_rpc conn codec.type_name MessageTypes.consensus_send_to_request
        (codec.marshal_send_to content message_type (peer_id_as_bytes peer))
        MessageTypes.consensus_send_to_response codec.unmarshal_send_to
      >>= λ status. lift (check_ok status)

  unfoldable pub broadcast : Bytes → Bytes → Call (Service W) (Unit {0})
  broadcast message_type content =
      service_rpc conn codec.type_name MessageTypes.consensus_broadcast_request
        (codec.marshal_broadcast content message_type) MessageTypes.consensus_broadcast_response
        codec.unmarshal_broadcast
      >>= λ status. lift (check_ok status)

  unfoldable pub initialize_block : Bytes → Call (Service W) (Unit {0})
  initialize_block previous_id =
      service_rpc conn codec.type_name MessageTypes.consensus_initialize_block_request
        (codec.marshal_initialize (block_id_as_bytes previous_id))
        MessageTypes.consensus_initialize_block_response codec.unmarshal_initialize
      >>= λ status. lift (check_initialize status)

  unfoldable pub summarize_block : Call (Service W) Bytes
  summarize_block =
      service_rpc conn codec.type_name MessageTypes.consensus_summarize_block_request
        (codec.marshal_summarize) MessageTypes.consensus_summarize_block_response
        codec.unmarshal_summarize
      >>= λ response.
          lift (check_building (text "Cannot summarize block in current state") response.0) >>= λ u.
          lift (ok (response.1))

  unfoldable pub finalize_block : Bytes → Call (Service W) Bytes
  finalize_block consensus =
      service_rpc conn codec.type_name MessageTypes.consensus_finalize_block_request
        (codec.marshal_finalize consensus) MessageTypes.consensus_finalize_block_response
        codec.unmarshal_finalize
      >>= λ response.
          lift (check_building (text "Cannot finalize block in current state") response.0) >>= λ u.
          lift (ok (new_block_id_from_bytes response.1))

  unfoldable pub cancel_block : Call (Service W) (Unit {0})
  cancel_block =
      service_rpc conn codec.type_name MessageTypes.consensus_cancel_block_request
        (codec.marshal_cancel) MessageTypes.consensus_cancel_block_response codec.unmarshal_cancel
      >>= λ status. lift (check_cancel status)

  unfoldable pub check_blocks : List Bytes → Call (Service W) (Unit {0})
  check_blocks ids =
      service_rpc conn codec.type_name MessageTypes.consensus_check_blocks_request
        (codec.marshal_check (map block_id_as_bytes ids))
        MessageTypes.consensus_check_blocks_response codec.unmarshal_check
      >>= λ status. lift (check_block status)

  unfoldable pub commit_block : Bytes → Call (Service W) (Unit {0})
  commit_block id =
      service_rpc conn codec.type_name MessageTypes.consensus_commit_block_request
        (codec.marshal_commit (block_id_as_bytes id)) MessageTypes.consensus_commit_block_response
        codec.unmarshal_commit
      >>= λ status. lift (check_block status)

  unfoldable pub ignore_block : Bytes → Call (Service W) (Unit {0})
  ignore_block id =
      service_rpc conn codec.type_name MessageTypes.consensus_ignore_block_request
        (codec.marshal_ignore (block_id_as_bytes id)) MessageTypes.consensus_ignore_block_response
        codec.unmarshal_ignore
      >>= λ status. lift (check_block status)

  unfoldable pub fail_block : Bytes → Call (Service W) (Unit {0})
  fail_block id =
      service_rpc conn codec.type_name MessageTypes.consensus_fail_block_request
        (codec.marshal_fail (block_id_as_bytes id)) MessageTypes.consensus_fail_block_response
        codec.unmarshal_fail
      >>= λ status. lift (check_block status)

  unfoldable pub get_blocks : List Bytes → Call (Service W) (Dict Block)
  get_blocks ids =
      service_rpc conn codec.type_name MessageTypes.consensus_blocks_get_request
        (codec.marshal_blocks_get (map block_id_as_bytes ids))
        MessageTypes.consensus_blocks_get_response codec.unmarshal_blocks_get
      >>= λ response.
          lift (check_block response.0) >>= λ u. lift (ok (collect_blocks response.1 []))

  unfoldable pub get_chain_head : Call (Service W) Block
  get_chain_head =
      service_rpc conn codec.type_name MessageTypes.consensus_chain_head_get_request
        (codec.marshal_chain_head) MessageTypes.consensus_chain_head_get_response
        codec.unmarshal_chain_head
      >>= λ response.
          lift (check_chain_head response.0) >>= λ u. lift (ok (new_block_from_proto response.1))

  unfoldable pub get_settings : Bytes → List Bytes → Call (Service W) (Dict Bytes)
  get_settings id names =
      service_rpc conn codec.type_name MessageTypes.consensus_settings_get_request
        (codec.marshal_settings_get (block_id_as_bytes id) names)
        MessageTypes.consensus_settings_get_response codec.unmarshal_settings_get
      >>= λ response.
          lift (check_block response.0) >>= λ u. lift (ok (collect_entries response.1 []))

  unfoldable pub get_state : Bytes → List Bytes → Call (Service W) (Dict Bytes)
  get_state id addresses =
      service_rpc conn codec.type_name MessageTypes.consensus_state_get_request
        (codec.marshal_state_get (block_id_as_bytes id) addresses)
        MessageTypes.consensus_state_get_response codec.unmarshal_state_get
      >>= λ response.
          lift (check_block response.0) >>= λ u. lift (ok (collect_entries response.1 []))

  -- the service as an engine's implementation uses it
  abbrev pub as_service : ConsensusService (Service W)
  as_service = record {
    send_to = send_to;
    broadcast = broadcast;
    initialize_block = initialize_block;
    summarize_block = summarize_block;
    finalize_block = finalize_block;
    cancel_block = cancel_block;
    check_blocks = check_blocks;
    commit_block = commit_block;
    ignore_block = ignore_block;
    fail_block = fail_block;
    get_blocks = get_blocks;
    get_chain_head = get_chain_head;
    get_settings = get_settings;
    get_state = get_state;
  }
