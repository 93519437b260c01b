-- ===== src/Consensus/Types.antt =====
-- consensus/types.go: identifiers, blocks, peer messages, and the updates that an engine is sent.
pub mod Ids
pub mod Printed
use sawtooth_sdk_go.Base.{
  ℕ, Bytes, text, bytes_eq, hexdigest, List, [], ◌∷◌, map, Bool, true, false, ◌==◌, ◌&&◌, ◌⊎◌, inl,
  inr, if◌then◌else◌,
}
use sawtooth_sdk_go.Processor.Errors.{Error, other, error_text, Outcome, ok, err, panic}

unfoldable pub is_slice_of_zeroes : Bytes → Bool
is_slice_of_zeroes [] = true
is_slice_of_zeroes (b ∷ bs) = if b == 0 then is_slice_of_zeroes bs else false

-- A BlockId is a string.
abbrev pub block_id_null : Bytes
block_id_null = []

unfoldable pub block_id_as_bytes : Bytes → Bytes
block_id_as_bytes id = if bytes_eq id block_id_null then [] else id

unfoldable pub new_block_id_from_bytes : Bytes → Bytes
new_block_id_from_bytes bytes = if is_slice_of_zeroes bytes then block_id_null else bytes

-- A PeerId is a string.
abbrev pub peer_id_null : Bytes
peer_id_null = []

unfoldable pub peer_id_as_bytes : Bytes → Bytes
peer_id_as_bytes id = if bytes_eq id peer_id_null then [] else id

unfoldable pub new_peer_id_from_slice : Bytes → Bytes
new_peer_id_from_slice bytes = if is_slice_of_zeroes bytes then peer_id_null else bytes

pub record Block : Type 0 where
  pub block_id : Bytes
  pub previous_id : Bytes
  pub signer_id : Bytes
  pub block_num : ℕ
  pub payload : Bytes
  pub summary : Bytes

-- the fields of the message ConsensusBlock
pub record ConsensusBlock : Type 0 where
  pub block_id : Bytes
  pub previous_id : Bytes
  pub signer_id : Bytes
  pub block_num : ℕ
  pub payload : Bytes
  pub summary : Bytes

unfoldable pub new_block_from_proto : ConsensusBlock → Block
new_block_from_proto p = record {
  block_id = new_block_id_from_bytes p.block_id;
  previous_id = new_block_id_from_bytes p.previous_id;
  signer_id = new_peer_id_from_slice p.signer_id;
  block_num = p.block_num;
  payload = p.payload;
  summary = p.summary;
}

pub record PeerMessageHeader : Type 0 where
  pub signer_id : Bytes
  pub content_sha512 : Bytes
  pub message_type : Bytes
  pub name : Bytes
  pub version : Bytes

pub record PeerMessage : Type 0 where
  pub header : PeerMessageHeader
  pub header_signature : Bytes
  pub content : Bytes

-- the fields of the message ConsensusPeerMessage, whose header is marshalled
pub record ConsensusPeerMessage : Type 0 where
  pub header : Bytes
  pub content : Bytes
  pub header_signature : Bytes

peer_message : ConsensusPeerMessage → Error ⊎ PeerMessageHeader → Outcome PeerMessage
peer_message p (inl e) = panic
peer_message p (inr h) =
    ok (record { header = h; header_signature = p.header_signature; content = p.content })

-- A header that cannot be unmarshalled panics. The first argument is the protobuf library.
unfoldable pub new_peer_message_from_proto :
    (Bytes → Error ⊎ PeerMessageHeader) → ConsensusPeerMessage → Outcome PeerMessage
unfolding peer_message
new_peer_message_from_proto unmarshal_header p = peer_message p (unmarshal_header p.header)

pub record StartupState : Type 0 where
  pub chain_head : Block
  pub peers : List Bytes
  pub local_peer_info : Bytes

unfoldable pub new_startup_state_from_protos : ConsensusBlock → List Bytes → Bytes → StartupState
new_startup_state_from_protos head peers local = record {
  chain_head = new_block_from_proto head;
  peers = map new_peer_id_from_slice peers;
  local_peer_info = new_peer_id_from_slice local;
}

-- The updates, each a struct. A type switch tells a struct from a pointer to one: an engine's
-- shutdown sends `&UpdateShutdown{}`, which is another type than `UpdateShutdown`.
pub data ConsensusUpdate : Type 0 where
  peer_connected peer_disconnected : Bytes → ConsensusUpdate
  peer_message_arrived : PeerMessage → Bytes → ConsensusUpdate
  block_new : Block → ConsensusUpdate
  block_valid block_invalid block_commit : Bytes → ConsensusUpdate
  shutdown_struct shutdown_pointer : ConsensusUpdate

unfoldable pub get_type : ConsensusUpdate → Bytes
get_type (peer_connected p) = text "UpdatePeerConnected"
get_type (peer_disconnected p) = text "UpdatePeerDisconnected"
get_type (peer_message_arrived m p) = text "UpdatePeerMessage"
get_type (block_new b) = text "UpdateBlockNew"
get_type (block_valid b) = text "UpdateBlockValid"
get_type (block_invalid b) = text "UpdateBlockInvalid"
get_type (block_commit b) = text "UpdateBlockCommit"
get_type shutdown_struct = text "UpdateShutdown"
get_type shutdown_pointer = text "UpdateShutdown"
