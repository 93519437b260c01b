-- ===== src/Consensus/Interface.antt =====
-- consensus/iface.go: the interface `ConsensusService` that an engine's implementation calls.
use sawtooth_sdk_go.Base.{Bytes, Dict, List}
use sawtooth_sdk_go.Processor.Errors.{Call}
use sawtooth_sdk_go.Consensus.Types.{Block}

pub record ConsensusService (W : Type 0) : Type 0 where
  pub send_to : Bytes → Bytes → Bytes → Call W (Unit {0})
  pub broadcast : Bytes → Bytes → Call W (Unit {0})
  pub initialize_block : Bytes → Call W (Unit {0})
  pub summarize_block : Call W Bytes
  pub finalize_block : Bytes → Call W Bytes
  pub cancel_block : Call W (Unit {0})
  pub check_blocks : List Bytes → Call W (Unit {0})
  pub commit_block : Bytes → Call W (Unit {0})
  pub ignore_block : Bytes → Call W (Unit {0})
  pub fail_block : Bytes → Call W (Unit {0})
  pub get_blocks : List Bytes → Call W (Dict Block)
  pub get_chain_head : Call W Block
  pub get_settings : Bytes → List Bytes → Call W (Dict Bytes)
  pub get_state : Bytes → List Bytes → Call W (Dict Bytes)
