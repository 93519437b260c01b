-- ===== src/Devmode.antt =====
-- examples/devmode_consensus/engine.go: the checks of a new block and the choice between forks. The
-- consensus service is a parameter; consensus/service.go implements it.
pub mod Forks
pub mod Blocks
pub mod Publishing
use sawtooth_sdk_go.Base.{
  ◌≡◌, ℕ, zero, suc, Bytes, text, bytes_eq, Dict, lookup, bytes_ltb, ltb, Option, none, some, Bool,
  true, false, List, [], ◌∷◌, ◌++◌, ◌==◌, ◌&&◌, ◌||◌, if◌then◌else◌,
}
use sawtooth_sdk_go.Processor.Errors.{
  Outcome, ok, err, panic, Call, continue_with, lift, pure, ◌>>=◌, ◌>>◌,
}
use sawtooth_sdk_go.Consensus.Types.{Block, block_id_null, block_id_as_bytes}
use sawtooth_sdk_go.Consensus.Interface.{ConsensusService}

-- `if err != nil { panic(..) }`
or_panic : {A W : Type 0} → Outcome A × W → Outcome A × W
or_panic (ok a, w) = (ok a, w)
or_panic (err e, w) = (panic, w)
or_panic (panic, w) = (panic, w)

unfoldable pub must : {A W : Type 0} → Call W A → Call W A
unfolding or_panic
must m w = or_panic (m w)

-- `blockIdMap[block_id]`: nil if there is no entry, and each caller goes on to call a method of the
-- block, which panics at nil
unfoldable pub block_in : Option Block → Outcome Block
block_in (some b) = ok b
block_in none = panic

unfoldable pub create_consensus : Bytes → Bytes
create_consensus summary = text "Devmode" ++ summary

unfoldable pub check_consensus : Block → Bool
check_consensus b = bytes_eq b.payload (create_consensus b.summary)

-- the block's number is higher, or it is the same and the id is greater
unfoldable pub takes_over : Block → Block → Bool
takes_over block head =
    ltb head.block_num block.block_num
    || (block.block_num == head.block_num && bytes_ltb head.block_id block.block_id)

-- the exported name and version
abbrev pub devmode_version : Bytes
devmode_version = text "0.1"

abbrev pub devmode_name : Bytes
devmode_name = text "Devmode"

module _ {W : Type 0} (service : ConsensusService W) where
  unfoldable pub get_block : Bytes → Call W Block
  get_block id = must (service.get_blocks (id ∷ [])) >>= λ found. lift (block_in (lookup id found))

  -- `checkBlock`, `failBlock`, `ignoreBlock`, `commitBlock`, `getChainHead`, and the two messages to
  -- one peer: each panics on an error
  abbrev pub check_block : Bytes → Call W (Unit {0})
  check_block id = must (service.check_blocks (id ∷ []))

  abbrev pub fail_block : Bytes → Call W (Unit {0})
  fail_block id = must (service.fail_block id)

  abbrev pub ignore_block : Bytes → Call W (Unit {0})
  ignore_block id = must (service.ignore_block id)

  abbrev pub commit_block : Bytes → Call W (Unit {0})
  commit_block id = must (service.commit_block id)

  abbrev pub get_chain_head : Call W Block
  get_chain_head = must service.get_chain_head

  abbrev pub send_block_received : Block → Call W (Unit {0})
  send_block_received block =
      must (service.send_to block.signer_id (text "received") (block_id_as_bytes block.block_id))

  abbrev pub send_block_ack : Bytes → Bytes → Call W (Unit {0})
  send_block_ack sender id = must (service.send_to sender (text "ack") (block_id_as_bytes id))

  unfoldable pub handle_block_new : Block → Call W (Unit {0})
  handle_block_new block =
      if bytes_eq block.previous_id block_id_null
      then pure tt
      else if check_consensus block
      then check_block block.block_id
      else fail_block block.block_id

  -- The loop from the chain head down to a block of the number; `none` is out of fuel.
  unfoldable pub ancestor : ℕ → ℕ → Block → Call W (Option Block)
  ancestor zero n b w = (ok none, w)
  ancestor (suc fuel) n b w =
      let (r, t) = get_block b.previous_id w in
      elim r [
        | ok p ↦ elim (p.block_num == n) [ true ↦ (ok (some p), t) | false ↦ ancestor fuel n p t ]
        | err e ↦ (err e, t)
        | panic ↦ (panic, t)
      ]

  unfoldable pub settle : Bytes → Bool → Call W (Option (Unit {0}))
  settle id wins = (if wins then commit_block id else ignore_block id) >>= λ u. lift (ok (some u))

  unfoldable pub settle_fork : Bytes → Block → Option Block → Call W (Option (Unit {0}))
  settle_fork id block none = lift (ok none)
  settle_fork id block (some a) = settle id (bytes_ltb a.block_id block.block_id)

  unfoldable pub fork_choice : ℕ → Bytes → Block → Block → Call W (Option (Unit {0}))
  fork_choice fuel id block head =
      if takes_over block head
      then settle id true
      else if ltb block.block_num head.block_num
      then ancestor fuel block.block_num head >>= settle_fork id block
      else settle id false

  unfoldable pub handle_block_valid : ℕ → Bytes → Call W (Option (Unit {0}))
  handle_block_valid fuel id = get_block id >>= λ block.
      send_block_received block >> get_chain_head >>= λ head. fork_choice fuel id block head
