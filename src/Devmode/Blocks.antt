-- ===== src/Devmode/Blocks.antt =====
-- examples/devmode_consensus/engine.go: building and publishing blocks, the wait between them, and
-- peer messages. The log guard only spares repeated log lines, and is left out.
pub mod Ready
use sawtooth_sdk_go.Base.{
  ℕ, zero, suc, Bytes, text, bytes_eq, Dict, lookup, List, [], ◌∷◌, ◌++◌, Option, none, some, Bool,
  true, false, not, ◌&&◌, ℤ, pos, ltb_ℤ, sub_ℕ, sub_int, add_int, mul_int, atoi, if◌then◌else◌,
}
use sawtooth_sdk_go.Processor.Errors.{
  Outcome, ok, err, panic, is_block_not_ready_error, is_invalid_state_error, Call, continue_with,
  lift, pure, ◌>>=◌, ◌>>◌,
}
use sawtooth_sdk_go.Processor.Store.{or_nil}
use sawtooth_sdk_go.Consensus.Types.{
  Block, block_id_null, block_id_as_bytes, new_block_id_from_bytes, PeerMessage, StartupState,
  ConsensusUpdate, peer_connected, peer_disconnected, peer_message_arrived, block_new, block_valid,
  block_invalid, block_commit, shutdown_struct, shutdown_pointer,
}
use sawtooth_sdk_go.Consensus.Interface.{ConsensusService}
use sawtooth_sdk_go.Devmode.{
  must, send_block_ack, create_consensus, handle_block_new, handle_block_valid,
}

-- in seconds
abbrev pub default_wait_time : ℤ
default_wait_time = pos 0

-- What the engine uses of the packages time and math/rand. `now` is in nanoseconds; `intn n` is
-- below `n`.
pub record Clock (W : Type 0) : Type 0 where
  pub now : W → ℕ × W
  pub intn : ℤ → W → ℤ × W
  pub sleep_second : W → W
  pub nanoseconds_after : ℕ → ℕ → ℤ

-- `strconv.Atoi(settings[key])`, and 0 on its error
unfoldable pub setting_of : Bytes → Dict Bytes → ℤ
setting_of key settings = elim (atoi (or_nil (lookup key settings))) [ none ↦ pos 0 | some z ↦ z ]

abbrev pub min_wait_key : Bytes
min_wait_key = text "sawtooth.consensus.min_wait_time"

abbrev pub max_wait_key : Bytes
max_wait_key = text "sawtooth.consensus.max_wait_time"

unfoldable pub nanoseconds : ℤ → ℤ
nanoseconds seconds = mul_int seconds (pos 1000000000)

module _ {W : Type 0} (service : ConsensusService W) (clock : Clock W) where
  -- a time between the settings, if they leave a range; `rand.Intn` panics at a range that
  -- overflowed
  wait_between : ℤ → ℤ → Call W ℤ
  wait_between least most w =
      if not (ltb_ℤ least most)
      then (ok default_wait_time, w)
      else if ltb_ℤ (pos 0) (sub_int most least)
      then (let (r, t) = clock.intn (sub_int most least) w in (ok (add_int r least), t))
      else (panic, w)

  -- The settings are read where there was an error, with which the service returns a nil map.
  wait_seconds : Outcome (Dict Bytes) → Call W ℤ
  unfolding wait_between
  wait_seconds (err e) w = wait_between (setting_of min_wait_key []) (setting_of max_wait_key []) w
  wait_seconds (ok settings) w = (ok default_wait_time, w)
  wait_seconds panic w = (panic, w)

  unfoldable pub calculate_wait_time : Bytes → Call W ℤ
  unfolding wait_seconds
  calculate_wait_time head w =
      let (settings, t) = service.get_settings head (min_wait_key ∷ max_wait_key ∷ []) w in
      (wait_seconds settings >>= λ s. lift (ok (nanoseconds s))) t

  -- `for err != nil && IsBlockNotReadyError(err)`: the result, or none behind another error, after
  -- which the code goes on with a zero value. The outer `none` is out of fuel.
  unfoldable pub until_ready : {A : Type 0} → ℕ → Call W A → Call W (Option (Option A))
  until_ready zero m w = (ok none, w)
  until_ready (suc fuel) m w =
      let (r, t) = m w in
      elim r [
        | ok a ↦ (ok (some (some a)), t)
        | panic ↦ (panic, t)
        | err e ↦ elim (is_block_not_ready_error e) [
          | true ↦ until_ready fuel m (clock.sleep_second t)
          | false ↦ (ok (some none), t)
        ]
      ]

  unfoldable pub finalize_with : ℕ → Option (Option Bytes) → Call W (Option Bytes)
  finalize_with fuel none = lift (ok none)
  finalize_with fuel (some summary) =
      until_ready fuel (service.finalize_block (create_consensus (or_nil summary))) >>= λ id.
      lift (ok (elim id [ none ↦ none | some i ↦ some (or_nil i) ]))

  unfoldable pub finalize_block : ℕ → Call W (Option Bytes)
  unfolding finalize_with
  finalize_block fuel = until_ready fuel service.summarize_block >>= finalize_with fuel

  unfoldable pub initialize_block : Call W (Unit {0})
  initialize_block = must (service.initialize_block block_id_null)

  unless_invalid_state : Outcome (Unit {0}) × W → Outcome (Unit {0}) × W
  unless_invalid_state (ok u, w) = (ok tt, w)
  unless_invalid_state (err e, w) = elim (is_invalid_state_error e) [
    | true ↦ (ok tt, w)
    | false ↦ (panic, w)
  ]
  unless_invalid_state (panic, w) = (panic, w)

  unfoldable pub cancel_block : Call W (Unit {0})
  unfolding unless_invalid_state
  cancel_block w = unless_invalid_state (service.cancel_block w)

  unfoldable pub broadcast_published_block : Bytes → Call W (Unit {0})
  broadcast_published_block id = must (service.broadcast (text "published") (block_id_as_bytes id))

  unfoldable pub handle_peer_message : PeerMessage → Bytes → Call W (Unit {0})
  handle_peer_message m sender =
      if bytes_eq m.header.message_type (text "published")
      then pure tt
      else if bytes_eq m.header.message_type (text "received")
      then send_block_ack service sender (new_block_id_from_bytes m.content)
      else if bytes_eq m.header.message_type (text "ack")
      then pure tt
      else lift panic
