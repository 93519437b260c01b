-- ===== src/Consensus/Startup.antt =====
-- consensus/engine.go: `register`, `waitUntilActive`, and how `start` gets its startup state.
pub mod Retries
use sawtooth_sdk_go.Base.{
  ℕ, zero, suc, ◌*◌, Bytes, text, bytes_eq, ltb, List, [], ◌∷◌, ◌++◌, ◌==◌, Option, none, some, ◌⊎◌,
  inl, inr, Bool, true, false, not, if◌then◌else◌,
}
use sawtooth_sdk_go.Processor.Errors.{
  Error, other, consensus_error, receive_error, error_text, Outcome, ok, err, panic, Call,
}
use sawtooth_sdk_go.Processor.Register.{Ready, validator_ready, shutdown_ready}
use sawtooth_sdk_go.Messaging.Message.{Received, Message, message_of}
use sawtooth_sdk_go.Consensus.MessageTypes
use sawtooth_sdk_go.Consensus.Types.{ConsensusBlock, StartupState, new_startup_state_from_protos}

pub data RegisterResponseStatus : Type 0 where
  registered not_ready : RegisterResponseStatus
  refused : Bytes → RegisterResponseStatus

pub record ConsensusRegisterResponse : Type 0 where
  pub status : RegisterResponseStatus
  pub chain_head : Option ConsensusBlock
  pub peers : List Bytes
  pub local_peer_info : Option Bytes

-- the protobuf library at the messages of the handshake
pub record StartupCodec : Type 0 where
  pub marshal_register : (name version : Bytes) → Error ⊎ Bytes
  pub unmarshal_register : Bytes → Error ⊎ ConsensusRegisterResponse
  pub unmarshal_activated : Bytes → Error ⊎ (ConsensusBlock × List Bytes × Bytes)
  pub marshal_ack : Error ⊎ Bytes
  pub type_name : ℕ → Bytes

-- what the handshake calls; `poll` yields the sockets that are ready, none after its timeout
pub record StartupNet (W : Type 0) : Type 0 where
  pub send_new_msg : ℕ → Bytes → Call W Bytes
  pub send_msg : ℕ → Bytes → Bytes → Call W (Unit {0})
  pub recv_msg : W → Received × W
  pub poll : Call W (List Ready)
  pub sleep : ℕ → W → W

-- in milliseconds
abbrev pub initial_retry_delay : ℕ
initial_retry_delay = 100

abbrev pub max_retry_delay : ℕ
max_retry_delay = 3000

unfoldable pub next_delay : ℕ → ℕ
next_delay d =
    if ltb d max_retry_delay
    then if ltb max_retry_delay (d * 2) then max_retry_delay else d * 2
    else d

-- what a pass of a loop comes to: it goes on, or the function returns
pub data Pass (A : Type 0) : Type 0 where
  again : Pass A
  returns : Outcome A → Pass A

abbrev pub unexpected_type : (ℕ → Bytes) → ℕ → Error
unexpected_type type_name t =
    consensus_error receive_error (text "Received unexpected message type: " ++ type_name t)

abbrev pub polling_failed : Error → Error
polling_failed e = other (text "Polling failed: " ++ error_text e)

startup_of : ConsensusRegisterResponse → Option ConsensusBlock → Option Bytes → Option StartupState
startup_of r (some head) (some local) = some (new_startup_state_from_protos head r.peers local)
startup_of r none local = none
startup_of r (some head) none = none

of_status : ConsensusRegisterResponse → RegisterResponseStatus → Pass (Option StartupState)
unfolding startup_of
of_status r registered = returns (ok (startup_of r r.chain_head r.local_peer_info))
of_status r not_ready = again
of_status r (refused n) =
    returns (err (consensus_error receive_error (text "Registration failed with status: " ++ n)))

of_response : Error ⊎ ConsensusRegisterResponse → Pass (Option StartupState)
unfolding of_status
of_response (inl e) = returns (err e)
of_response (inr r) = of_status r r.status

-- the result of a function with fuel; `none` is out of fuel
abbrev pub with_fuel : {A W : Type 0} → Outcome A × W → Outcome (Option A) × W
with_fuel (ok a, w) = (ok (some a), w)
with_fuel (err e, w) = (err e, w)
with_fuel (panic, w) = (panic, w)

module _ {W : Type 0} (net : StartupNet W) (codec : StartupCodec) where
  -- what a message means for the registration; `again` asks for a retry
  unfoldable pub verdict : Message → Pass (Option StartupState)
  unfolding of_response
  verdict m =
      if not (m.message_type == MessageTypes.consensus_register_response)
      then returns (err (unexpected_type codec.type_name m.message_type))
      else of_response (codec.unmarshal_register m.content)

  -- The error of the second request is not looked at.
  unfoldable pub retry : Bytes → ℕ → W → W
  retry request delay w =
      (net.send_new_msg MessageTypes.consensus_register_request request (net.sleep delay w)).1

  -- the inner loop, over the sockets that are ready
  unfoldable pub each_ready : Bytes → ℕ → List Ready → W → Pass (Option StartupState) × W
  each_ready request delay [] w = (again, w)
  each_ready request delay (shutdown_ready ∷ rest) w =
      (returns (err (other (text "Received shutdown while registering"))), w)
  each_ready request delay (validator_ready ∷ rest) w =
      let (r, v) = net.recv_msg w in
      elim r.error [
        | some e ↦ (returns (err e), v)
        | none ↦ elim (verdict (message_of r.msg)) [
          | again ↦ each_ready request (next_delay delay) rest (retry request delay v)
          | returns o ↦ (returns o, v)
        ]
      ]

  -- The delay starts anew with each poll.
  unfoldable pub register_loop : ℕ → Bytes → Call W (Option (Option StartupState))
  register_loop zero request w = (ok none, w)
  register_loop (suc fuel) request w =
      let (polled, u) = net.poll w in
      elim polled [
        | err e ↦ (err (polling_failed e), u)
        | panic ↦ (panic, u)
        | ok ready ↦
            let (pass, t) = each_ready request initial_retry_delay ready u in
            elim pass [ again ↦ register_loop fuel request t | returns o ↦ with_fuel (o, t) ]
      ]

  register_sent : ℕ → Bytes → Outcome Bytes × W → Outcome (Option (Option StartupState)) × W
  register_sent fuel request (ok c, w) = register_loop fuel request w
  register_sent fuel request (err e, w) = (err e, w)
  register_sent fuel request (panic, w) = (panic, w)

  register_request : ℕ → Error ⊎ Bytes → Call W (Option (Option StartupState))
  unfolding register_sent
  register_request fuel (inl e) w = (err e, w)
  register_request fuel (inr request) w =
      register_sent fuel request
        (net.send_new_msg MessageTypes.consensus_register_request request w)

  unfoldable pub register_engine : ℕ → Bytes → Bytes → Call W (Option (Option StartupState))
  unfolding register_request
  register_engine fuel name version = register_request fuel (codec.marshal_register name version)

  ack_sent : StartupState → Outcome (Unit {0}) × W → Outcome StartupState × W
  ack_sent s (ok u, w) = (ok s, w)
  ack_sent s (err e, w) = (err e, w)
  ack_sent s (panic, w) = (panic, w)

  send_ack : StartupState → Bytes → Error ⊎ Bytes → W → Outcome StartupState × W
  unfolding ack_sent
  send_ack s corr_id (inl e) w = (err e, w)
  send_ack s corr_id (inr bytes) w =
      ack_sent s (net.send_msg MessageTypes.consensus_notify_ack bytes corr_id w)

  activated : Bytes → Error ⊎ (ConsensusBlock × List Bytes × Bytes) → W → Outcome StartupState × W
  unfolding send_ack
  activated corr_id (inl e) w = (err e, w)
  activated corr_id (inr (head, peers, local)) w =
      send_ack (new_startup_state_from_protos head peers local) corr_id codec.marshal_ack w

  unfoldable pub activation : Message → W → Outcome StartupState × W
  unfolding activated
  activation m w =
      if not (m.message_type == MessageTypes.consensus_notify_engine_activated)
      then (err (unexpected_type codec.type_name m.message_type), w)
      else activated m.correlation_id (codec.unmarshal_activated m.content) w

  -- the first socket that is ready decides
  first_ready : List Ready → W → Option (Outcome StartupState) × W
  first_ready [] w = (none, w)
  first_ready (shutdown_ready ∷ rest) w =
      (some (err (other (text "Received shutdown while waiting for activation"))), w)
  first_ready (validator_ready ∷ rest) w =
      let (r, v) = net.recv_msg w in
      elim r.error [
        | some e ↦ (some (err e), v)
        | none ↦ let (o, t) = activation (message_of r.msg) v in (some o, t)
      ]

  unfoldable pub wait_until_active : ℕ → Call W (Option StartupState)
  unfolding first_ready
  wait_until_active zero w = (ok none, w)
  wait_until_active (suc fuel) w =
      let (polled, u) = net.poll w in
      elim polled [
        | err e ↦ (err (polling_failed e), u)
        | panic ↦ (panic, u)
        | ok ready ↦
            let (first, t) = first_ready ready u in
            elim first [ none ↦ wait_until_active fuel t | some o ↦ with_fuel (o, t) ]
      ]

  -- an error behind what failed for which engine
  failed_for : {A : Type 0} → Bytes → Bytes → Bytes → Outcome A × W → Outcome A × W
  failed_for what name version (ok a, w) = (ok a, w)
  failed_for what name version (err e, w) = (
    err (
        other (
          what
          ++ (text " (" ++ (name ++ (text ", " ++ (version ++ (text "): " ++ error_text e))))))),
    w,
  )
  failed_for what name version (panic, w) = (panic, w)

  startup_known :
      ℕ
      → Bytes
      → Bytes
      → Outcome (Option (Option StartupState)) × W
      → Outcome (Option StartupState) × W
  unfolding failed_for
  startup_known fuel name version (ok none, w) = (ok none, w)
  startup_known fuel name version (ok (some none), w) =
      failed_for (text "Error waiting for engine activation") name version
        (wait_until_active fuel w)
  startup_known fuel name version (ok (some (some s)), w) = (ok (some s), w)
  startup_known fuel name version (err e, w) = (err e, w)
  startup_known fuel name version (panic, w) = (panic, w)

  -- `start` up to "Consensus engine is active"
  unfoldable pub startup : ℕ → Bytes → Bytes → Call W (Option StartupState)
  unfolding startup_known
  startup fuel name version w = startup_known fuel name version (
      failed_for (text "Error registering engine") name version
        (register_engine fuel name version w))
