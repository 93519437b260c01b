-- ===== src/Consensus/Startup/Retries.antt =====
-- An engine registers in the end, if the validator gets ready.
use sawtooth_sdk_go.Base.{text, ◌++◌, some, inr, ◌≡◌, ℕ, zero, suc, Bytes, [], ◌∷◌, Option, none}
use sawtooth_sdk_go.Processor.Errors.{Outcome, ok, err, consensus_error, receive_error}
use sawtooth_sdk_go.Processor.Register.{validator_ready}
use sawtooth_sdk_go.Messaging.Message.{Received, message_of}
use sawtooth_sdk_go.Consensus.Types.{ConsensusBlock, StartupState, new_startup_state_from_protos}
use sawtooth_sdk_go.Consensus.MessageTypes
use sawtooth_sdk_go.Consensus.Startup.{
  ConsensusRegisterResponse, registered, not_ready, refused, StartupNet, StartupCodec,
  initial_retry_delay, Pass, verdict,
}

module _ {W : Type 0} (net : StartupNet W) (codec : StartupCodec) (request : Bytes) where
  -- what the socket delivers after a poll
  abbrev pub after_poll : W → Received × W
  after_poll w = net.recv_msg (net.poll w).1

  -- A poll finds a message that was received without an error.
  abbrev pub Finds : W → Type 0
  Finds w = ((net.poll w).0 ≡ ok (validator_ready ∷ [])) × ((after_poll w).0.error ≡ none)

  -- The message that a poll leads to is a response to a registration.
  abbrev pub Responds : W → ConsensusRegisterResponse → Type 0
  Responds w r =
      let m = message_of (after_poll w).0.msg in
      (m.message_type ≡ MessageTypes.consensus_register_response)
      × (codec.unmarshal_register m.content ≡ inr r)

  -- A response that ends the registration, and how: with the startup state of its chain head, its
  -- peers and the local peer, or with an error if the validator refuses.
  pub data Decides (w : W) : Outcome (Option StartupState) → Type 0 where
    accepts :
        {r : ConsensusRegisterResponse} {head : ConsensusBlock} {local : Bytes}
        → Responds w r
        → r.status ≡ registered
        → r.chain_head ≡ some head
        → r.local_peer_info ≡ some local
        → Decides w (ok (some (new_startup_state_from_protos head r.peers local)))
    refuses :
        {r : ConsensusRegisterResponse} {n : Bytes}
        → Responds w r
        → r.status ≡ refused n
        → Decides w
            (err (consensus_error receive_error (text "Registration failed with status: " ++ n)))

  abbrev verdict_at : W → Pass (Option StartupState)
  verdict_at w = verdict net codec (message_of (after_poll w).0.msg)

  -- Polls that time out, and answers of a validator that is not ready, each of which is followed by
  -- a wait of the initial delay and another request.
  pub data Waits : ℕ → W → W → Type 0 where
    no_wait : {w : W} → Waits zero w w
    times_out :
        {n : ℕ} {w t : W} → (net.poll w).0 ≡ ok [] → Waits n (net.poll w).1 t → Waits (suc n) w t
    is_not_ready :
        {n : ℕ} {w t : W} {r : ConsensusRegisterResponse}
        → Finds w
        → Responds w r
        → r.status ≡ not_ready
        → Waits n
            (net.send_new_msg MessageTypes.consensus_register_request request
              (net.sleep initial_retry_delay (after_poll w).1)).1
            t
        → Waits (suc n) w t
