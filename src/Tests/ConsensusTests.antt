-- ===== src/Tests/ConsensusTests.antt =====
-- Concrete runs of the consensus package.
use sawtooth_sdk_go.Base.{
  false, ◌≡◌, refl, Bytes, bytes_eq, insert, erase, List, [], ◌∷◌, Option, none, some, ◌⊎◌, inl,
  inr,
}
use sawtooth_sdk_go.Processor.Errors.{Error, other, Outcome, ok}
use sawtooth_sdk_go.Processor.Register.{Ready, validator_ready}
use sawtooth_sdk_go.Messaging.Message.{Received}
use sawtooth_sdk_go.Consensus.Types.{ConsensusBlock}
use sawtooth_sdk_go.Consensus.Rpc.{Service, service_rpc}
use sawtooth_sdk_go.Consensus.Rpc.Replies.{Answered, service_rpc-Answered}
use sawtooth_sdk_go.Consensus.Engine.{NotificationCodec, Engine}
use sawtooth_sdk_go.Consensus.Startup.{
  registered, not_ready, ConsensusRegisterResponse, StartupCodec, StartupNet,
}
use sawtooth_sdk_go.Tests.Wire.{Wire, toy_validator}

abbrev idle_service : Service (Unit {0})
idle_service = record { corr_ids = []; world = tt }

service_rpc-Answered_example :
    (bytes : Bytes) × (◌≡◌ {A = Error ⊎ Bytes} (inr (2 ∷ [])) (inr bytes))
    × Answered {A = Bytes} toy_validator
        (λ t. [])
        7
        8
        (λ b. inr b)
        bytes
        (1 ∷ [])
        idle_service
        idle_service
unfolding service_rpc bytes_eq insert erase
service_rpc-Answered_example =
    service_rpc-Answered toy_validator (λ t. []) 7 8 (inr (2 ∷ [])) (λ b. inr b) idle_service
      idle_service (1 ∷ []) refl

-- the content of a notification is the block's id
abbrev notices : NotificationCodec
notices = record {
  unmarshal_connected = λ b. inr (some b);
  unmarshal_disconnected = λ b. inr b;
  unmarshal_peer_message = λ b. inl (other []);
  unmarshal_header = λ b. inl (other []);
  unmarshal_block_new = λ b. inl (other []);
  unmarshal_block_valid = λ b. inr b;
  unmarshal_block_invalid = λ b. inr b;
  unmarshal_block_commit = λ b. inr b;
  marshal_ack = inr [];
  marshal_ping = inr [];
}

-- a block that is valid, one that cannot be read, and one that is committed
abbrev three_notices : Engine Wire
three_notices = record {
  updates = [];
  channel_closed = false;
  corr_ids = [];
  world = record {
    incoming = (904 ∷ 1 ∷ 5 ∷ []) ∷ (903 ∷ 2 ∷ 6 ∷ []) ∷ (906 ∷ 3 ∷ 5 ∷ []) ∷ [];
    sent = [];
  };
}

abbrev three_acks : Wire
three_acks = record { incoming = []; sent = (999 ∷ 1 ∷ []) ∷ (999 ∷ 2 ∷ []) ∷ (999 ∷ 3 ∷ []) ∷ [] }

-- The state is what the polls find, none for a timeout; the content is the response's status.
abbrev polled : List (Option Bytes) → Outcome (List Ready) × List (Option Bytes)
polled [] = (ok [], [])
polled (none ∷ w) = (ok [], w)
polled (some b ∷ w) = (ok (validator_ready ∷ []), some b ∷ w)

abbrev received : List (Option Bytes) → Received × List (Option Bytes)
received (some b ∷ w) = (
  record {
    sender = [];
    msg = some (record { message_type = 801; correlation_id = []; content = b });
    error = none;
  },
  w,
)
received w = (record { sender = []; msg = none; error = some (other []) }, w)

abbrev registering : StartupNet (List (Option Bytes))
registering = record {
  send_new_msg = λ t bytes w. (ok [], w);
  send_msg = λ t bytes c w. (ok tt, w);
  recv_msg = received;
  poll = polled;
  sleep = λ d w. w;
}

abbrev first_head : ConsensusBlock
first_head = record {
  block_id = [];
  previous_id = [];
  signer_id = [];
  block_num = 0;
  payload = [];
  summary = [];
}

abbrev response : Bytes → ConsensusRegisterResponse
response [] = record { status = not_ready; chain_head = none; peers = []; local_peer_info = none }
response b = record {
  status = registered;
  chain_head = some first_head;
  peers = [];
  local_peer_info = some b;
}

abbrev responses : StartupCodec
responses = record {
  marshal_register = λ name version. inr [];
  unmarshal_register = λ b. inr (response b);
  unmarshal_activated = λ b. inl (other []);
  marshal_ack = inr [];
  type_name = λ t. [];
}
