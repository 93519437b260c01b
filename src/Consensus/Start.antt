-- ===== src/Consensus/Start.antt =====
-- consensus/engine.go: `start` and `Start`. Dialling is `connect`, and whatever the implementation does
-- once it is started, with the startup state, is part of the poll.
use sawtooth_sdk_go.Base.{ℕ, zero, suc, Bytes, [], Option, none, some, Bool, true, false}
use sawtooth_sdk_go.Processor.Errors.{Outcome, ok, err, panic, Call}
use sawtooth_sdk_go.Messaging.Message.{DataConnection}
use sawtooth_sdk_go.Messaging.Connection.{MessageCodec}
use sawtooth_sdk_go.Consensus.Types.{StartupState}
use sawtooth_sdk_go.Consensus.Engine.{NotificationCodec}
use sawtooth_sdk_go.Consensus.Startup.{StartupNet, StartupCodec, startup}
use sawtooth_sdk_go.Consensus.Shutdown.{EngineNet, engine_loop}

module _ {W : Type 0} (connect : Call W (Unit {0})) (start_impl : StartupState → W → W)
    (startup_net : StartupNet W) (startup_codec : StartupCodec) (net : EngineNet W)
    (messages : MessageCodec) (codec : NotificationCodec) (validator service : DataConnection W)
    (name version : Bytes) where
  active : ℕ → Outcome (Option StartupState) × W → Outcome (Option Bool) × W
  active fuel (ok none, w) = (ok none, w)
  active fuel (ok (some s), w) =
      let (r, e) =
        engine_loop net messages codec validator service fuel (record {
          updates = [];
          channel_closed = false;
          corr_ids = [];
          world = start_impl s w;
        }) in
      (r, e.world)
  active fuel (err e, w) = (err e, w)
  active fuel (panic, w) = (panic, w)

  connected : ℕ → Outcome (Unit {0}) × W → Outcome (Option Bool) × W
  unfolding active
  connected fuel (ok u, w) = active fuel (startup startup_net startup_codec fuel name version w)
  connected fuel (err e, w) = (err e, w)
  connected fuel (panic, w) = (panic, w)

  -- `start`: whether to reconnect; `none` is out of fuel
  unfoldable pub start : ℕ → Call W (Option Bool)
  unfolding connected
  start fuel w = connected fuel (connect w)

  -- `Start`: the first fuel is for the number of starts, the second for the polls of each
  unfoldable pub start_engine : ℕ → ℕ → Call W (Option (Unit {0}))
  start_engine zero polls w = (ok none, w)
  start_engine (suc fuel) polls w =
      let (result, t) = start polls w in
      elim result [
        | ok none ↦ (ok none, t)
        | ok (some reconnect) ↦ elim reconnect [
          | true ↦ start_engine fuel polls t
          | false ↦ (ok (some tt), t)
        ]
        | err e ↦ (err e, t)
        | panic ↦ (panic, t)
      ]
