-- ===== src/Consensus/Shutdown.antt =====
-- consensus/engine.go: the monitor, `receiveShutdown`, `performShutdown`, and the polling loop of
-- `start`. The closed sockets are not in the state: nothing is sent on them afterwards.
use sawtooth_sdk_go.Base.{
  ℕ, zero, suc, Bytes, text, bytes_eq, List, [], ◌∷◌, ◌++◌, ◌==◌, Option, none, some, ◌⊎◌, inl, inr,
  Bool, true, false, if◌then◌else◌,
}
use sawtooth_sdk_go.Processor.Errors.{Error, other, error_text, ok, err, panic, Call}
use sawtooth_sdk_go.Messaging.Message.{DataConnection}
use sawtooth_sdk_go.Messaging.Connection.{MessageCodec}
use sawtooth_sdk_go.Consensus.Types.{shutdown_pointer}
use sawtooth_sdk_go.Consensus.Engine.{Engine, NotificationCodec, receive_validator, receive_service}

pub data EngineSocket : Type 0 where
  validator_socket service_socket monitor_socket shutdown_socket : EngineSocket

-- The poll, the monitor's events (`event_disconnected` is ZeroMQ's number), and the two ends of the
-- shutdown connection. While the engine polls, the implementation's calls of the service change the
-- correlation ids under way.
pub record EngineNet (W : Type 0) : Type 0 where
  pub poll : Call (Engine W) (List EngineSocket)
  pub recv_event : W → (Error ⊎ ℕ) × W
  pub event_disconnected : ℕ
  pub shutdown_tx : DataConnection W
  pub shutdown_rx : DataConnection W

-- `self.updateChan <- &UpdateShutdown{}`, where the update is a pointer, and the close of the channel,
-- on which nothing is sent afterwards, since the polling loop returns
unfoldable pub perform_shutdown : {W : Type 0} → Engine W → Engine W
perform_shutdown e = record e {
  updates = e.updates ++ shutdown_pointer ∷ [];
  channel_closed = true;
}

-- the data of a command; nil on an error
abbrev pub command_of : Error ⊎ (Bytes × Bytes) → Bytes
command_of (inl e) = []
command_of (inr (sender, bytes)) = bytes

module _ {W : Type 0} (net : EngineNet W) where
  monitor_event : Error ⊎ ℕ → W → Bool × W
  monitor_event (inl e) w = (false, w)
  monitor_event (inr event) w =
      (event == net.event_disconnected, (net.shutdown_tx.send_data [] (text "restart") w).1)

  -- Whatever the event is, a restart is asked for.
  unfoldable pub receive_monitor : W → Bool × W
  unfolding monitor_event
  receive_monitor w = let (event, t) = net.recv_event w in monitor_event event t

  -- An error, or another command, ends the loop and shuts nothing down.
  unfoldable pub receive_shutdown : Engine W → Bool × Engine W
  receive_shutdown e =
      let (received, w) = net.shutdown_rx.recv_data e.world in
      let e' = record e { world = w } in
      let cmd = command_of received in
      if bytes_eq cmd (text "restart")
      then (true, perform_shutdown e')
      else if bytes_eq cmd (text "shutdown")
      then (false, perform_shutdown e')
      else (false, e')

  module _ (messages : MessageCodec) (codec : NotificationCodec)
      (validator service : DataConnection W) where
    -- the sockets that are ready; a result is what `start` returns
    unfoldable pub each_socket : List EngineSocket → Call (Engine W) (Option Bool)
    each_socket [] e = (ok none, e)
    each_socket (validator_socket ∷ rest) e =
        let (r, e') = receive_validator messages codec validator service e in
        elim r [ ok u ↦ each_socket rest e' | err x ↦ (err x, e') | panic ↦ (panic, e') ]
    each_socket (service_socket ∷ rest) e =
        each_socket rest (receive_service messages codec validator service e)
    each_socket (monitor_socket ∷ rest) e =
        each_socket rest (record e { world = (receive_monitor e.world).1 })
    each_socket (shutdown_socket ∷ rest) e =
        let (restart, e') = receive_shutdown e in (ok (some restart), e')

    -- the main polling loop; `none` is out of fuel
    unfoldable pub engine_loop : ℕ → Call (Engine W) (Option Bool)
    engine_loop zero e = (ok none, e)
    engine_loop (suc fuel) e =
        let (polled, e') = net.poll e in
        elim polled [
          | err x ↦ (err (other (text "Polling failed: " ++ error_text x)), e')
          | panic ↦ (panic, e')
          | ok sockets ↦
              let (r, t) = each_socket sockets e' in
              elim r [
                | ok none ↦ engine_loop fuel t
                | ok (some restart) ↦ (ok (some restart), t)
                | err x ↦ (err x, t)
                | panic ↦ (panic, t)
              ]
        ]
