-- ===== src/Processor/Shutdown.antt =====
-- processor/processor.go: the monitor, `Shutdown`, `receiveShutdown`, `shutdown`, the polling loop
-- of `start`, and the loop of `Start`. The closed queue and sockets are not in the state: nothing
-- is sent on them afterwards. A worker runs on its own, and is seen in what the poll does to the
-- queue.
use sawtooth_sdk_go.Base.{
  ℕ, zero, suc, Bytes, text, bytes_eq, List, [], ◌∷◌, ◌++◌, ◌==◌, Option, none, some, ◌⊎◌, inl, inr,
  Bool, true, false, if◌then◌else◌,
}
use sawtooth_sdk_go.Processor.Errors.{Error, other, error_text, Outcome, ok, err, panic, Call}
use sawtooth_sdk_go.Processor.Worker.{ProcessCodec}
use sawtooth_sdk_go.Processor.Register.{RegisterCodec, Registrar, Registering}
use sawtooth_sdk_go.Processor.Router.{Router, bytes_or_nil, receive_validator, receive_workers}
use sawtooth_sdk_go.Processor.Start.{TransactionProcessor, register_handlers}
use sawtooth_sdk_go.Messaging.Message.{DataConnection, tp_unregister_request}
use sawtooth_sdk_go.Messaging.Connection.{MessageCodec}

pub data ProcessorSocket : Type 0 where
  validator_socket monitor_socket workers_socket shutdown_socket : ProcessorSocket

-- The sockets of a processor: `connect` makes them, `poll` waits for some that are ready, and
-- `event_disconnected` is ZeroMQ's number. `await_unregister` is what three seconds do, in which
-- the validator's reply may be received; `await_worker` the wait for a worker to end.
pub record ProcessorNet (W : Type 0) : Type 0 where
  pub connect : Call W (Unit {0})
  pub poll : Call (Router W) (List ProcessorSocket)
  pub recv_event : W → (Error ⊎ ℕ) × W
  pub event_disconnected : ℕ
  pub shutdown_tx : DataConnection W
  pub shutdown_rx : DataConnection W
  pub send_new_msg : ℕ → Bytes → Call W Bytes
  pub await_unregister : Bytes → W → W
  pub await_worker : W → W

-- `Shutdown()`: there is a connection once the processor has started
unfoldable pub request_shutdown : {W : Type 0} → Option (DataConnection W) → W → W
request_shutdown none w = w
request_shutdown (some shutdown_tx) w = (shutdown_tx.send_data [] (text "shutdown") w).1

-- the data of a command; nil on an error
abbrev pub command_of : Error ⊎ (Bytes × Bytes) → Bytes
command_of (inl e) = []
command_of (inr (sender, bytes)) = bytes

module _ {W : Type 0} (net : ProcessorNet W) where
  monitor_event : Error ⊎ ℕ → W → Bool × W
  monitor_event (inl e) w = (false, w)
  monitor_event (inr event) w =
      (event == net.event_disconnected, (net.shutdown_tx.send_data [] (text "restart") w).1)

  -- Whatever the event is, a restart is asked for.
  unfoldable pub receive_monitor : W → Bool × W
  unfolding monitor_event
  receive_monitor w = let (event, t) = net.recv_event w in monitor_event event t

  -- waits for each of some workers
  unfoldable pub await_workers : ℕ → W → W
  await_workers zero w = w
  await_workers (suc n) w = await_workers n (net.await_worker w)

  -- The errors are logged. Nothing is ever sent on the channel `unregistered`, so the whole three
  -- seconds pass, whatever the validator answers.
  unregister_sent : Outcome Bytes × W → Outcome (Unit {0}) × W
  unregister_sent (ok corr_id, w) = (ok tt, net.await_unregister corr_id w)
  unregister_sent (err e, w) = (ok tt, net.await_unregister [] w)
  unregister_sent (panic, w) = (panic, w)

  unfoldable pub unregister : Error ⊎ Bytes → Call W (Unit {0})
  unfolding unregister_sent
  unregister request w =
      unregister_sent (net.send_new_msg tp_unregister_request (bytes_or_nil request) w)

  workers_awaited : ℕ → Outcome (Unit {0}) × W → Outcome (Unit {0}) × W
  workers_awaited n (ok u, w) = (ok tt, await_workers n w)
  workers_awaited n (err e, w) = (err e, w)
  workers_awaited n (panic, w) = (panic, w)

  -- `shutdown`, with its argument `force`
  unfoldable pub shutdown : ℕ → Error ⊎ Bytes → Bool → Call W (Unit {0})
  unfolding workers_awaited
  shutdown worker_count request true w = workers_awaited worker_count (ok tt, w)
  shutdown worker_count request false w = workers_awaited worker_count (unregister request w)

  -- whether to restart; an error of `shutdown` is logged
  shut_down : Bool → Outcome (Unit {0}) × W → Outcome Bool × W
  shut_down restart (ok u, w) = (ok restart, w)
  shut_down restart (err e, w) = (ok false, w)
  shut_down restart (panic, w) = (panic, w)

  -- A command other than these ends the loop and shuts nothing down.
  unfoldable pub receive_shutdown : ℕ → Error ⊎ Bytes → Call W Bool
  unfolding shut_down
  receive_shutdown worker_count request w =
      let (received, t) = net.shutdown_rx.recv_data w in
      let cmd = command_of received in
      if bytes_eq cmd (text "restart")
      then shut_down true (shutdown worker_count request true t)
      else if bytes_eq cmd (text "shutdown")
      then shut_down false (shutdown worker_count request false t)
      else (ok false, t)

  module _ (codec : MessageCodec) (processes : ProcessCodec) (ping : Error ⊎ Bytes)
      (unregister_request : Error ⊎ Bytes) (validator workers : DataConnection W)
      (registrar : Registrar W) (registers : RegisterCodec) (p : TransactionProcessor W) where
    in_router : Router W → Outcome Bool × W → Outcome (Option Bool) × Router W
    in_router r (ok restart, w) = (ok (some restart), record r { world = w })
    in_router r (err e, w) = (err e, record r { world = w })
    in_router r (panic, w) = (panic, record r { world = w })

    -- the sockets that are ready; a result is what `start` returns
    unfoldable pub each_socket : List ProcessorSocket → Call (Router W) (Option Bool)
    unfolding in_router
    each_socket [] r = (ok none, r)
    each_socket (validator_socket ∷ rest) r =
        each_socket rest (receive_validator codec processes ping p.max_queue validator workers r)
    each_socket (monitor_socket ∷ rest) r =
        each_socket rest (record r { world = (receive_monitor r.world).1 })
    each_socket (workers_socket ∷ rest) r =
        each_socket rest (receive_workers codec processes ping p.max_queue validator workers r)
    each_socket (shutdown_socket ∷ rest) r =
        in_router r (receive_shutdown p.n_threads unregister_request r.world)

    -- the main polling loop; `none` is out of fuel
    unfoldable pub route : ℕ → Call (Router W) (Option Bool)
    route zero r = (ok none, r)
    route (suc fuel) r =
        let (polled, r') = net.poll r in
        elim polled [
          | err e ↦ (err (other (text "Polling failed: " ++ error_text e)), r')
          | panic ↦ (panic, r')
          | ok sockets ↦
              let (result, t) = each_socket sockets r' in
              elim result [
                | ok none ↦ route fuel t
                | ok (some restart) ↦ (ok (some restart), t)
                | err e ↦ (err e, t)
                | panic ↦ (panic, t)
              ]
        ]

    all_registered : ℕ → Registering W → Outcome (Option Bool) × W
    all_registered fuel (ok u, (queue, w)) =
        let (result, r) = route fuel (record { ids = []; queue = queue; world = w }) in
        (result, r.world)
    all_registered fuel (err e, (queue, w)) = (err e, w)
    all_registered fuel (panic, (queue, w)) = (panic, w)

    connected : ℕ → Outcome (Unit {0}) × W → Outcome (Option Bool) × W
    unfolding all_registered
    connected fuel (ok u, w) =
        all_registered fuel (register_handlers registrar registers p.max_queue p.handlers [] w)
    connected fuel (err e, w) = (err e, w)
    connected fuel (panic, w) = (panic, w)

    -- `start`: whether to reconnect
    unfoldable pub start : ℕ → Call W (Option Bool)
    unfolding connected
    start fuel w = connected fuel (net.connect w)

    -- `Start`: the first fuel is for the number of starts, the second for the polls of each
    unfoldable pub start_processor : ℕ → ℕ → Call W (Option (Unit {0}))
    start_processor zero polls w = (ok none, w)
    start_processor (suc fuel) polls w =
        let (result, t) = start polls w in
        elim result [
          | ok none ↦ (ok none, t)
          | ok (some reconnect) ↦ elim reconnect [
            | true ↦ start_processor fuel polls t
            | false ↦ (ok (some tt), t)
          ]
          | err e ↦ (err e, t)
          | panic ↦ (panic, t)
        ]
