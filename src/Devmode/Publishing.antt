-- ===== src/Devmode/Publishing.antt =====
-- examples/devmode_consensus/engine.go: the loop of `Start`.
pub mod Quiet
pub mod Finalizing
pub mod Heights
pub mod Stop
use sawtooth_sdk_go.Base.{
  ℕ, zero, suc, Bytes, text, bytes_eq, Dict, lookup, List, [], ◌∷◌, ◌++◌, Option, none, some, Bool,
  true, false, not, ◌&&◌, ℤ, pos, ltb_ℤ, sub_ℕ, sub_int, add_int, mul_int, atoi, if◌then◌else◌,
}
use sawtooth_sdk_go.Processor.Errors.{
  Outcome, ok, err, panic, is_block_not_ready_error, is_invalid_state_error, Call, continue_with,
  lift, pure, ◌>>=◌, ◌>>◌,
}
use sawtooth_sdk_go.Processor.Store.{or_nil}
use sawtooth_sdk_go.Consensus.Types.{
  Block, block_id_null, block_id_as_bytes, new_block_id_from_bytes, PeerMessage, StartupState,
  ConsensusUpdate, peer_connected, peer_disconnected, peer_message_arrived, block_new, block_valid,
  block_invalid, block_commit, shutdown_struct, shutdown_pointer,
}
use sawtooth_sdk_go.Consensus.Interface.{ConsensusService}
use sawtooth_sdk_go.Devmode.{must, create_consensus, handle_block_new, handle_block_valid}
use sawtooth_sdk_go.Devmode.Blocks.{
  Clock, calculate_wait_time, finalize_block, initialize_block, cancel_block,
  broadcast_published_block, handle_peer_message,
}

-- `DevmodeEngineImpl`; `start` and `wait_time` are in nanoseconds
pub record DevmodeEngine (W : Type 0) : Type 0 where
  pub chain_head : Block
  pub wait_time : ℤ
  pub published_at_height : Bool
  pub start : ℕ
  pub world : W

-- What the loop's `select` takes: an update, nil from the channel once it is closed, or the
-- timeout.
pub data Tick : Type 0 where
  arrives : ConsensusUpdate → Tick
  closed timeout : Tick

-- whether the loop goes on, or `Start` returns
pub data Loop : Type 0 where
  goes_on returned out_of_fuel : Loop

abbrev pub settled : Option (Unit {0}) → Loop
settled none = out_of_fuel
settled (some u) = goes_on

module _ {W : Type 0} (service : ConsensusService W) (clock : Clock W) where
  -- a call on the world only, after which the loop goes on as told
  with_world : {A : Type 0} → (A → Loop) → Outcome A × W → Call (DevmodeEngine W) Loop
  with_world f (ok a, w) e = (ok (f a), record e { world = w })
  with_world f (err x, w) e = (err x, record e { world = w })
  with_world f (panic, w) e = (panic, record e { world = w })

  -- the wait for the next height, after which a block is begun
  new_height : Outcome ℤ × W → DevmodeEngine W → Outcome Loop × DevmodeEngine W
  unfolding with_world
  new_height (ok wait, w) e =
      let (start, t) = clock.now w in
      with_world (λ u. goes_on) (initialize_block service clock t)
        (record e { wait_time = wait; published_at_height = false; start = start })
  new_height (err x, w) e = (err x, record e { world = w })
  new_height (panic, w) e = (panic, record e { world = w })

  after_cancel : Bytes → Outcome (Unit {0}) × W → DevmodeEngine W → Outcome Loop × DevmodeEngine W
  unfolding new_height
  after_cancel head (ok u, w) e = new_height (calculate_wait_time service clock head w) e
  after_cancel head (err x, w) e = (err x, record e { world = w })
  after_cancel head (panic, w) e = (panic, record e { world = w })

  unfoldable pub handle_block_commit : Bytes → Call (DevmodeEngine W) Loop
  unfolding after_cancel
  handle_block_commit head e = after_cancel head (cancel_block service clock e.world) e

  -- the type switch on an update
  unfoldable pub on_update : ℕ → ConsensusUpdate → Call (DevmodeEngine W) Loop
  unfolding with_world
  on_update fuel shutdown_struct e = (ok returned, e)
  on_update fuel (block_new b) e = with_world (λ u. goes_on) (handle_block_new service b e.world) e
  on_update fuel (block_valid id) e =
      with_world settled (handle_block_valid service fuel id e.world) e
  on_update fuel (block_commit id) e = handle_block_commit id e
  on_update fuel (peer_message_arrived m sender) e =
      with_world (λ u. goes_on) (handle_peer_message service clock m sender e.world) e
  on_update fuel (peer_connected p) e = (ok goes_on, e)
  on_update fuel (peer_disconnected p) e = (ok goes_on, e)
  on_update fuel (block_invalid id) e = (ok goes_on, e)
  on_update fuel shutdown_pointer e = (ok goes_on, e)

  -- the block is marked as published before it is broadcast
  published : Outcome (Option Bytes) × W → DevmodeEngine W → Outcome Loop × DevmodeEngine W
  unfolding with_world
  published (ok none, w) e = (ok out_of_fuel, record e { world = w })
  published (ok (some id), w) e =
      with_world (λ u. goes_on) (broadcast_published_block service clock id w)
        (record e { published_at_height = true })
  published (err x, w) e = (err x, record e { world = w })
  published (panic, w) e = (panic, record e { world = w })

  -- `!publishedAtHeight && (now - start > waitTime)`: the clock is read only if need be
  unfoldable pub on_timeout : ℕ → Call (DevmodeEngine W) Loop
  unfolding published
  on_timeout fuel e =
      if e.published_at_height
      then (ok goes_on, e)
      else let (now, t) = clock.now e.world in
        if ltb_ℤ e.wait_time (clock.nanoseconds_after now e.start)
        then published (finalize_block service clock fuel t) e
        else (ok goes_on, record e { world = t })

  unfoldable pub on_tick : ℕ → Tick → Call (DevmodeEngine W) Loop
  on_tick fuel (arrives u) e = on_update fuel u e
  on_tick fuel closed e = (ok goes_on, e)
  on_tick fuel timeout e = on_timeout fuel e

  -- the rest of the loop behind a tick
  unfoldable pub go_on :
      (DevmodeEngine W → Outcome Loop × DevmodeEngine W)
      → Outcome Loop × DevmodeEngine W
      → Outcome Loop × DevmodeEngine W
  go_on rest (ok goes_on, e) = rest e
  go_on rest (ok returned, e) = (ok returned, e)
  go_on rest (ok out_of_fuel, e) = (ok out_of_fuel, e)
  go_on rest (err x, e) = (err x, e)
  go_on rest (panic, e) = (panic, e)

  -- the loop of `Start`
  unfoldable pub run : ℕ → List Tick → Call (DevmodeEngine W) Loop
  unfolding go_on
  run fuel [] e = (ok goes_on, e)
  run fuel (x ∷ xs) e = go_on (run fuel xs) (on_tick fuel x e)

  begun : ℕ → List Tick → Outcome Loop × DevmodeEngine W → Outcome Loop × DevmodeEngine W
  begun fuel ticks (ok l, e) = run fuel ticks e
  begun fuel ticks (err x, e) = (err x, e)
  begun fuel ticks (panic, e) = (panic, e)

  -- `Start`: an engine that is new has the startup state's head, and begins a height
  unfoldable pub start_engine : ℕ → StartupState → List Tick → W → Outcome Loop × DevmodeEngine W
  unfolding new_height begun
  start_engine fuel startup ticks w = begun fuel ticks (
      new_height (calculate_wait_time service clock startup.chain_head.block_id w) (record {
        chain_head = startup.chain_head;
        wait_time = pos 0;
        published_at_height = false;
        start = 0;
        world = w;
      }))
