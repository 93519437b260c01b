-- ===== src/Tests/DevmodeTests.antt =====
-- Concrete runs of devmode: a fork that is decided at the height of the shorter chain, a block that
-- is published, and the loop.
use sawtooth_sdk_go.Base.{
  ◌≡◌, ◌≤◌, ◌+◌, sym, refl, ℕ, zero, suc, ◌-◌, Bytes, bytes_eq, bytes_ltb, lookup, List, [], ◌∷◌,
  some, false, ltb, if◌then◌else◌, text, pos, arith,
}
use sawtooth_sdk_go.Processor.Errors.{
  ended-eq, ok, err, consensus_error, block_not_ready_error, is_block_not_ready_error, Call,
}
use sawtooth_sdk_go.Consensus.Types.{Block, peer_connected, block_invalid}
use sawtooth_sdk_go.Consensus.Interface.{ConsensusService}
use sawtooth_sdk_go.Consensus.Engine.{Engine}
use sawtooth_sdk_go.Consensus.Shutdown.{perform_shutdown}
use sawtooth_sdk_go.Devmode.{get_block, must, block_in, fork_choice}
use sawtooth_sdk_go.Devmode.Forks.{parent, fork_choice-Walk}
use sawtooth_sdk_go.Devmode.Blocks.{
  Clock, min_wait_key, max_wait_key, calculate_wait_time, finalize_block,
}
use sawtooth_sdk_go.Devmode.Publishing.{DevmodeEngine, arrives, timeout, run}
use sawtooth_sdk_go.Devmode.Blocks.Ready.{
  ready, not_yet, finalize_block-NotReady, calculate_wait_time_default,
}
use sawtooth_sdk_go.Devmode.Publishing.Heights.{run_publishes_once}
use sawtooth_sdk_go.Devmode.Publishing.Quiet.{Counts}
use sawtooth_sdk_go.Devmode.Publishing.Stop.{ticks_from, shutdown_does_not_stop}

abbrev genesis_child : Block
genesis_child = record {
  block_id = 5 ∷ [];
  previous_id = 1 ∷ [];
  signer_id = [];
  block_num = 1;
  payload = [];
  summary = [];
}

abbrev chain_head : Block
chain_head = record genesis_child { block_id = 9 ∷ []; previous_id = 5 ∷ []; block_num = 2 }

abbrev rival : Block
rival = record genesis_child { block_id = 7 ∷ [] }

-- a service of which every call succeeds and does nothing
abbrev obliging : {W : Type 0} → ConsensusService W
obliging = record {
  send_to = λ peer kind bytes w. (ok tt, w);
  broadcast = λ kind bytes w. (ok tt, w);
  initialize_block = λ id w. (ok tt, w);
  summarize_block = λ w. (ok (7 ∷ []), w);
  finalize_block = λ bytes w. (ok (9 ∷ []), w);
  cancel_block = λ w. (ok tt, w);
  check_blocks = λ ids w. (ok tt, w);
  commit_block = λ id w. (ok tt, w);
  ignore_block = λ id w. (ok tt, w);
  fail_block = λ id w. (ok tt, w);
  get_blocks = λ ids w. (ok ((5 ∷ [], genesis_child) ∷ []), w);
  get_chain_head = λ w. (ok chain_head, w);
  get_settings = λ id names w. (ok ((min_wait_key, text "5") ∷ (max_wait_key, text "9") ∷ []), w);
  get_state = λ id addresses w. (ok [], w);
}

-- the state is the list of the blocks that were committed
abbrev chain : ConsensusService (List Bytes)
chain = record obliging { commit_block = λ id w. (ok tt, id ∷ w) }

fork_choice-Walk_example :
    fork_choice chain 2 (7 ∷ []) rival chain_head [] ≡ (ok (some tt), (7 ∷ []) ∷ [])
unfolding get_block must block_in lookup bytes_eq bytes_ltb
fork_choice-Walk_example =
    fork_choice-Walk chain (7 ∷ []) rival chain_head genesis_child [] [] (omega arith)
      (parent refl refl refl)

-- The state is the seconds that passed: a block is ready to be summarized after one, and to be
-- finalized after three.
abbrev summary_at : Call ℕ Bytes
summary_at zero = (err (consensus_error block_not_ready_error []), zero)
summary_at (suc n) = (ok (7 ∷ []), suc n)

abbrev final_at : Call ℕ Bytes
final_at n = (if ltb n 3 then err (consensus_error block_not_ready_error []) else ok (9 ∷ []), n)

abbrev slow : ConsensusService ℕ
slow = record obliging { summarize_block = summary_at; finalize_block = λ bytes. final_at }

abbrev seconds : Clock ℕ
seconds = record {
  now = λ w. (w, w);
  intn = λ n w. (pos 0, w);
  sleep_second = suc;
  nanoseconds_after = λ n m. pos (n - m);
}

finalize_block-NotReady_example : finalize_block slow seconds 4 0 ≡ (ok (some (9 ∷ [])), 3)
unfolding is_block_not_ready_error
finalize_block-NotReady_example =
    finalize_block-NotReady slow seconds 1 2 4 0 1 1 3 3 (7 ∷ []) (9 ∷ []) (not_yet refl refl ready)
      refl (not_yet refl refl (not_yet refl refl ready)) refl (omega arith) (omega arith)

calculate_wait_time_default_test : calculate_wait_time slow seconds [] 0 ≡ (ok (pos 0), 0)
calculate_wait_time_default_test = calculate_wait_time_default slow seconds [] 0 (λ e. absurd (cc))

-- a height at which nothing is published, long after its start
abbrev fresh_height : DevmodeEngine ℕ
fresh_height = record {
  chain_head = chain_head;
  wait_time = pos 0;
  published_at_height = false;
  start = 0;
  world = 3;
}

-- a service whose state is the number of blocks that it has finalized, and a clock that is late
abbrev counting_service : ConsensusService ℕ
counting_service = record obliging { finalize_block = λ bytes n. (ok (9 ∷ []), suc n) }

abbrev late : Clock ℕ
late = record {
  now = λ w. (9, w);
  intn = λ n w. (pos 0, w);
  sleep_second = λ w. w;
  nanoseconds_after = λ n m. pos (n - m);
}

counting_service-Counts : Counts (λ n. n) counting_service late
counting_service-Counts = record {
  finalize_adds = λ bytes w is. sym (ended-eq is).1;
  finalize_refused = λ bytes w is. absurd (let never = (ended-eq is).0 in cc);
  finalize_stops = λ bytes w is. absurd (let never = (ended-eq is).0 in cc);
  summarizes = record { quiet = λ w. refl };
  sends = λ peer kind bytes. record { quiet = λ w. refl };
  broadcasts = λ kind bytes. record { quiet = λ w. refl };
  checks = λ ids. record { quiet = λ w. refl };
  fails = λ id. record { quiet = λ w. refl };
  commits = λ id. record { quiet = λ w. refl };
  ignores = λ id. record { quiet = λ w. refl };
  gets = λ ids. record { quiet = λ w. refl };
  heads = record { quiet = λ w. refl };
  sleeps = λ w. refl;
  reads = λ w. refl;
}

run_publishes_once_example :
    (run counting_service late 4
      (timeout ∷ arrives (peer_connected []) ∷ timeout ∷ [])
      fresh_height).1.world
    ≤ 1 + 3
run_publishes_once_example =
    run_publishes_once (λ n. n) counting_service late counting_service-Counts 4
      (timeout ∷ arrives (peer_connected []) ∷ timeout ∷ []) fresh_height (tt, (tt, (tt, tt)))

abbrev idle : Engine (Unit {0})
idle = record {
  updates = block_invalid (3 ∷ []) ∷ [];
  channel_closed = false;
  corr_ids = [];
  world = tt;
}

shutdown_does_not_stop_example :
    run slow seconds 4 (ticks_from slow seconds (perform_shutdown idle) 2) fresh_height
    ≡ run slow seconds 4 (arrives (block_invalid (3 ∷ [])) ∷ []) fresh_height
shutdown_does_not_stop_example = shutdown_does_not_stop slow seconds idle 4 2 fresh_height
