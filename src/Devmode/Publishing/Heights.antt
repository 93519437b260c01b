-- ===== src/Devmode/Publishing/Heights.antt =====
-- At most one block is published between two commits.
use sawtooth_sdk_go.Base.{
  ◌≡◌, refl, ℕ, suc, ◌+◌, ◌≤◌, List, [], ◌∷◌, All, Bool, true, false, Bytes, Option, none, some,
  ltb_ℤ, Bool-cases, inl, inr, arith,
}
use sawtooth_sdk_go.Processor.Errors.{Outcome, ok, err, panic}
use sawtooth_sdk_go.Consensus.Types.{
  ConsensusUpdate, peer_connected, peer_disconnected, peer_message_arrived, block_new, block_valid,
  block_invalid, block_commit, shutdown_struct, shutdown_pointer,
}
use sawtooth_sdk_go.Consensus.Interface.{ConsensusService}
use sawtooth_sdk_go.Devmode.{handle_block_new, handle_block_valid}
use sawtooth_sdk_go.Devmode.Blocks.{
  Clock, handle_peer_message, finalize_block, broadcast_published_block,
}
use sawtooth_sdk_go.Devmode.Publishing.{
  DevmodeEngine, Tick, arrives, closed, timeout, Loop, goes_on, returned, out_of_fuel, settled,
  with_world, on_update, on_timeout, on_tick, go_on, run, published,
}
use sawtooth_sdk_go.Devmode.Publishing.Quiet.{
  Counts, handle_block_new-Quiet, handle_block_valid-Quiet, handle_peer_message-Quiet,
  broadcast-Quiet,
}
use sawtooth_sdk_go.Devmode.Publishing.Finalizing.{made, finalize_block-made}

-- A tick is not the commit of a block.
abbrev pub NoCommit : Tick → Type 0
NoCommit (arrives (block_commit id)) = ⊥
NoCommit (arrives u) = Unit
NoCommit closed = Unit
NoCommit timeout = Unit

-- how many blocks may still be published at a height
abbrev pub room : Bool → ℕ
room true = 0
room false = 1

module _ {W : Type 0} (blocks : W → ℕ) (service : ConsensusService W) (clock : Clock W)
    (counts : Counts blocks service clock) where
  -- the blocks that were finalized, and those that still may be
  abbrev used : DevmodeEngine W → ℕ
  used e = room e.published_at_height + blocks e.world

  with_world-used :
      {A : Type 0} (f : A → Loop) (r : Outcome A × W) (e : DevmodeEngine W) (n : ℕ)
      → room e.published_at_height + blocks r.1 ≤ n
      → used (with_world service clock f r e).1 ≤ n
  unfolding with_world
  with_world-used f (ok a, w) e n h = h
  with_world-used f (err x, w) e n h = h
  with_world-used f (panic, w) e n h = h

  on_update-used :
      (fuel : ℕ) (u : ConsensusUpdate) (e : DevmodeEngine W)
      → NoCommit (arrives u)
      → used (on_update service clock fuel u e).1 ≤ used e
  unfolding on_update
  on_update-used fuel (block_commit id) e h = absurd h
  on_update-used fuel (block_new b) e h =
      with_world-used (λ u. goes_on) (handle_block_new service b e.world) e (used e)
        (let q = (handle_block_new-Quiet blocks service clock counts b).quiet e.world in
          omega arith)
  on_update-used fuel (block_valid id) e h =
      with_world-used settled (handle_block_valid service fuel id e.world) e (used e) (
        let q = (handle_block_valid-Quiet blocks service clock counts fuel id).quiet e.world in
        omega arith)
  on_update-used fuel (peer_message_arrived m p) e h =
      with_world-used (λ u. goes_on) (handle_peer_message service clock m p e.world) e (used e)
        (let q = (handle_peer_message-Quiet blocks service clock counts m p).quiet e.world in
          omega arith)
  on_update-used fuel shutdown_struct e h = omega arith
  on_update-used fuel shutdown_pointer e h = omega arith
  on_update-used fuel (peer_connected p) e h = omega arith
  on_update-used fuel (peer_disconnected p) e h = omega arith
  on_update-used fuel (block_invalid id) e h = omega arith

  published-used :
      (r : Outcome (Option Bytes) × W) (e : DevmodeEngine W)
      → e.published_at_height ≡ false
      → (n : ℕ) → blocks r.1 ≤ made r.0 + n
      → used (published service clock r e).1 ≤ suc n
  unfolding published
  published-used (ok none, w) e fresh n h = rw fresh (omega arith)
  published-used (ok (some id), w) e fresh n h =
      with_world-used (λ u. goes_on) (broadcast_published_block service clock id w)
        (record e { published_at_height = true }) (suc n)
        (let q = (broadcast-Quiet blocks service clock counts id).quiet w in omega arith)
  published-used (err x, w) e fresh n h = rw fresh (omega arith)
  published-used (panic, w) e fresh n h = rw fresh (omega arith)

  on_timeout-fresh :
      (fuel : ℕ) (e : DevmodeEngine W)
      → used (on_timeout service clock fuel (record e { published_at_height = false })).1
        ≤ 1 + blocks e.world
  unfolding on_timeout
  on_timeout-fresh fuel e =
      let kept = counts.reads e.world in
      let t = (clock.now e.world).1 in
      let one =
        published-used (finalize_block service clock fuel t)
          (record e { published_at_height = false }) refl (blocks t)
          (finalize_block-made blocks service clock counts fuel t) in
      elim (Bool-cases
        (ltb_ℤ e.wait_time (clock.nanoseconds_after (clock.now e.world).0 e.start))) [
          | inl over ↦ rw over (omega arith)
          | inr waits ↦ rw waits (omega arith)
        ]

  on_timeout-used :
      (fuel : ℕ) (e : DevmodeEngine W) → used (on_timeout service clock fuel e).1 ≤ used e
  on_timeout-used fuel e = elim (Bool-cases e.published_at_height) [
    | inl done ↦ unfold on_timeout in rw done (omega arith)
    | inr fresh ↦ rw fresh (on_timeout-fresh fuel e)
  ]

  on_tick-used :
      (fuel : ℕ) (x : Tick) (e : DevmodeEngine W)
      → NoCommit x
      → used (on_tick service clock fuel x e).1 ≤ used e
  unfolding on_tick
  on_tick-used fuel (arrives u) e h = on_update-used fuel u e h
  on_tick-used fuel closed e h = omega arith
  on_tick-used fuel timeout e h = on_timeout-used fuel e

  go_on-used :
      (k : DevmodeEngine W → Outcome Loop × DevmodeEngine W) (r : Outcome Loop × DevmodeEngine W)
      (n : ℕ)
      → ((e : DevmodeEngine W) → used (k e).1 ≤ used e)
      → used r.1 ≤ n
      → used (go_on service clock k r).1 ≤ n
  unfolding go_on
  go_on-used k (ok goes_on, e) n later h = let l = later e in omega arith
  go_on-used k (ok returned, e) n later h = h
  go_on-used k (ok out_of_fuel, e) n later h = h
  go_on-used k (err x, e) n later h = h
  go_on-used k (panic, e) n later h = h

  run-used :
      (fuel : ℕ) (xs : List Tick) (e : DevmodeEngine W)
      → All NoCommit xs
      → used (run service clock fuel xs e).1 ≤ used e
  unfolding run
  run-used fuel [] e h = omega arith
  run-used fuel (x ∷ xs) e (h, hs) =
      go_on-used (run service clock fuel xs) (on_tick service clock fuel x e) (used e)
        (λ t. run-used fuel xs t hs) (on_tick-used fuel x e h)

  -- At most one block is finalized at a height: through any updates, timeouts and nil from the
  -- channel without a commit, however the loop ends, the number of finalized blocks grows by at most
  -- one, and not at all if the engine has noted that it has published at this height. The validator
  -- counts a block for each finalization that it accepts, and none for the service's other calls
  -- that devmode makes outside a commit.
  pub run_publishes_once :
      (fuel : ℕ) (xs : List Tick) (e : DevmodeEngine W)
      → All NoCommit xs
      → blocks (run service clock fuel xs e).1.world ≤ room e.published_at_height + blocks e.world
  run_publishes_once fuel xs e h = let u = run-used fuel xs e h in omega arith
