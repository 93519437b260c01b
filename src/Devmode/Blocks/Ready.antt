-- ===== src/Devmode/Blocks/Ready.antt =====
-- Waiting until a block is ready, and the wait between blocks.
use sawtooth_sdk_go.Base.{
  ◌≡◌, ◌≢◌, refl, ℕ, zero, suc, ◌≤◌, Bytes, Dict, lookup, [], ◌∷◌, some, true, pos, atoi, arith,
  mul_int, text,
}
use sawtooth_sdk_go.Processor.Errors.{
  Error, Outcome, ok, err, panic, is_block_not_ready_error, Call,
}
use sawtooth_sdk_go.Consensus.Interface.{ConsensusService}
use sawtooth_sdk_go.Devmode.{create_consensus}
use sawtooth_sdk_go.Devmode.Blocks.{
  Clock, setting_of, min_wait_key, max_wait_key, nanoseconds, wait_between, wait_seconds,
  calculate_wait_time, until_ready, finalize_with, finalize_block,
}

module _ {W : Type 0} (service : ConsensusService W) (clock : Clock W) where
  -- Some calls in a row that find the block not ready, with a second of sleep behind each.
  pub data NotReady {A : Type 0} (m : Call W A) : ℕ → W → W → Type 0 where
    ready : {w : W} → NotReady m zero w w
    not_yet :
        {n : ℕ} {w t : W} {e : Error}
        → (m w).0 ≡ err e
        → is_block_not_ready_error e ≡ true
        → NotReady m n (clock.sleep_second (m w).1) t
        → NotReady m (suc n) w t

  until_ready-NotReady :
      {A : Type 0} (m : Call W A) (n fuel : ℕ) (w t u : W) (a : A)
      → NotReady m n w t
      → m t ≡ (ok a, u)
      → suc n ≤ fuel
      → until_ready service clock fuel m w ≡ (ok (some (some a)), u)
  unfolding until_ready
  until_ready-NotReady m n zero w t u a waits is enough = absurd (omega arith)
  until_ready-NotReady m zero (suc fuel) w t u a ready is enough = rw (is, until_ready) (rw is refl)
  until_ready-NotReady m (suc n) (suc fuel) w t u a (not_yet fails waiting waits) is enough =
      rw (fails, until_ready)
        (rw (waiting, until_ready)
          (until_ready-NotReady m n fuel (clock.sleep_second (m w).1) t u a waits is (omega arith)))

  -- A block is finalized in the end: if it can be summarized after `n` calls that find it not
  -- ready, and then be finalized with the consensus data of that summary after `k` such calls, and
  -- there is fuel for more calls than these, `finalizeBlock` returns its id.
  pub finalize_block-NotReady :
      (n k fuel : ℕ) (w t u v x : W) (summary id : Bytes)
      → NotReady service.summarize_block n w t
      → service.summarize_block t ≡ (ok summary, u)
      → NotReady (service.finalize_block (create_consensus summary)) k u v
      → service.finalize_block (create_consensus summary) v ≡ (ok id, x)
      → suc n ≤ fuel
      → suc k ≤ fuel
      → finalize_block service clock fuel w ≡ (ok (some id), x)
  unfolding finalize_block finalize_with
  finalize_block-NotReady n k fuel w t u v x summary id waits summarized waits' finalized enough
        enough' =
      rw (until_ready-NotReady service.summarize_block n fuel w t u summary waits summarized enough)
        (rw
          (until_ready-NotReady (service.finalize_block (create_consensus summary)) k fuel u v x id
            waits' finalized enough')
          refl)

  -- The settings never count: whatever the validator holds for the least and the greatest wait, the
  -- wait between blocks is 0, unless the call for the settings panics.
  pub calculate_wait_time_default :
      (head : Bytes) (w : W)
      → (service.get_settings head (min_wait_key ∷ max_wait_key ∷ []) w).0 ≢ panic
      → calculate_wait_time service clock head w
        ≡ (ok (pos 0), (service.get_settings head (min_wait_key ∷ max_wait_key ∷ []) w).1)
  unfolding calculate_wait_time wait_seconds wait_between setting_of nanoseconds mul_int atoi lookup
      text
  calculate_wait_time_default head w fine =
      go (service.get_settings head (min_wait_key ∷ max_wait_key ∷ []) w).0 refl fine
    where
      go :
          (r : Outcome (Dict Bytes))
          → (service.get_settings head (min_wait_key ∷ max_wait_key ∷ []) w).0 ≡ r
          → r ≢ panic
          → calculate_wait_time service clock head w
            ≡ (ok (pos 0), (service.get_settings head (min_wait_key ∷ max_wait_key ∷ []) w).1)
      go (ok settings) e f = rw (e, calculate_wait_time) refl
      go (err x) e f = rw (e, calculate_wait_time) refl
      go panic e f = absurd (f refl)
