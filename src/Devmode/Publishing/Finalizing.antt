-- ===== src/Devmode/Publishing/Finalizing.antt =====
-- How many blocks `finalizeBlock` of devmode finalizes.
use sawtooth_sdk_go.Base.{
  ◌≡◌, refl, ℕ, zero, suc, ◌+◌, ◌≤◌, Bytes, Option, none, some, true, false, arith, Bool-cases, inl,
  inr,
}
use sawtooth_sdk_go.Processor.Errors.{
  Outcome, ok, err, panic, is_block_not_ready_error, Call, continue_with, lift,
}
use sawtooth_sdk_go.Processor.Store.{or_nil}
use sawtooth_sdk_go.Consensus.Interface.{ConsensusService}
use sawtooth_sdk_go.Devmode.{create_consensus}
use sawtooth_sdk_go.Devmode.Blocks.{Clock, until_ready, finalize_with, finalize_block}
use sawtooth_sdk_go.Devmode.Publishing.Quiet.{Counts}

-- one block if there is a result
abbrev pub made : {A : Type 0} → Outcome (Option A) → ℕ
made (ok none) = 0
made (ok (some a)) = 1
made (err e) = 0
made panic = 0

module _ {W : Type 0} (blocks : W → ℕ) (service : ConsensusService W) (clock : Clock W)
    (counts : Counts blocks service clock) where
  until_summarized :
      (fuel : ℕ) (w : W)
      → blocks (until_ready service clock fuel service.summarize_block w).1 ≡ blocks w
  unfolding until_ready
  until_summarized zero w = refl
  until_summarized (suc fuel) w =
      go (until_summarized fuel) (service.summarize_block w) (counts.summarizes.quiet w)
    where
      go :
          ((u : W) → blocks (until_ready service clock fuel service.summarize_block u).1 ≡ blocks u)
          → (r : Outcome Bytes × W) → blocks r.1 ≡ blocks w
          → (let next : Outcome (Option (Option Bytes)) × W = elim r.0 [
            | ok a ↦ (ok (some (some a)), r.1)
            | panic ↦ (panic, r.1)
            | err e ↦ elim (is_block_not_ready_error e) [
              | true ↦
                  until_ready service clock fuel service.summarize_block (clock.sleep_second r.1)
              | false ↦ (ok (some none), r.1)
            ]
          ] in
              blocks next.1 ≡ blocks w)
      go later (ok a, t) same = same
      go later (panic, t) same = same
      go later (err e, t) same = elim (Bool-cases (is_block_not_ready_error e)) [
        | inl waits ↦
            rw waits (
              let kept = later (clock.sleep_second t) in let slept = counts.sleeps t in omega arith)
        | inr fails ↦ rw fails same
      ]

  until_finalized :
      (fuel : ℕ) (bytes : Bytes) (w : W)
      → (let r : Outcome (Option (Option Bytes)) × W =
            until_ready service clock fuel (service.finalize_block bytes) w in
          blocks r.1 ≤ made r.0 + blocks w)
  unfolding until_ready
  until_finalized zero bytes w = omega arith
  until_finalized (suc fuel) bytes w =
      go (until_finalized fuel bytes) (service.finalize_block bytes w) refl
    where
      go :
          ((u : W)
            → blocks (until_ready service clock fuel (service.finalize_block bytes) u).1
              ≤ made (until_ready service clock fuel (service.finalize_block bytes) u).0 + blocks u)
          → (r : Outcome Bytes × W) → service.finalize_block bytes w ≡ r
          → (let next : Outcome (Option (Option Bytes)) × W = elim r.0 [
            | ok a ↦ (ok (some (some a)), r.1)
            | panic ↦ (panic, r.1)
            | err e ↦ elim (is_block_not_ready_error e) [
              | true ↦
                  until_ready service clock fuel
                    (service.finalize_block bytes)
                    (clock.sleep_second r.1)
              | false ↦ (ok (some none), r.1)
            ]
          ] in
              blocks next.1 ≤ made next.0 + blocks w)
      go later (ok a, t) is = let one = counts.finalize_adds bytes w is in omega arith
      go later (panic, t) is = let same = counts.finalize_stops bytes w is in omega arith
      go later (err e, t) is =
          let same = counts.finalize_refused bytes w is in
          elim (Bool-cases (is_block_not_ready_error e)) [
            | inl waits ↦ rw waits (
                let kept = later (clock.sleep_second t) in
                let slept = counts.sleeps t in omega arith)
            | inr fails ↦ rw fails (omega arith)
          ]

  with_id-made :
      (r : Outcome (Option (Option Bytes)) × W) (n : ℕ)
      → blocks r.1 ≤ made r.0 + n
      → (let f : Option (Option Bytes) → Call W (Option Bytes) =
            λ id. lift (ok (elim id [ none ↦ none | some i ↦ some (or_nil i) ])) in
          blocks (continue_with f r).1 ≤ made (continue_with f r).0 + n)
  with_id-made (ok none, t) n h = h
  with_id-made (ok (some i), t) n h = h
  with_id-made (err e, t) n h = h
  with_id-made (panic, t) n h = h

  -- At most one block is finalized, and none if there is no id.
  pub finalize_block-made :
      (fuel : ℕ) (w : W)
      → (let r : Outcome (Option Bytes) × W = finalize_block service clock fuel w in
          blocks r.1 ≤ made r.0 + blocks w)
  unfolding finalize_block finalize_with
  finalize_block-made fuel w =
      go (until_ready service clock fuel service.summarize_block w) (until_summarized fuel w)
    where
      go :
          (r : Outcome (Option (Option Bytes)) × W)
          → blocks r.1 ≡ blocks w
          → (let next : Outcome (Option Bytes) × W =
                continue_with (finalize_with service clock fuel) r in
              blocks next.1 ≤ made next.0 + blocks w)
      go (ok none, t) same = omega arith
      go (ok (some summary), t) same =
          with_id-made
            (until_ready service clock fuel
              (service.finalize_block (create_consensus (or_nil summary))) t)
            (blocks w)
            (let one = until_finalized fuel (create_consensus (or_nil summary)) t in
              rw (← same) one)
      go (err e, t) same = omega arith
      go (panic, t) same = omega arith
