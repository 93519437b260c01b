-- ===== src/Devmode/Forks.antt =====
-- The choice between a block and a longer chain: the loop down the chain ends, and what it decides.
use sawtooth_sdk_go.Base.{
  Option, Bool, if◌then◌else◌, ◌≡◌, refl, ℕ, zero, suc, ◌+◌, ◌≤◌, ◌<◌, Bytes, bytes_ltb, ltb, some,
  true, false, ◌==◌, ==_iff, arith,
}
use sawtooth_sdk_go.Processor.Errors.{Outcome, ok, err, panic, continue_with, lift}
use sawtooth_sdk_go.Consensus.Types.{Block}
use sawtooth_sdk_go.Consensus.Interface.{ConsensusService}
use sawtooth_sdk_go.Devmode.{
  must, or_panic, get_block, ancestor, settle, settle_fork, fork_choice, takes_over,
}

-- what a call of the service comes to, whose error is a panic
abbrev pub decided : {W : Type 0} → Outcome (Unit {0}) × W → Outcome (Option (Unit {0})) × W
decided (ok u, w) = (ok (some tt), w)
decided (err e, w) = (panic, w)
decided (panic, w) = (panic, w)

module _ {W : Type 0} (service : ConsensusService W) where
  -- From a block down to its ancestor of the number `n`, as the service finds the blocks: each has
  -- a number that is one less.
  pub data Walk (n : ℕ) : Block → W → Block → W → Type 0 where
    parent :
        {b p : Block} {w t : W}
        → get_block service b.previous_id w ≡ (ok p, t)
        → b.block_num ≡ suc p.block_num
        → p.block_num ≡ n
        → Walk n b w p t
    further :
        {b p a : Block} {w u t : W}
        → get_block service b.previous_id w ≡ (ok p, u)
        → b.block_num ≡ suc p.block_num
        → n < p.block_num
        → Walk n p u a t
        → Walk n b w a t

  ancestor-Walk :
      (fuel n : ℕ) (b a : Block) (w t : W)
      → Walk n b w a t
      → b.block_num ≤ n + fuel
      → ancestor service fuel n b w ≡ (ok (some a), t)
  unfolding ancestor
  ancestor-Walk zero n b a w t (parent found below is) enough = absurd (omega arith)
  ancestor-Walk zero n b a w t (further found below above walk) enough = absurd (omega arith)
  ancestor-Walk (suc fuel) n b a w t (parent found below is) enough =
      let same : (a.block_num == n) ≡ true = (==_iff a.block_num n).1 is in
      rw (found, ancestor) (rw same (rw found refl))
  ancestor-Walk (suc fuel) n b a w t (further {p} {u} found below above walk) enough =
      let differ : (p.block_num == n) ≡ false = ground arith in
      rw (found, ancestor) (rw differ (rw found (ancestor-Walk fuel n p a u t walk (omega arith))))

  settle-decided :
      (id : Bytes) (wins : Bool) (w : W)
      → settle service id wins w
        ≡ decided (if wins then service.commit_block id w else service.ignore_block id w)
  unfolding settle must or_panic
  settle-decided id true w = go (service.commit_block id w)
    where
      go :
          (r : Outcome (Unit {0}) × W)
          → continue_with (λ u. lift (ok (some u))) (or_panic r) ≡ decided r
      go (ok u, t) = refl
      go (err e, t) = refl
      go (panic, t) = refl
  settle-decided id false w = go (service.ignore_block id w)
    where
      go :
          (r : Outcome (Unit {0}) × W)
          → continue_with (λ u. lift (ok (some u))) (or_panic r) ≡ decided r
      go (ok u, t) = refl
      go (err e, t) = refl
      go (panic, t) = refl

  -- A block of a lower number than the chain head's is compared with the chain's block of the same
  -- number: if the service finds the blocks of the chain down to that one, each with a number that
  -- is one less, the loop ends, with the head's number as fuel, and the service is told to commit
  -- the block if its id is the greater, and to ignore it otherwise; an error of that call is a panic.
  pub fork_choice-Walk :
      (id : Bytes) (block head a : Block) (w t : W)
      → block.block_num < head.block_num
      → Walk block.block_num head w a t
      → fork_choice service head.block_num id block head w
        ≡ decided (
            if bytes_ltb a.block_id block.block_id
            then service.commit_block id t
            else service.ignore_block id t)
  unfolding fork_choice takes_over settle_fork
  fork_choice-Walk id block head a w t shorter walk =
      let reached = ancestor-Walk head.block_num block.block_num head a w t walk (omega arith) in
      let lower : ltb head.block_num block.block_num ≡ false = ground arith in
      let differ : (block.block_num == head.block_num) ≡ false = ground arith in
      let short : ltb block.block_num head.block_num ≡ true = ground arith in
      rw (lower, differ, short)
        (rw reached (settle-decided id (bytes_ltb a.block_id block.block_id) t))
