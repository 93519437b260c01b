-- ===== src/Devmode/Publishing/Stop.antt =====
-- What the engine's shutdown does to the loop.
use sawtooth_sdk_go.Base.{
  ◌≡◌, refl, ℕ, zero, suc, List, [], ◌∷◌, ◌++◌, map, replicate, append_assoc, ◌∙◌, if◌then◌else◌,
}
use mathlib.Core.List.{map-append}
use sawtooth_sdk_go.Processor.Errors.{Outcome, ok, err, panic}
use sawtooth_sdk_go.Consensus.Types.{shutdown_pointer}
use sawtooth_sdk_go.Consensus.Interface.{ConsensusService}
use sawtooth_sdk_go.Consensus.Engine.{Engine}
use sawtooth_sdk_go.Consensus.Shutdown.{perform_shutdown}
use sawtooth_sdk_go.Devmode.Blocks.{Clock}
use sawtooth_sdk_go.Devmode.Publishing.{
  DevmodeEngine, Tick, Loop, arrives, closed, goes_on, returned, out_of_fuel, on_update, on_tick,
  go_on, run,
}

module _ {W : Type 0} (service : ConsensusService W) (clock : Clock W) where
  run_closed :
      (fuel n : ℕ) (e : DevmodeEngine W)
      → run service clock fuel (replicate n closed) e ≡ (ok goes_on, e)
  unfolding run on_tick
  run_closed fuel zero e = refl
  run_closed fuel (suc n) e = run_closed fuel n e

  -- What the loop takes from an engine's channel: its updates, and then, if it is closed, nil as
  -- often as the loop comes back to it.
  abbrev pub ticks_from : {V : Type 0} → Engine V → ℕ → List Tick
  ticks_from g n = map arrives g.updates ++ (if g.channel_closed then replicate n closed else [])

  run-append :
      (fuel : ℕ) (xs ys : List Tick) (e : DevmodeEngine W)
      → run service clock fuel (xs ++ ys) e
        ≡ go_on service clock (run service clock fuel ys) (run service clock fuel xs e)
  unfolding run go_on
  run-append fuel [] ys e = refl
  run-append fuel (x ∷ xs) ys e = go (run-append fuel xs ys) (on_tick service clock fuel x e)
    where
      go :
          ((t : DevmodeEngine W)
            → run service clock fuel (xs ++ ys) t
              ≡ go_on service clock (run service clock fuel ys) (run service clock fuel xs t))
          → (r : Outcome Loop × DevmodeEngine W)
          → go_on service clock (run service clock fuel (xs ++ ys)) r
            ≡ go_on service clock
                (run service clock fuel ys)
                (go_on service clock (run service clock fuel xs) r)
      go later (ok goes_on, t) = later t
      go later (ok returned, t) = refl
      go later (ok out_of_fuel, t) = refl
      go later (err x, t) = refl
      go later (panic, t) = refl

  go_on-idle :
      (k : DevmodeEngine W → Outcome Loop × DevmodeEngine W) (r : Outcome Loop × DevmodeEngine W)
      → ((e : DevmodeEngine W) → k e ≡ (ok goes_on, e))
      → go_on service clock k r ≡ r
  unfolding go_on
  go_on-idle k (ok goes_on, e) idle = idle e
  go_on-idle k (ok returned, e) idle = refl
  go_on-idle k (ok out_of_fuel, e) idle = refl
  go_on-idle k (err x, e) idle = refl
  go_on-idle k (panic, e) idle = refl

  -- The engine's shutdown does not end devmode: with the update that `performShutdown` sends behind
  -- the updates of an engine, and any number of nil from the channel that it closes, the loop of
  -- `Start` does what it does with those updates alone, and so goes on if it went on with them; a
  -- timeout of the loop's `select` in between is left out.
  pub shutdown_does_not_stop :
      {V : Type 0} (g : Engine V) (fuel n : ℕ) (e : DevmodeEngine W)
      → run service clock fuel (ticks_from (perform_shutdown g) n) e
        ≡ run service clock fuel (map arrives g.updates) e
  unfolding perform_shutdown
  shutdown_does_not_stop g fuel n e = rw (map-append arrives g.updates (shutdown_pointer ∷ [])) (
      rw append_assoc (
        run-append fuel (map arrives g.updates) (arrives shutdown_pointer ∷ replicate n closed) e
        ∙ go_on-idle (run service clock fuel (arrives shutdown_pointer ∷ replicate n closed))
            (run service clock fuel (map arrives g.updates) e)
            (λ t. unfold run on_tick on_update go_on in run_closed fuel n t)))
