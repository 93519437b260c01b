-- ===== src/Xo/Handler/Crashes.antt =====
-- Inputs that pass every check of the xo handler and then panic, before anything is stored.
use sawtooth_sdk_go.Base.{ℕ, ◌≡◌, ◌≤◌, ◌<◌, Bytes, length, pos, ◌≤ℤ◌, ◌⊎◌, some, false}
use sawtooth_sdk_go.Processor.Errors.{ok, panic}
use sawtooth_sdk_go.Processor.Store.{Context}
use sawtooth_sdk_go.Xo.Payload.{XoPayload}
use sawtooth_sdk_go.Xo.Games.{Game}
use sawtooth_sdk_go.Xo.State.{XoState, get_game}
use sawtooth_sdk_go.Xo.Board.{check_take, has_ended, play}
use sawtooth_sdk_go.Xo.Board.Turns.{IsFair}
use sawtooth_sdk_go.Xo.Board.Take.{take_out_of_range_panics}
use sawtooth_sdk_go.Xo.Display.Width.{display_take_long_name_panics}
use sawtooth_sdk_go.Xo.Handler.{take}

module _ {S : Type 0} (sha512 : Bytes → Bytes) (ctx : Context S) where
  -- A legal move, with a space of one digit, in a game whose name has 25 bytes or more panics while
  -- it is displayed, before `SetGame` is called: the state is the one that loading the game left.
  pub take_long_name_panics :
      (payload : XoPayload) (player : Bytes) (d : ℕ) (g g' : Game) (x u v : XoState S)
      → get_game sha512 ctx payload.name x ≡ (ok (some g), u)
      → get_game sha512 ctx payload.name u ≡ (ok (some g), v)
      → check_take (some g) payload.space ≡ ok tt
      → play player payload.space g ≡ ok g'
      → payload.space ≡ pos d
      → d < 10
      → 25 ≤ length g'.name
      → take sha512 ctx payload player x ≡ (panic, v)
  unfolding take
  take_long_name_panics payload player d g g' x u v once twice passed plays at_d small long = rw (
    once,
    passed,
    twice,
    plays,
    display_take_long_name_panics payload player g' d at_d small long,
  )

  -- A space below 1 or above 9 on a held game that is fair and has not ended panics in
  -- `validateTake`: the state is the one that loading the game left.
  pub take_bad_space_panics :
      (payload : XoPayload) (player : Bytes) (g : Game) (x u : XoState S)
      → get_game sha512 ctx payload.name x ≡ (ok (some g), u)
      → IsFair g
      → has_ended g ≡ false
      → (payload.space ≤ℤ pos 0) ⊎ (pos 10 ≤ℤ payload.space)
      → take sha512 ctx payload player x ≡ (panic, u)
  unfolding take
  take_bad_space_panics payload player g x u once fair running out =
      rw (once, take_out_of_range_panics g payload.space fair running out)
