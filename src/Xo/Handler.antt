-- ===== src/Xo/Handler.antt =====
-- `XoHandler.Apply` of handler/handler.go, with what it registers for.
pub mod Refused
pub mod Effects
pub mod Fairness
pub mod Crashes
pub mod Served
use sawtooth_sdk_go.Base.{
  Bytes, text, bytes_eq, List, [], ◌∷◌, ◌++◌, ℤ, pos, Option, none, some, Bool, ◌≡◌, if◌then◌else◌,
}
use sawtooth_sdk_go.Processor.Errors.{
  Outcome, ok, err, panic, invalid, Call, pure, fail, lift, continue_with, ◌>>=◌, ◌>>◌, reject_if,
}
use sawtooth_sdk_go.Processor.Store.{Context}
use sawtooth_sdk_go.Processor.Request.{TpProcessRequest}
use sawtooth_sdk_go.Processor.Worker.{TransactionHandler}
use sawtooth_sdk_go.Xo.Payload.{XoPayload, from_bytes}
use sawtooth_sdk_go.Xo.Games.{Game}
use sawtooth_sdk_go.Xo.State.{XoState, new_xo_state, namespace, get_game, set_game, delete_game}
use sawtooth_sdk_go.Xo.Board.{p1_next, check_take, play}
use sawtooth_sdk_go.Xo.Display.{display_create, display_take}

unfoldable pub family_name : Bytes
family_name = text "xo"

unfoldable pub family_versions : List Bytes
family_versions = text "1.0" ∷ []

unfoldable pub namespaces : (Bytes → Bytes) → List Bytes
namespaces sha512 = namespace sha512 ∷ []

-- the game that `create` stores
unfoldable pub new_game : Bytes → Game
new_game name = record {
  board = text "---------";
  state = p1_next;
  player1 = [];
  player2 = [];
  name = name;
}

-- `if game != nil { return e }` and `if game == nil { return e }`
absent_or : Option Game → Outcome (Unit {0})
absent_or none = ok tt
absent_or (some g) = err (invalid (text "Game already exists"))

present_or : Option Game → Outcome (Unit {0})
present_or none = err (invalid (text "Delete requires an existing game"))
present_or (some g) = ok tt

-- a nil pointer is dereferenced
deref : Option Game → Outcome Game
deref none = panic
deref (some g) = ok g

module _ {S : Type 0} (sha512 : Bytes → Bytes) (ctx : Context S) where
  validate_create : Bytes → Call (XoState S) (Unit {0})
  unfolding absent_or
  validate_create name = get_game sha512 ctx name >>= λ g. lift (absent_or g)

  validate_delete : Bytes → Call (XoState S) (Unit {0})
  unfolding present_or
  validate_delete name = get_game sha512 ctx name >>= λ g. lift (present_or g)

  validate_take : XoPayload → Call (XoState S) (Unit {0})
  validate_take payload =
      get_game sha512 ctx payload.name >>= λ g. lift (check_take g payload.space)

  unfoldable pub create : XoPayload → Bytes → Call (XoState S) (Unit {0})
  unfolding validate_create
  create payload player = do
    validate_create payload.name
    lift (display_create payload player)
    set_game sha512 ctx payload.name (new_game payload.name)

  unfoldable pub delete : XoPayload → Call (XoState S) (Unit {0})
  unfolding validate_delete
  delete payload = do validate_delete payload.name; delete_game sha512 ctx payload.name

  unfoldable pub take : XoPayload → Bytes → Call (XoState S) (Unit {0})
  unfolding validate_take deref
  take payload player = do
    validate_take payload
    loaded ← get_game sha512 ctx payload.name
    game ← lift (deref loaded)
    game' ← lift (play player payload.space game)
    lift (display_take payload player game')
    set_game sha512 ctx payload.name game'

  -- the switch on the action
  unfoldable pub dispatch : XoPayload → Bytes → Call (XoState S) (Unit {0})
  unfolding create delete take
  dispatch payload player =
      if bytes_eq payload.action (text "create")
      then create payload player
      else if bytes_eq payload.action (text "delete")
      then delete payload
      else if bytes_eq payload.action (text "take")
      then take payload player
      else fail (invalid (text "Invalid Action : '" ++ (payload.action ++ text "'")))

  -- The accessor lives as long as the call: its cache is dropped.
  unfoldable pub apply : TpProcessRequest → Call S (Unit {0})
  unfolding dispatch
  apply request = lift (from_bytes request.payload) >>= λ payload s.
      let (r, x) = dispatch payload request.header.signer_public_key (new_xo_state s) in
      (r, x.world)

-- the handler, whose type has no fields
unfoldable pub xo_handler : {W : Type 0} → (Bytes → Bytes) → TransactionHandler W
xo_handler sha512 = record {
  family_name = family_name;
  family_versions = family_versions;
  namespaces = namespaces sha512;
  apply = λ request ctx. apply sha512 ctx request;
}
