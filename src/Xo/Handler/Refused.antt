-- ===== src/Xo/Handler/Refused.antt =====
-- An xo transaction that ends with an error changes nothing: what it writes, it writes last.
use sawtooth_sdk_go.Base.{
  ◌≡◌, ap, sym, ◌∙◌, Bytes, bytes_eq, text, Option, ◌++◌, Bool-cases, inl, inr,
}
use sawtooth_sdk_go.Processor.Errors.{Error, Outcome, err, invalid, lift, ◌>>=◌, ended-eq}
use sawtooth_sdk_go.Processor.Request.{TpProcessRequest}
use sawtooth_sdk_go.Processor.Store.{Context}
use sawtooth_sdk_go.Processor.Store.Clean.{
  FailsCleanly, IsClean, Keeps, Keeps-IsClean, >>=-IsClean, >>=-Keeps, then-IsClean, lift-Keeps,
}
use sawtooth_sdk_go.Xo.Payload.{XoPayload, from_bytes}
use sawtooth_sdk_go.Xo.Games.{Game}
use sawtooth_sdk_go.Xo.State.{XoState, new_xo_state, get_game}
use sawtooth_sdk_go.Xo.State.Refused.{view, get_game-Keeps, set_game-IsClean, delete_game-IsClean}
use sawtooth_sdk_go.Xo.Board.{check_take, play}
use sawtooth_sdk_go.Xo.Display.{display_create, display_take}
use sawtooth_sdk_go.Xo.Handler.{
  apply, dispatch, create, delete, take, validate_create, validate_delete, validate_take, absent_or,
  present_or, deref, new_game,
}

module _ {S : Type 0} (sha512 : Bytes → Bytes) (ctx : Context S) (held : S → Bytes → Bytes)
    (clean : FailsCleanly ctx held) where
  abbrev games : XoState S → Bytes → Bytes
  games = view sha512 ctx held clean

  -- a load of a game and a check of what it found
  checked-Keeps :
      (name : Bytes) (check : Option Game → Outcome (Unit {0}))
      → Keeps games (get_game sha512 ctx name >>= λ g. lift (check g))
  checked-Keeps name check =
      >>=-Keeps games (get_game sha512 ctx name) (λ g. lift (check g))
        (get_game-Keeps sha512 ctx held clean name) (λ g. lift-Keeps games (check g))

  create-IsClean :
      (payload : XoPayload) (player : Bytes) → IsClean games (create sha512 ctx payload player)
  unfolding create
  create-IsClean payload player =
      >>=-IsClean games (validate_create sha512 ctx payload.name) _
        (unfold validate_create in checked-Keeps payload.name absent_or)
        λ u.
          then-IsClean games (display_create payload player) _
            λ v. set_game-IsClean sha512 ctx held clean payload.name (new_game payload.name)

  delete-IsClean : (payload : XoPayload) → IsClean games (delete sha512 ctx payload)
  unfolding delete
  delete-IsClean payload =
      >>=-IsClean games (validate_delete sha512 ctx payload.name) _
        (unfold validate_delete in checked-Keeps payload.name present_or)
        λ u. delete_game-IsClean sha512 ctx held clean payload.name

  take-IsClean :
      (payload : XoPayload) (player : Bytes) → IsClean games (take sha512 ctx payload player)
  unfolding take
  take-IsClean payload player =
      >>=-IsClean games (validate_take sha512 ctx payload) _
        (unfold validate_take in checked-Keeps payload.name (λ g. check_take g payload.space))
        λ u.
          >>=-IsClean games (get_game sha512 ctx payload.name) _
            (get_game-Keeps sha512 ctx held clean payload.name)
            λ loaded. then-IsClean games (deref loaded) _ λ game.
              then-IsClean games (play player payload.space game) _ λ game'.
                then-IsClean games (display_take payload player game') _
                  λ v. set_game-IsClean sha512 ctx held clean payload.name game'

  dispatch-IsClean :
      (payload : XoPayload) (player : Bytes) → IsClean games (dispatch sha512 ctx payload player)
  unfolding dispatch
  dispatch-IsClean payload player = elim (Bool-cases (bytes_eq payload.action (text "create"))) [
    | inl creates ↦ rw creates (create-IsClean payload player)
    | inr else1 ↦ rw else1 (elim (Bool-cases (bytes_eq payload.action (text "delete"))) [
      | inl deletes ↦ rw deletes (delete-IsClean payload)
      | inr else2 ↦ rw else2 (elim (Bool-cases (bytes_eq payload.action (text "take"))) [
        | inl takes ↦ rw takes (take-IsClean payload player)
        | inr else3 ↦ rw else3 (
            Keeps-IsClean games _ (
              lift-Keeps games
                (err (invalid (text "Invalid Action : '" ++ (payload.action ++ text "'"))))))
      ])
    ])
  ]

  apply-IsClean : (request : TpProcessRequest) → IsClean held (apply sha512 ctx request)
  unfolding apply new_xo_state
  apply-IsClean request = then-IsClean held (from_bytes request.payload) _ λ payload. record {
    refused_keeps = λ s b e t ends.
        let player = request.header.signer_public_key in
        let y = (dispatch sha512 ctx payload player (new_xo_state s)).1 in
        let parts = ended-eq ends in
        ap (λ u. held u b) (sym parts.1)
        ∙ (dispatch-IsClean payload player).refused_keeps (new_xo_state s) b e y
            (λ i. (parts.0 i, y));
  }

  -- A transaction of the xo family that ends with an error changes nothing of what is held, on a
  -- context on which no get changes what is held, a set or a delete that fails changes nothing, and
  -- a set of one address that succeeds lists an address.
  pub xo_refused :
      (request : TpProcessRequest) (s t : S) (e : Error) (address : Bytes)
      → apply sha512 ctx request s ≡ (err e, t)
      → held t address ≡ held s address
  xo_refused request s t e address refused =
      (apply-IsClean request).refused_keeps s address e t refused
