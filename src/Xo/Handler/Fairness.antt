-- ===== src/Xo/Handler/Fairness.antt =====
-- The invariant of the family: every game that the validator holds is fair.
use sawtooth_sdk_go.Base.{
  ◌≡◌, refl, ap, ◌∙◌, sym, Bytes, text, bytes_eq, bytes_eq_iff, Dict, lookup, Option, none, some, ℤ,
  contains_byte, Bool-cases, inl, inr, arith, if◌then◌else◌,
}
use mathlib.Core.Path.{subst}
use sawtooth_sdk_go.Processor.Errors.{ok, lift, >>=-eq-ok, ended-eq, ok-injective}
use sawtooth_sdk_go.Processor.Store.{Context, IsStore}
use sawtooth_sdk_go.Processor.Request.{TpProcessRequest}
use sawtooth_sdk_go.Xo.Payload.{XoPayload, from_bytes}
use sawtooth_sdk_go.Xo.Payload.Accepted.{from_bytes-IsAccepted}
use sawtooth_sdk_go.Xo.Games.{Game}
use sawtooth_sdk_go.Xo.Games.RoundTrip.{IsPlain}
use sawtooth_sdk_go.Xo.State.{XoState, new_xo_state, make_address}
use sawtooth_sdk_go.Xo.State.Coherence.{parse_held, IsCoherent}
use sawtooth_sdk_go.Xo.Board.{play, check_take}
use sawtooth_sdk_go.Xo.Board.Lines.{three_in_a_row}
use sawtooth_sdk_go.Xo.Board.Turns.{IsFair, p1_turn}
use sawtooth_sdk_go.Xo.Board.Take.{play-IsFair}
use sawtooth_sdk_go.Xo.Board.Plain.{Plain, states-Plain}
use sawtooth_sdk_go.Xo.Handler.{new_game, take, dispatch, apply}
use sawtooth_sdk_go.Xo.Handler.Effects.{Replaces, create-Replaces, delete-Replaces, take-Replaces}

-- Every game at every address is fair.
abbrev pub AllFair : (Bytes → Bytes) → Type 0
AllFair data_of =
    (a : Bytes) (m : Dict Game)
    → parse_held (data_of a) ≡ ok m
    → (k : Bytes) (g : Game) → lookup k m ≡ some g
    → IsFair g

-- An entry of the games: absent, or a fair game.
abbrev FairEntry : Option Game → Type 0
FairEntry none = Unit
FairEntry (some g) = IsFair g

pub new_game-IsFair : (name : Bytes) → IsFair (new_game name)
unfolding new_game text three_in_a_row contains_byte
new_game-IsFair name = record {
  nine = refl;
  marks = ground arith;
  phase = p1_turn refl refl refl refl refl;
}

pub new_game-IsPlain : (name : Bytes) → Plain name → IsPlain (new_game name)
unfolding new_game text
new_game-IsPlain name p = record {
  name_comma = p.0;
  name_bar = p.1;
  board_comma = omega arith;
  board_bar = omega arith;
  state_comma = states-Plain.0.0;
  state_bar = states-Plain.0.1;
  player1_comma = tt;
  player1_bar = tt;
  player2_comma = tt;
  player2_bar = tt;
}

-- What `from_bytes` says of the name.
named-Plain : (payload : Option Bytes) {p : XoPayload} → from_bytes payload ≡ ok p → Plain p.name
unfolding from_bytes
named-Plain none h = absurd (cc)
named-Plain (some d) h = let a = from_bytes-IsAccepted d h in (a.name_comma, a.name_bar)

-- a game that was played from a fair one
played-IsFair :
    (player : Bytes) (space : ℤ) (g g' : Game)
    → IsFair g
    → check_take (some g) space ≡ ok tt
    → play player space g ≡ ok g'
    → IsFair g'
played-IsFair player space g g' fair passed plays = elim (play-IsFair player space g fair passed) [
  | inl refused ↦ absurd (cc)
  | inr (h, made, fair') ↦ subst IsFair (ok-injective (sym made ∙ plays)) fair'
]

module _ {S : Type 0} (sha512 : Bytes → Bytes) (ctx : Context S) (held : S → Bytes → Bytes)
    (store : IsStore ctx held) where
  Replaces-AllFair :
      (name : Bytes) (g : Option Game) (s t : S) (m : Dict Game)
      → FairEntry g
      → Replaces sha512 ctx held store name g s t m
      → AllFair (held s)
      → AllFair (held t)
  Replaces-AllFair name g s t m fair (before, (r, after, back), others) all a n parsed k h found =
      elim (Bool-cases (bytes_eq (make_address sha512 name) a)) [
        | inl same ↦
            let here = (bytes_eq_iff (make_address sha512 name) a).0 same in
            let rn : r ≡ n =
              ok-injective (sym after ∙ (ap (λ b. parse_held (held t b)) here ∙ parsed)) in
            let in_r : lookup k r ≡ some h = rw rn found in
            let entry : (if bytes_eq name k then g else lookup k m) ≡ some h =
              sym (back k) ∙ in_r in
            elim (Bool-cases (bytes_eq name k)) [
              | inl put ↦ subst FairEntry (rw put at entry) fair
              | inr old ↦ all (make_address sha512 name) m before k h (rw old at entry)
            ]
        | inr differ ↦ all a n (rw (others a differ) at parsed) k h found
      ]

  fresh-IsCoherent : (s : S) → IsCoherent held (new_xo_state s)
  unfolding new_xo_state lookup
  fresh-IsCoherent s a = tt

  take-AllFair :
      (payload : XoPayload) (player : Bytes) (x y : XoState S)
      → IsCoherent held x
      → Plain player
      → take sha512 ctx payload player x ≡ (ok tt, y)
      → AllFair (held x.world)
      → AllFair (held y.world)
  take-AllFair payload player x y c plain done all =
      let (m, g, g', found, passed, plays, replaced) =
        take-Replaces sha512 ctx held store payload player x {y = y} c plain done in
      let fair = all (make_address sha512 payload.name) m replaced.0 payload.name g found in
      Replaces-AllFair payload.name (some g') x.world y.world m
        (played-IsFair player payload.space g g' fair passed plays) replaced all

  dispatch-AllFair :
      (payload : XoPayload) (player : Bytes) (x y : XoState S)
      → IsCoherent held x
      → Plain payload.name
      → Plain player
      → dispatch sha512 ctx payload player x ≡ (ok tt, y)
      → AllFair (held x.world)
      → AllFair (held y.world)
  unfolding dispatch
  dispatch-AllFair payload player x y c name plain done all =
      elim (Bool-cases (bytes_eq payload.action (text "create"))) [
        | inl is_create ↦
            let (m, absent, replaced) =
              create-Replaces sha512 ctx held store payload player x {y = y} c
                (new_game-IsPlain payload.name name) (rw is_create at done) in
            Replaces-AllFair payload.name (some (new_game payload.name)) x.world y.world m
              (new_game-IsFair payload.name) replaced all
        | inr not_create ↦ elim (Bool-cases (bytes_eq payload.action (text "delete"))) [
          | inl is_delete ↦
              let (m, there, replaced) =
                delete-Replaces sha512 ctx held store payload x {y = y} c
                  (rw (not_create, is_delete) at done) in
              Replaces-AllFair payload.name none x.world y.world m tt replaced all
          | inr not_delete ↦ elim (Bool-cases (bytes_eq payload.action (text "take"))) [
            | inl is_take ↦
                take-AllFair payload player x y c plain
                  (rw (not_create, not_delete, is_take) at done) all
            | inr unknown ↦
                absurd (let refused = rw (not_create, not_delete, unknown) at done in cc)
          ]
        ]
      ]

  -- Whatever transaction `Apply` accepts, of a signer whose key is plain text (no comma, no bar),
  -- on a context that keeps what is written: every game that is held afterwards is fair, if every
  -- game was before.
  pub apply-AllFair :
      (request : TpProcessRequest) (s t : S)
      → Plain request.header.signer_public_key
      → apply sha512 ctx request s ≡ (ok tt, t)
      → AllFair (held s)
      → AllFair (held t)
  unfolding apply new_xo_state
  apply-AllFair request s t plain done all =
      let player = request.header.signer_public_key in
      let (payload, s', parsed, rest) = >>=-eq-ok (lift (from_bytes request.payload)) _ s done in
      let (accepted, es) = ended-eq parsed in
      let y = (dispatch sha512 ctx payload player (new_xo_state s')).1 in
      let (finished, et) = ended-eq rest in
      subst (λ w. AllFair (held w)) et
        (dispatch-AllFair payload player (new_xo_state s') y (fresh-IsCoherent s')
          (named-Plain request.payload accepted) plain (λ i. (finished i, y))
          (subst (λ w. AllFair (held w)) es all))
