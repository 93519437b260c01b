-- ===== src/Xo/Handler/Effects.antt =====
-- What each accepted action of `Apply` does to the games that the validator holds.
use sawtooth_sdk_go.Base.{
  ◌≡◌, refl, ap, ◌∙◌, sym, Bytes, bytes_eq, Dict, lookup, Option, none, some, false, if◌then◌else◌,
}
use sawtooth_sdk_go.Processor.Errors.{
  ok, Outcome, pure, lift, ◌>>=◌, ◌>>◌, >>=-eq-ok, ended-eq, ok-injective,
}
use sawtooth_sdk_go.Processor.Store.{Context, IsStore}
use sawtooth_sdk_go.Xo.Payload.{XoPayload}
use sawtooth_sdk_go.Xo.Games.{Game}
use sawtooth_sdk_go.Xo.Games.RoundTrip.{IsPlain}
use sawtooth_sdk_go.Xo.State.{XoState, make_address, get_game, set_game, delete_game, load_games}
use sawtooth_sdk_go.Xo.State.Coherence.{
  parse_held, IsCoherent, load_games-Loads, parse_held-IsFiled,
}
use sawtooth_sdk_go.Xo.State.Update.{Changes, set_game_lem, delete_game_lem}
use sawtooth_sdk_go.Xo.Board.{check_take, play}
use sawtooth_sdk_go.Xo.Board.Plain.{Plain, Keeps, play-Keeps}
use sawtooth_sdk_go.Xo.Display.{display_create, display_take}
use sawtooth_sdk_go.Xo.Handler.{
  new_game, absent_or, present_or, deref, validate_create, validate_delete, validate_take, create,
  delete, take,
}

lift-eq_ok :
    {S A : Type 0} {r : Outcome A} {x : S} {a : A} {y : S}
    → lift r x ≡ (ok a, y)
    → (r ≡ ok a) × (x ≡ y)
lift-eq_ok e = ended-eq e

absent_or_lem : (g : Option Game) → absent_or g ≡ ok tt → g ≡ none
unfolding absent_or
absent_or_lem none e = refl
absent_or_lem (some g) e = absurd (cc)

present_or_lem : (g : Option Game) → present_or g ≡ ok tt → (h : Game) × (g ≡ some h)
unfolding present_or
present_or_lem none e = absurd (cc)
present_or_lem (some g) e = (g, refl)

deref_lem : (g : Option Game) {h : Game} → deref g ≡ ok h → g ≡ some h
unfolding deref
deref_lem none e = absurd (cc)
deref_lem (some g) e = cc

module _ {S : Type 0} (sha512 : Bytes → Bytes) (ctx : Context S) (held : S → Bytes → Bytes)
    (store : IsStore ctx held) where
  -- A load of one game reads what is held.
  abbrev Reads : Bytes → XoState S → Option Game → XoState S → Type 0
  Reads name x g y =
      ((m : Dict Game) × (parse_held (held x.world (make_address sha512 name)) ≡ ok m)
        × (g ≡ lookup name m))
      × IsCoherent held y
      × ((b : Bytes) → held y.world b ≡ held x.world b)

  get_game-Reads :
      (name : Bytes) (x : XoState S) {g : Option Game} {y : XoState S}
      → IsCoherent held x
      → get_game sha512 ctx name x ≡ (ok g, y)
      → Reads name x g y
  unfolding get_game
  get_game-Reads name x {g} {y} c done =
      let (m, u, loaded, rest) =
        >>=-eq-ok (load_games sha512 ctx name) (λ games. pure (lookup name games)) x done in
      let (before, coherent, same) = load_games-Loads sha512 ctx held store name x c loaded in
      let (eg, ey) = ended-eq rest in rw (← ey) ((m, before, sym (ok-injective eg)), coherent, same)

  -- a load and a check of what it found
  checked :
      (name : Bytes) (check : Option Game → Outcome (Unit {0})) (x : XoState S) {y : XoState S}
      → IsCoherent held x
      → (get_game sha512 ctx name >>= λ g. lift (check g)) x ≡ (ok tt, y)
      → (g : Option Game) × (check g ≡ ok tt) × Reads name x g y
  checked name check x {y} c done =
      let (g, u, got, rest) = >>=-eq-ok (get_game sha512 ctx name) (λ g. lift (check g)) x done in
      let (passed, ey) = lift-eq_ok rest in (g, passed, rw (← ey) (get_game-Reads name x c got))

  -- A state in which everything is held as in `x` may stand for `x`.
  Changes-from :
      (a : Bytes) (x u : XoState S) {y : XoState S} {m r : Dict Game}
      → ((b : Bytes) → held u.world b ≡ held x.world b)
      → Changes held a u y m r
      → Changes held a x y m r
  Changes-from a x u same c = record {
    before = rw (← same a) c.before;
    after = c.after;
    elsewhere = λ b differ. c.elsewhere b differ ∙ same b;
  }

  -- the same data is parsed to one map
  one_map :
      (d e : Bytes) {m n : Dict Game} → e ≡ d → parse_held d ≡ ok m → parse_held e ≡ ok n → m ≡ n
  one_map d e same p q = ok-injective (sym p ∙ ap parse_held (sym same) ∙ q)

  -- The games of one address with one entry changed, and everything else as it was.
  abbrev pub Replaces : Bytes → Option Game → S → S → Dict Game → Type 0
  Replaces name g s t m =
      (parse_held (held s (make_address sha512 name)) ≡ ok m)
      × ((r : Dict Game) × (parse_held (held t (make_address sha512 name)) ≡ ok r)
          × ((j : Bytes) → lookup j r ≡ (if bytes_eq name j then g else lookup j m)))
      × ((b : Bytes) → bytes_eq (make_address sha512 name) b ≡ false → held t b ≡ held s b)

  stored :
      (name : Bytes) (g : Game) (x u : XoState S) {y : XoState S} {m : Dict Game}
      → IsCoherent held u
      → IsPlain g
      → g.name ≡ name
      → ((b : Bytes) → held u.world b ≡ held x.world b)
      → parse_held (held x.world (make_address sha512 name)) ≡ ok m
      → set_game sha512 ctx name g u ≡ (ok tt, y)
      → Replaces name (some g) x.world y.world m
  stored name g x u {y} {m} c plain named same before done =
      let a = make_address sha512 name in
      let (n, r, changes, back, final) =
        set_game_lem sha512 ctx held store name g u c plain named done in
      let mn : m ≡ n = one_map (held x.world a) (held u.world a) (same a) before changes.before in
      (
        before,
        (r, changes.after, λ j. rw mn (back j)),
        λ b differ. changes.elsewhere b differ ∙ same b,
      )

  -- `create` with an accessor whose cache agrees with the state, on a context that keeps what is
  -- written, and with a name that the text form can hold: if it succeeds, no game was held under
  -- the name, and afterwards the games at the name's address read back with the new game under the
  -- name and the others as they were, and every other address holds the same data.
  pub create-Replaces :
      (payload : XoPayload) (player : Bytes) (x : XoState S) {y : XoState S}
      → IsCoherent held x
      → IsPlain (new_game payload.name)
      → create sha512 ctx payload player x ≡ (ok tt, y)
      → (m : Dict Game) × (lookup payload.name m ≡ none)
        × Replaces payload.name (some (new_game payload.name)) x.world y.world m
  unfolding create absent_or new_game
  create-Replaces payload player x {y} c plain done =
      let name = payload.name in
      let (unit, u, valid, rest) =
        >>=-eq-ok (validate_create sha512 ctx name)
          (λ _. lift (display_create payload player) >> set_game sha512 ctx name (new_game name)) x
          done in
      let (g, passed, reads) = checked name absent_or x c valid in
      let (read, coherent, same) = reads in
      let (m, before, eg) = read in
      let (lines, v, shown, set) =
        >>=-eq-ok (lift (display_create payload player))
          (λ _. set_game sha512 ctx name (new_game name)) u rest in
      let uv = (lift-eq_ok shown).1 in
      (
        m,
        sym eg ∙ absent_or_lem g passed,
        stored name (new_game name) x u {y = y} coherent plain refl same before (rw uv set),
      )

  -- `delete` with an accessor whose cache agrees with the state, on a context that keeps what is
  -- written: if it succeeds, a game was held under the name, and afterwards the games at the name's
  -- address read back without it and the others as they were, and every other address holds the
  -- same data.
  pub delete-Replaces :
      (payload : XoPayload) (x : XoState S) {y : XoState S}
      → IsCoherent held x
      → delete sha512 ctx payload x ≡ (ok tt, y)
      → (m : Dict Game) × ((g : Game) × (lookup payload.name m ≡ some g))
        × Replaces payload.name none x.world y.world m
  unfolding delete
  delete-Replaces payload x {y} c done =
      let name = payload.name in
      let a = make_address sha512 name in
      let (unit, u, valid, gone) =
        >>=-eq-ok (validate_delete sha512 ctx name) (λ _. delete_game sha512 ctx name) x done in
      let (g, passed, reads) = checked name present_or x c valid in
      let (read, coherent, same) = reads in
      let (m, before, eg) = read in
      let (n, r, changes, back) = delete_game_lem sha512 ctx held store name u coherent gone in
      let mn : m ≡ n = one_map (held x.world a) (held u.world a) (same a) before changes.before in
      let found = present_or_lem g passed in
      (
        m,
        (found.0, sym eg ∙ found.1),
        (
          before,
          (r, changes.after, λ j. rw mn (back j)),
          λ b differ. changes.elsewhere b differ ∙ same b,
        ),
      )

  -- `take` with an accessor whose cache agrees with the state, on a context that keeps what is
  -- written, by a player whose key is plain text: if it succeeds, the game under the name passed
  -- the checks, and afterwards the games at the name's address read back with the game as played
  -- and the others as they were, and every other address holds the same data.
  pub take-Replaces :
      (payload : XoPayload) (player : Bytes) (x : XoState S) {y : XoState S}
      → IsCoherent held x
      → Plain player
      → take sha512 ctx payload player x ≡ (ok tt, y)
      → (m : Dict Game) × (g : Game) × (g' : Game) × (lookup payload.name m ≡ some g)
        × (check_take (some g) payload.space ≡ ok tt)
        × (play player payload.space g ≡ ok g')
        × Replaces payload.name (some g') x.world y.world m
  unfolding take
  take-Replaces payload player x {y} c plain done =
      let name = payload.name in
      let a = make_address sha512 name in
      let (unit, u, valid, rest) = >>=-eq-ok (validate_take sha512 ctx payload) _ x done in
      let (o, passed, reads) = checked name (λ g. check_take g payload.space) x c valid in
      let (read, coherent, same) = reads in
      let (m, before, eo) = read in
      let (loaded, v, got, rest1) = >>=-eq-ok (get_game sha512 ctx name) _ u rest in
      let (again, coherent1, same1) = get_game-Reads name u coherent got in
      let (n, before1, el) = again in
      let mn : m ≡ n = one_map (held x.world a) (held u.world a) (same a) before before1 in
      let (g, v1, there, rest2) = >>=-eq-ok (lift (deref loaded)) _ v rest1 in
      let found : lookup name m ≡ some g = rw mn (sym el ∙ deref_lem loaded (lift-eq_ok there).0) in
      let (g', v2, played, rest3) = >>=-eq-ok (lift (play player payload.space g)) _ v1 rest2 in
      let plays : play player payload.space g ≡ ok g' = (lift-eq_ok played).0 in
      let (lines, v3, shown, set) = >>=-eq-ok (lift (display_take payload player g')) _ v2 rest3 in
      let vs : v ≡ v3 = (lift-eq_ok there).1 ∙ ((lift-eq_ok played).1 ∙ (lift-eq_ok shown).1) in
      let (named, plain_g) = parse_held-IsFiled sha512 ctx held store _ before name g found in
      let kept : Keeps g (ok g') = rw plays at (play-Keeps player payload.space g plain plain_g) in
      (
        m,
        g,
        g',
        found,
        rw (eo, found) at passed,
        plays,
        stored name g' x v {y = y} coherent1 kept.1 (kept.0 ∙ named) (λ b. same1 b ∙ same b) before
            (rw vs set),
      )
