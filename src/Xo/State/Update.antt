-- ===== src/Xo/State/Update.antt =====
-- `SetGame` and `DeleteGame` of xo_state.go against the data that the validator holds.
use sawtooth_sdk_go.Base.{
  ◌≡◌, refl, ◌∙◌, Bytes, bytes_eq, bytes_eq_refl, Dict, lookup, insert, erase, lookup-insert,
  lookup-erase, [], ◌∷◌, none, some, false, Bool-cases, inl, inr, if◌then◌else◌,
}
use mathlib.Core.Path.{subst}
use sawtooth_sdk_go.Processor.Errors.{
  Outcome, ok, err, panic, pure, continue_with, ◌>>=◌, >>=-eq-ok, ended-eq,
}
use sawtooth_sdk_go.Processor.Store.{Context, IsStore}
use sawtooth_sdk_go.Xo.Games.{Game, deserialize}
use sawtooth_sdk_go.Xo.Games.RoundTrip.{IsFiled, IsPlain}
use sawtooth_sdk_go.Xo.Games.Filed.{IsFiled-insert}
use sawtooth_sdk_go.Xo.State.{
  XoState, make_address, on_world, load_games, store_games, delete_games, get_game, set_game,
  store_or_delete, delete_game,
}
use sawtooth_sdk_go.Xo.State.Coherence.{
  parse_held, IsCoherent, on_world-eq, load_games-Loads, parse_held-IsFiled, store_games-Stores,
}

-- How the games held at one address changed between two states: `m` before and `r` after.
pub record Changes {S : Type 0} (held : S → Bytes → Bytes) (a : Bytes) (x y : XoState S)
    (m r : Dict Game) : Type 0 where
  pub before : parse_held (held x.world a) ≡ ok m
  pub after : parse_held (held y.world a) ≡ ok r
  pub elsewhere : (b : Bytes) → bytes_eq a b ≡ false → held y.world b ≡ held x.world b

module _ {S : Type 0} (sha512 : Bytes → Bytes) (ctx : Context S) (held : S → Bytes → Bytes)
    (store : IsStore ctx held) where
  -- A game that is set is held under its name, with the other games of its address and all other
  -- addresses as they were, collisions of the address included.
  pub set_game_lem :
      (name : Bytes) (g : Game) (x : XoState S) {y : XoState S}
      → IsCoherent held x
      → IsPlain g
      → g.name ≡ name
      → set_game sha512 ctx name g x ≡ (ok tt, y)
      → (m : Dict Game) × (r : Dict Game) × Changes held (make_address sha512 name) x y m r
        × ((j : Bytes) → lookup j r ≡ (if bytes_eq name j then some g else lookup j m))
        × IsCoherent held y
  unfolding set_game
  set_game_lem name g x {y} c plain named done =
      let (m, u, loaded, stored) =
        >>=-eq-ok (load_games sha512 ctx name)
          (λ games. store_games sha512 ctx name (insert name g games)) x done in
      let (before, coherent, same) = load_games-Loads sha512 ctx held store name x c loaded in
      let filed : IsFiled (insert name g m) =
        subst (λ k. IsFiled (insert k g m)) named
          (IsFiled-insert m g (parse_held-IsFiled sha512 ctx held store _ before) plain) in
      let found : lookup name (insert name g m) ≡ some g = rw (lookup-insert, bytes_eq_refl) in
      let (back, final, others) =
        store_games-Stores sha512 ctx held store name name g (insert name g m) u filed found
          coherent stored in
      (
        m,
        back.0,
        record {
          before = before;
          after = back.1;
          elsewhere = λ b differ. others b differ ∙ same b;
        },
        λ j. back.2 j ∙ lookup-insert name j g m,
        final,
      )

  -- what is held after the last game of an address is deleted
  cleared :
      (a : Bytes) (x : XoState S) {y : XoState S}
      → (on_world (ctx.delete_state (a ∷ [])) >>= λ _. pure tt) x ≡ (ok tt, y)
      → (parse_held (held y.world a) ≡ ok [])
        × ((b : Bytes) → bytes_eq a b ≡ false → held y.world b ≡ held x.world b)
  cleared a x {y} done =
      let (r, u, deleted, rest) =
        >>=-eq-ok (on_world (ctx.delete_state (a ∷ []))) (λ _. pure tt) x done in
      let (reply, moved) = on_world-eq (ctx.delete_state (a ∷ [])) x deleted in
      let ey : u ≡ y = (ended-eq rest).1 in
      rw (← ey) (
        rw (store.delete_clears a a x.world reply, bytes_eq_refl, bytes_eq_refl),
        λ b differ. rw (store.delete_clears a b x.world reply, differ),
      )

  store_or_delete_lem :
      (name : Bytes) (m : Dict Game) (u : XoState S) {y : XoState S}
      → IsFiled m
      → IsCoherent held u
      → store_or_delete sha512 ctx name m u ≡ (ok tt, y)
      → (r : Dict Game) × (parse_held (held y.world (make_address sha512 name)) ≡ ok r)
        × ((j : Bytes) → lookup j r ≡ lookup j m)
        × ((b : Bytes)
            → bytes_eq (make_address sha512 name) b ≡ false
            → held y.world b ≡ held u.world b)
  unfolding store_or_delete delete_games
  store_or_delete_lem name [] u f c done =
      let (empty, others) = cleared (make_address sha512 name) u done in
      ([], empty, λ j. refl, others)
  store_or_delete_lem name ((k, g) ∷ m) u f c done =
      let found : lookup k ((k, g) ∷ m) ≡ some g = unfold lookup in rw bytes_eq_refl in
      let (back, final, others) =
        store_games-Stores sha512 ctx held store name k g ((k, g) ∷ m) u f found c done in
      (back.0, back.1, back.2, others)

  IsFiled-erase : (name : Bytes) (m : Dict Game) → IsFiled m → IsFiled (erase name m)
  IsFiled-erase name m f k g found = elim (Bool-cases (bytes_eq name k)) [
    | inl same ↦ absurd (let gone : none ≡ some g = rw (lookup-erase, same) at found in cc)
    | inr differ ↦ f k g (rw (lookup-erase, differ) at found)
  ]

  -- A game that is deleted is held no more, with the other games of its address and all other
  -- addresses as they were. The last game of an address clears it.
  pub delete_game_lem :
      (name : Bytes) (x : XoState S) {y : XoState S}
      → IsCoherent held x
      → delete_game sha512 ctx name x ≡ (ok tt, y)
      → (m : Dict Game) × (r : Dict Game) × Changes held (make_address sha512 name) x y m r
        × ((j : Bytes) → lookup j r ≡ (if bytes_eq name j then none else lookup j m))
  unfolding delete_game
  delete_game_lem name x {y} c done =
      let (m, u, loaded, stored) =
        >>=-eq-ok (load_games sha512 ctx name)
          (λ games. store_or_delete sha512 ctx name (erase name games)) x done in
      let (before, coherent, same) = load_games-Loads sha512 ctx held store name x c loaded in
      let filed = IsFiled-erase name m (parse_held-IsFiled sha512 ctx held store _ before) in
      let (r, after, back, others) =
        store_or_delete_lem name (erase name m) u filed coherent stored in
      (
        m,
        r,
        record { before = before; after = after; elsewhere = λ b differ. others b differ ∙ same b },
        λ j. back j ∙ lookup-erase name j m,
      )

-- The value of a call that ends in `pure` does not depend on the state.
continue_pure :
    {S A B : Type 0} (r : Outcome A) (f : A → B) (x y : S)
    → (continue_with (λ a. pure (f a)) (r, x)).0 ≡ (continue_with (λ a. pure (f a)) (r, y)).0
continue_pure (ok a) f x y = refl
continue_pure (err e) f x y = refl
continue_pure panic f x y = refl

-- `deleteGames` leaves the accessor's cache as it was: a game that was loaded is found by the same
-- accessor after its address has been deleted.
pub delete_games-stale :
    {S : Type 0} (sha512 : Bytes → Bytes) (ctx : Context S) (name d : Bytes) (x : XoState S)
    {y : XoState S}
    → lookup (make_address sha512 name) x.address_cache ≡ some (some d)
    → delete_games sha512 ctx name x ≡ (ok tt, y)
    → (get_game sha512 ctx name y).0 ≡ (get_game sha512 ctx name x).0
unfolding delete_games get_game
delete_games-stale sha512 ctx name d x {y} cached done =
    let (r, u, deleted, rest) =
      >>=-eq-ok (on_world (ctx.delete_state (make_address sha512 name ∷ []))) (λ _. pure tt) x
        done in
    let (reply, moved) = on_world-eq (ctx.delete_state (make_address sha512 name ∷ [])) x deleted in
    let ey : u ≡ y = (ended-eq rest).1 in
    rw (← ey, moved, cached) (continue_pure (deserialize d) (lookup name) _ _)
