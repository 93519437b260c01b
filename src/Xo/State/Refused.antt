-- ===== src/Xo/State/Refused.antt =====
-- Which calls of the accessor change what is held if they end with an error: none.
use sawtooth_sdk_go.Base.{
  ◌≡◌, refl, Bytes, bytes_eq, Dict, lookup, insert, erase, Option, none, some, [], ◌∷◌, Bool-cases,
  inl, inr,
}
use sawtooth_sdk_go.Processor.Errors.{Call, pure, ◌>>=◌, ended-eq}
use sawtooth_sdk_go.Processor.Store.{Context, data_at}
use sawtooth_sdk_go.Processor.Store.Clean.{
  FailsCleanly, IsClean, Keeps, >>=-IsClean, >>=-IsClean_last, >>=-Keeps,
}
use sawtooth_sdk_go.Xo.Games.{Game, store_data}
use sawtooth_sdk_go.Xo.State.{
  XoState, make_address, on_world, remember, load_fetched, load_games_at, load_games, store_games,
  delete_games, get_game, set_game, store_or_delete, delete_game,
}

module _ {S : Type 0} (sha512 : Bytes → Bytes) (ctx : Context S) (held : S → Bytes → Bytes)
    (clean : FailsCleanly ctx held) where
  -- what is held in the world behind the cache
  abbrev pub view : XoState S → Bytes → Bytes
  view x = held x.world

  load_fetched-Keeps :
      (address : Bytes) (results : Dict Bytes)
      → Keeps view (load_fetched sha512 ctx address results)
  unfolding load_fetched
  load_fetched-Keeps address results = record { keeps = same }
    where
      same :
          (x : XoState S) (b : Bytes)
          → held (load_fetched sha512 ctx address results x).1.world b ≡ held x.world b
      same x b = elim (Bool-cases (bytes_eq (data_at address results) [])) [
        | inl empty ↦ rw empty refl
        | inr more ↦ rw more refl
      ]

  load_games_at-Keeps :
      (address : Bytes) (cached : Option (Option Bytes))
      → Keeps view (load_games_at sha512 ctx address cached)
  unfolding load_games_at
  load_games_at-Keeps address (some (some bytes)) = record { keeps = λ x b. refl }
  load_games_at-Keeps address (some none) = record { keeps = λ x b. refl }
  load_games_at-Keeps address none =
      >>=-Keeps view (on_world (ctx.get_state (address ∷ []))) (load_fetched sha512 ctx address)
        (record { keeps = λ x b. clean.get_keeps_all (address ∷ []) x.world b })
        (load_fetched-Keeps address)

  load_games-Keeps : (name : Bytes) → Keeps view (load_games sha512 ctx name)
  unfolding load_games
  load_games-Keeps name = record {
    keeps = λ x b.
        (load_games_at-Keeps (make_address sha512 name)
            (lookup (make_address sha512 name) x.address_cache)).keeps
          x b;
  }

  pub get_game-Keeps : (name : Bytes) → Keeps view (get_game sha512 ctx name)
  unfolding get_game
  get_game-Keeps name =
      >>=-Keeps view (load_games sha512 ctx name) (λ games. pure (lookup name games))
        (load_games-Keeps name) (λ games. record { keeps = λ x b. refl })

  -- A call of the context whose result is dropped.
  dropped-IsClean :
      {A : Type 0} (m : Call S A) → IsClean held m → IsClean view (on_world m >>= λ _. pure tt)
  dropped-IsClean m c =
      >>=-IsClean_last view (on_world m) (λ _. pure tt)
        (record {
          refused_keeps = λ x b e y ends.
              c.refused_keeps x.world b e y.world
                (λ i. ((ended-eq ends).0 i, ((ended-eq ends).1 i).world));
        })
        (λ a. record { no_error = λ x e y ends. cc })

  store_games-IsClean :
      (name : Bytes) (games : Dict Game) → IsClean view (store_games sha512 ctx name games)
  unfolding store_games
  store_games-IsClean name games =
      let address = make_address sha512 name in
      let bytes = store_data games in
      let set : IsClean held (ctx.set_state ((address, bytes) ∷ [])) = record {
        refused_keeps = λ s b e t ends. clean.set_failed ((address, bytes) ∷ []) s b ends;
      } in
      record {
        refused_keeps = λ x b e y ends.
            (dropped-IsClean (ctx.set_state ((address, bytes) ∷ [])) set).refused_keeps
              (remember address (some bytes) x) b e y ends;
      }

  delete_games-IsClean : (name : Bytes) → IsClean view (delete_games sha512 ctx name)
  unfolding delete_games
  delete_games-IsClean name =
      let address = make_address sha512 name in
      dropped-IsClean (ctx.delete_state (address ∷ []))
        (record { refused_keeps = λ s b e t ends. clean.delete_failed (address ∷ []) s b ends })

  store_or_delete-IsClean :
      (name : Bytes) (games : Dict Game) → IsClean view (store_or_delete sha512 ctx name games)
  unfolding store_or_delete
  store_or_delete-IsClean name [] = delete_games-IsClean name
  store_or_delete-IsClean name (e ∷ games) = store_games-IsClean name (e ∷ games)

  pub set_game-IsClean : (name : Bytes) (game : Game) → IsClean view (set_game sha512 ctx name game)
  unfolding set_game
  set_game-IsClean name game =
      >>=-IsClean view (load_games sha512 ctx name) _ (load_games-Keeps name)
        λ games. store_games-IsClean name (insert name game games)

  pub delete_game-IsClean : (name : Bytes) → IsClean view (delete_game sha512 ctx name)
  unfolding delete_game
  delete_game-IsClean name =
      >>=-IsClean view (load_games sha512 ctx name) _ (load_games-Keeps name)
        λ games. store_or_delete-IsClean name (erase name games)
