-- ===== src/Xo/State.antt =====
-- xo_state/xo_state.go: the state accessor with its cache of the data at each address. One value
-- is made for each transaction; the parameter `ctx` is the transaction's context.
pub mod Refused
pub mod Coherence
pub mod Update
use sawtooth_sdk_go.Base.{
  Bytes, text, bytes_eq, Dict, lookup, insert, erase, take, hexdigest, [], ◌∷◌, ◌++◌, Option, none,
  some, if◌then◌else◌,
}
use sawtooth_sdk_go.Processor.Errors.{ok, Call, pure, ◌>>=◌}
use sawtooth_sdk_go.Processor.Store.{Context, data_at}
use sawtooth_sdk_go.Xo.Games.{Game, deserialize, store_data}

-- the state behind `self`: the cache, in which `none` is nil, and what the context acts on
pub record XoState (S : Type 0) : Type 0 where
  pub address_cache : Dict (Option Bytes)
  pub world : S

-- `NewXoState(context)`
unfoldable pub new_xo_state : {S : Type 0} → S → XoState S
new_xo_state s = record { address_cache = []; world = s }

module _ (sha512 : Bytes → Bytes) where
  unfoldable pub namespace : Bytes
  namespace = take 6 (hexdigest sha512 (text "xo"))

  unfoldable pub make_address : Bytes → Bytes
  unfolding namespace
  make_address name = namespace ++ take 64 (hexdigest sha512 name)

module _ {S : Type 0} where
  -- a call of the context: the cache is left alone
  abbrev pub on_world : {A : Type 0} → Call S A → Call (XoState S) A
  on_world m x = let (r, s) = m x.world in (r, record x { world = s })

  -- `self.addressCache[address] = data`
  abbrev pub remember : Bytes → Option Bytes → XoState S → XoState S
  remember a d x = record x { address_cache = insert a d x.address_cache }

module _ {S : Type 0} (sha512 : Bytes → Bytes) (ctx : Context S) where
  -- what `loadGames` does with the data that the context returned
  load_fetched : Bytes → Dict Bytes → Call (XoState S) (Dict Game)
  load_fetched address results x =
      let bytes = data_at address results in
      if bytes_eq bytes []
      then (ok [], remember address none x)
      else (deserialize bytes, remember address (some bytes) x)

  -- the cache first: nil stands for an address known to be empty
  load_games_at : Bytes → Option (Option Bytes) → Call (XoState S) (Dict Game)
  unfolding load_fetched
  load_games_at address (some (some bytes)) x = (deserialize bytes, x)
  load_games_at address (some none) x = (ok [], x)
  load_games_at address none x =
      (on_world (ctx.get_state (address ∷ [])) >>= load_fetched address) x

  unfoldable pub load_games : Bytes → Call (XoState S) (Dict Game)
  unfolding load_games_at
  load_games name x =
      let address = make_address sha512 name in
      load_games_at address (lookup address x.address_cache) x

  unfoldable pub store_games : Bytes → Dict Game → Call (XoState S) (Unit {0})
  store_games name games x =
      let address = make_address sha512 name in
      let bytes = store_data games in
      (on_world (ctx.set_state ((address, bytes) ∷ [])) >>= λ _. pure tt)
        (remember address (some bytes) x)

  -- The cache keeps what it held.
  unfoldable pub delete_games : Bytes → Call (XoState S) (Unit {0})
  delete_games name = on_world (ctx.delete_state (make_address sha512 name ∷ [])) >>= λ _. pure tt

  -- `none` is the nil game
  unfoldable pub get_game : Bytes → Call (XoState S) (Option Game)
  unfolding load_games
  get_game name = load_games name >>= λ games. pure (lookup name games)

  unfoldable pub set_game : Bytes → Game → Call (XoState S) (Unit {0})
  unfolding load_games store_games
  set_game name game = load_games name >>= λ games. store_games name (insert name game games)

  -- `if len(games) > 0`
  store_or_delete : Bytes → Dict Game → Call (XoState S) (Unit {0})
  unfolding store_games delete_games
  store_or_delete name [] = delete_games name
  store_or_delete name (e ∷ games) = store_games name (e ∷ games)

  unfoldable pub delete_game : Bytes → Call (XoState S) (Unit {0})
  unfolding load_games store_or_delete
  delete_game name = load_games name >>= λ games. store_or_delete name (erase name games)
