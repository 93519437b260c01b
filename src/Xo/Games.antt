-- ===== src/Xo/Games.antt =====
-- xo_state/xo_state.go: a game, and the text `name,board,state,player1,player2|...` of the games
-- at one address.
pub mod RoundTrip
pub mod Filed
use sawtooth_sdk_go.Base.{
  Bytes, text, Dict, lookup, insert, keys, sort_strings, split, List, [], ◌∷◌, ◌++◌, Option, none,
  some,
}
use sawtooth_sdk_go.Processor.Errors.{Outcome, ok, err, internal}

pub record Game : Type 0 where
  pub board : Bytes
  pub state : Bytes
  pub player1 : Bytes
  pub player2 : Bytes
  pub name : Bytes

-- what one round of the loop in `serialize` writes, without the separator behind it
row : Game → Bytes
row g =
    g.name ++ (b',' ∷ (g.board ++ (b',' ∷ (g.state ++ (b',' ∷ (g.player1 ++ (b',' ∷ g.player2)))))))

-- `|` stands behind every game but the last
unfoldable pub serialize : List Game → Bytes
unfolding row
serialize [] = []
serialize (g ∷ []) = row g
serialize (g ∷ h ∷ gs) = row g ++ (b'|' ∷ serialize (h ∷ gs))

parse_row : List Bytes → Option Game
parse_row (name ∷ board ∷ state ∷ player1 ∷ player2 ∷ []) =
    some
      (record { board = board; state = state; player1 = player1; player2 = player2; name = name })
parse_row parts = none

-- the loop of `deserialize` over the rows; `whole` is for the message
load_rows : Bytes → List Bytes → Dict Game → Outcome (Dict Game)
unfolding parse_row
load_rows whole [] games = ok games
load_rows whole (r ∷ rs) games = elim (parse_row (split b',' r)) [
  | none ↦ err (internal (text "Malformed game data: '" ++ whole ++ text "'"))
  | some g ↦ load_rows whole rs (insert g.name g games)
]

unfoldable pub deserialize : Bytes → Outcome (Dict Game)
unfolding load_rows
deserialize whole = load_rows whole (split b'|' whole) []

-- `games[name]` for each name; the names are the map's keys, so none is missing
pick : Dict Game → List Bytes → List Game
pick games [] = []
pick games (n ∷ ns) = elim (lookup n games) [ none ↦ pick games ns | some g ↦ g ∷ pick games ns ]

-- the data that `storeGames` writes: the games in the order of their names
unfoldable pub store_data : Dict Game → Bytes
unfolding pick
store_data games = serialize (pick games (sort_strings (keys games)))
