-- ===== src/Xo/Board.antt =====
-- The rules of the game in handler/handler.go: `isWin`, `validateTake`, and the part of `Apply`
-- that plays a `take`. Boards hold ASCII only, so that a rune is a byte.
pub mod Lines
pub mod Turns
pub mod Judge
pub mod Take
pub mod Plain
use sawtooth_sdk_go.Base.{
  ℕ, suc, ◌-◌, Bytes, text, bytes_eq, contains_byte, get_elem?, set, List, [], ◌∷◌, ◌++◌, ◌==◌, not,
  ◌&&◌, ◌||◌, ℤ, pos, negsuc, Option, none, some, Bool, true, false, if◌then◌else◌,
}
use sawtooth_sdk_go.Processor.Errors.{Outcome, ok, err, panic, invalid}
use sawtooth_sdk_go.Xo.Games.{Game}

-- the states of a game
unfoldable pub p1_next : Bytes
p1_next = text "P1-NEXT"

unfoldable pub p2_next : Bytes
p2_next = text "P2-NEXT"

unfoldable pub p1_win : Bytes
p1_win = text "P1-WIN"

unfoldable pub p2_win : Bytes
p2_win = text "P2-WIN"

unfoldable pub tie : Bytes
tie = text "TIE"

abbrev pub blank : ℕ
blank = b'-'

-- `board[i - 1] == letter && rest`: the rest is not evaluated if the cell differs
and_cell : Bytes → ℕ → ℕ → Outcome Bool → Outcome Bool
and_cell board letter i rest = elim (get_elem? board (i - 1)) [
  | none ↦ panic
  | some c ↦ if c == letter then rest else ok false
]

is_line : Bytes → ℕ → ℕ × ℕ × ℕ → Outcome Bool
unfolding and_cell
is_line board letter (i, j, k) =
    and_cell board letter i (and_cell board letter j (and_cell board letter k (ok true)))

-- a loop round: it returns true at a line
or_else : Outcome Bool → Outcome Bool → Outcome Bool
or_else (ok true) rest = ok true
or_else (ok false) rest = rest
or_else (err e) rest = err e
or_else panic rest = panic

any_line : Bytes → ℕ → List (ℕ × ℕ × ℕ) → Outcome Bool
unfolding is_line or_else
any_line board letter [] = ok false
any_line board letter (w ∷ ws) =
    let rest = any_line board letter ws in or_else (is_line board letter w) rest

abbrev wins : List (ℕ × ℕ × ℕ)
wins =
    (1, 2, 3)
    ∷ (4, 5, 6)
    ∷ (7, 8, 9)
    ∷ (1, 4, 7)
    ∷ (2, 5, 8)
    ∷ (3, 6, 9)
    ∷ (1, 5, 9)
    ∷ (3, 5, 7)
    ∷ []

unfoldable pub is_win : Bytes → ℕ → Outcome Bool
unfolding any_line
is_win board letter = any_line board letter wins

-- the index `payload.Space - 1`, where there is one
unfoldable pub cell_index : ℤ → Option ℕ
cell_index (pos (suc n)) = some n
cell_index z = none

-- `xs[payload.Space - 1]`; `none` where Go panics
unfoldable pub cell_at : Bytes → ℤ → Option ℕ
unfolding cell_index
cell_at board space = elim (cell_index space) [ none ↦ none | some i ↦ get_elem? board i ]

-- `boardRunes[payload.Space - 1] = mark`
unfoldable pub mark_at : Bytes → ℤ → ℕ → Outcome Bytes
unfolding cell_at cell_index
mark_at board (pos (suc i)) mark = elim (get_elem? board i) [
  | none ↦ panic
  | some c ↦ ok (set board i mark)
]
mark_at board z mark = panic

unfoldable pub has_ended : Game → Bool
has_ended g = bytes_eq g.state p1_win || (bytes_eq g.state p2_win || bytes_eq g.state tie)

-- the checks of `validateTake` on the game that it loaded; the second test of the end is the same
unfoldable pub check_take : Option Game → ℤ → Outcome (Unit {0})
check_take none space = err (invalid (text "Take requires an existing game"))
check_take (some g) space =
    if has_ended g
    then err (invalid (text "Game has ended"))
    else if has_ended g
    then err (invalid (text "Invalid Action: Game has ended"))
    else elim (cell_at g.board space) [
      | none ↦ panic
      | some c ↦ if c == blank then ok tt else err (invalid (text "Space already taken"))
    ]

-- "Assign players if new game"
unfoldable pub assign_players : Bytes → Game → Game
assign_players player g =
    if bytes_eq g.player1 []
    then record g { player1 = player }
    else if bytes_eq g.player2 []
    then record g { player2 = player }
    else g

with_mark : Game → Bytes → Outcome Bytes → Outcome Game
with_mark g next (ok board) = ok (record g { board = board; state = next })
with_mark g next (err e) = err e
with_mark g next panic = panic

-- the two turns, and the refusal of anybody else
unfoldable pub make_move : Bytes → ℤ → Game → Outcome Game
unfolding with_mark
make_move player space g =
    if bytes_eq g.state p1_next && bytes_eq player g.player1
    then with_mark g p2_next (mark_at g.board space b'X')
    else if bytes_eq g.state p2_next && bytes_eq player g.player2
    then with_mark g p1_next (mark_at g.board space b'O')
    else err (invalid (text "Not this player's turn: '" ++ player ++ text "'"))

-- `if isWin(..) { game.State = state } else { rest }`
if_win : Outcome Bool → Game → Bytes → Outcome Game → Outcome Game
if_win (ok true) g state rest = ok (record g { state = state })
if_win (ok false) g state rest = rest
if_win (err e) g state rest = err e
if_win panic g state rest = panic

unfoldable pub judge : Game → Outcome Game
unfolding if_win
judge g = if_win (is_win g.board b'X') g p1_win (
    if_win (is_win g.board b'O') g p2_win
      (if not (contains_byte blank g.board) then ok (record g { state = tie }) else ok g))

judged : Outcome Game → Outcome Game
judged (ok g) = judge g
judged (err e) = err e
judged panic = panic

-- what `Apply` makes of the loaded game before it displays and stores it
unfoldable pub play : Bytes → ℤ → Game → Outcome Game
unfolding judged
play player space g = judged (make_move player space (assign_players player g))
