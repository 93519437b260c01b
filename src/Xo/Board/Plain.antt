-- ===== src/Xo/Board/Plain.antt =====
-- A move keeps the game's name and writes no separator into its fields.
use sawtooth_sdk_go.Base.{
  ℕ, zero, suc, ◌≡◌, ◌≢◌, refl, ◌∙◌, Bytes, text, bytes_eq, contains_byte, get_elem?, set, Lacks,
  [], ◌∷◌, ◌&&◌, inl, inr, ℤ, pos, negsuc, Bool, true, false, Bool-cases, Option-cases, arith,
}
use sawtooth_sdk_go.Processor.Errors.{Outcome, ok, err, panic}
use sawtooth_sdk_go.Xo.Games.{Game}
use sawtooth_sdk_go.Xo.Games.RoundTrip.{IsPlain}
use sawtooth_sdk_go.Xo.Board.{
  p1_next, p2_next, p1_win, p2_win, tie, blank, is_win, mark_at, assign_players, with_mark,
  make_move, if_win, judge, judged, play,
}

-- a text without the separators of state data
abbrev pub Plain : Bytes → Type 0
Plain s = Lacks b',' s × Lacks b'|' s

Lacks-set : (b i v : ℕ) (xs : Bytes) → v ≢ b → Lacks b xs → Lacks b (set xs i v)
Lacks-set b i v [] ne h = tt
Lacks-set b zero v (x ∷ xs) ne h = (ne, h.1)
Lacks-set b (suc i) v (x ∷ xs) ne h = (h.0, Lacks-set b i v xs ne h.1)

-- A board and a state put into a plain game.
with_board_state :
    (g : Game) (board state : Bytes)
    → IsPlain g
    → Plain board
    → Plain state
    → IsPlain (record g { board = board; state = state })
with_board_state g board state p b s = record {
  name_comma = p.name_comma;
  name_bar = p.name_bar;
  board_comma = b.0;
  board_bar = b.1;
  state_comma = s.0;
  state_bar = s.1;
  player1_comma = p.player1_comma;
  player1_bar = p.player1_bar;
  player2_comma = p.player2_comma;
  player2_bar = p.player2_bar;
}

with_players :
    (g : Game) (one two : Bytes)
    → IsPlain g
    → Plain one
    → Plain two
    → IsPlain (record g { player1 = one; player2 = two })
with_players g one two p a b = record {
  name_comma = p.name_comma;
  name_bar = p.name_bar;
  board_comma = p.board_comma;
  board_bar = p.board_bar;
  state_comma = p.state_comma;
  state_bar = p.state_bar;
  player1_comma = a.0;
  player1_bar = a.1;
  player2_comma = b.0;
  player2_bar = b.1;
}

-- Every state that the handler writes is plain.
pub states-Plain : Plain p1_next × Plain p2_next × Plain p1_win × Plain p2_win × Plain tie
unfolding p1_next p2_next p1_win p2_win tie text
states-Plain = omega arith

-- What a call on games keeps.
abbrev pub Keeps : Game → Outcome Game → Type 0
Keeps g (ok h) = (h.name ≡ g.name) × IsPlain h
Keeps g (err e) = Unit
Keeps g panic = Unit

assign_players-Keeps :
    (player : Bytes) (g : Game) → Plain player → IsPlain g → Keeps g (ok (assign_players player g))
unfolding assign_players
assign_players-Keeps player g h p = elim (Bool-cases (bytes_eq g.player1 [])) [
  | inl first ↦
      rw first (refl, with_players g player g.player2 p h (p.player2_comma, p.player2_bar))
  | inr taken ↦ elim (Bool-cases (bytes_eq g.player2 [])) [
    | inl second ↦
        rw (taken, second)
          (refl, with_players g g.player1 player p (p.player1_comma, p.player1_bar) h)
    | inr both ↦ rw (taken, both) (refl, p)
  ]
]

with_mark-Keeps :
    (g : Game) (next : Bytes) (space : ℤ) (mark : ℕ)
    → Plain next
    → (mark ≢ b',') × (mark ≢ b'|')
    → IsPlain g
    → Keeps g (with_mark g next (mark_at g.board space mark))
unfolding with_mark mark_at
with_mark-Keeps g next (pos zero) mark n m p = tt
with_mark-Keeps g next (negsuc k) mark n m p = tt
with_mark-Keeps g next (pos (suc i)) mark n m p = elim (Option-cases (get_elem? g.board i)) [
  | inl missing ↦ rw (missing, mark_at) tt
  | inr (c, here) ↦
      rw (here, mark_at)
        (
          refl,
          with_board_state g (set g.board i mark) next p
              (
                Lacks-set b',' i mark g.board m.0 p.board_comma,
                Lacks-set b'|' i mark g.board m.1 p.board_bar,
              )
              n,
        )
]

make_move-Keeps :
    (player : Bytes) (space : ℤ) (g : Game) → IsPlain g → Keeps g (make_move player space g)
unfolding make_move
make_move-Keeps player space g p =
    elim (Bool-cases (bytes_eq g.state p1_next && bytes_eq player g.player1)) [
      | inl one ↦ rw one (with_mark-Keeps g p2_next space b'X' states-Plain.1 (omega arith) p)
      | inr not_one ↦ elim (Bool-cases (bytes_eq g.state p2_next && bytes_eq player g.player2)) [
        | inl two ↦
            rw (not_one, two) (with_mark-Keeps g p1_next space b'O' states-Plain.0 (omega arith) p)
        | inr not_two ↦ rw (not_one, not_two) tt
      ]
    ]

if_win-Keeps :
    (r : Outcome Bool) (g : Game) (state : Bytes) (rest : Outcome Game)
    → IsPlain g
    → Plain state
    → Keeps g rest
    → Keeps g (if_win r g state rest)
unfolding if_win
if_win-Keeps (ok true) g state rest p s k =
    (refl, with_board_state g g.board state p (p.board_comma, p.board_bar) s)
if_win-Keeps (ok false) g state rest p s k = k
if_win-Keeps (err e) g state rest p s k = tt
if_win-Keeps panic g state rest p s k = tt

judge-Keeps : (g : Game) → IsPlain g → Keeps g (judge g)
unfolding judge
judge-Keeps g p = if_win-Keeps (is_win g.board b'X') g p1_win _ p states-Plain.2 (
    if_win-Keeps (is_win g.board b'O') g p2_win _ p states-Plain.3
      (elim (Bool-cases (contains_byte blank g.board)) [
        | inl more ↦ rw more (refl, p)
        | inr full ↦
            rw full
              (refl, with_board_state g g.board tie p (p.board_comma, p.board_bar) states-Plain.4)
      ]))

Keeps-trans : (g h : Game) (r : Outcome Game) → h.name ≡ g.name → Keeps h r → Keeps g r
Keeps-trans g h (ok k) named (e, p) = (e ∙ named, p)
Keeps-trans g h (err e) named k = tt
Keeps-trans g h panic named k = tt

judged-Keeps : (g : Game) (r : Outcome Game) → Keeps g r → Keeps g (judged r)
unfolding judged
judged-Keeps g (ok h) (named, p) = Keeps-trans g h (judge h) named (judge-Keeps h p)
judged-Keeps g (err e) k = tt
judged-Keeps g panic k = tt

-- A played game keeps its name, and can be written to state.
pub play-Keeps :
    (player : Bytes) (space : ℤ) (g : Game)
    → Plain player
    → IsPlain g
    → Keeps g (play player space g)
unfolding play
play-Keeps player space g h p =
    let a = assign_players player g in
    let (named, plain) = assign_players-Keeps player g h p in
    Keeps-trans g a (judged (make_move player space a)) named
      (judged-Keeps a (make_move player space a) (make_move-Keeps player space a plain))
