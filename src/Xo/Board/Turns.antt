-- ===== src/Xo/Board/Turns.antt =====
-- Turns: every move that `Apply` accepts takes a fair game to a fair game.
use sawtooth_sdk_go.Base.{
  ℕ, zero, suc, ◌+◌, ◌++◌, ◌≡◌, ◌≢◌, refl, Bytes, text, bytes_eq, bytes_eq_iff, bytes_ne,
  contains_byte, length, get_elem?, set, All, [], ◌∷◌, ◌==◌, ◌&&◌, ◌⊎◌, inl, inr, ℤ, pos, negsuc,
  some, true, false, Bool-cases, arith, if◌then◌else◌,
}
use sawtooth_sdk_go.Processor.Errors.{ok, err, invalid, ok-injective}
use sawtooth_sdk_go.Xo.Games.{Game}
use sawtooth_sdk_go.Xo.Board.{
  p1_next, p2_next, p1_win, p2_win, tie, blank, cell_at, mark_at, assign_players, make_move,
}
use sawtooth_sdk_go.Xo.Board.Lines.{three_in_a_row}

-- how often a mark stands on the board
abbrev pub count : ℕ → Bytes → ℕ
count m [] = 0
count m (c ∷ cs) = (if c == m then 1 else 0) + count m cs

abbrev pub IsMark : ℕ → Type 0
IsMark c = (c ≡ blank) ⊎ ((c ≡ b'X') ⊎ (c ≡ b'O'))

-- What the five states say of the board. X moves first, so it is X's turn when the marks are equal
-- in number.
pub data Phase (g : Game) : Type 0 where
  p1_turn :
      g.state ≡ p1_next
      → count b'X' g.board ≡ count b'O' g.board
      → three_in_a_row g.board b'X' ≡ false
      → three_in_a_row g.board b'O' ≡ false
      → contains_byte blank g.board ≡ true
      → Phase g
  p2_turn :
      g.state ≡ p2_next
      → count b'X' g.board ≡ count b'O' g.board + 1
      → three_in_a_row g.board b'X' ≡ false
      → three_in_a_row g.board b'O' ≡ false
      → contains_byte blank g.board ≡ true
      → Phase g
  won_by_p1 :
      g.state ≡ p1_win
      → count b'X' g.board ≡ count b'O' g.board + 1
      → three_in_a_row g.board b'X' ≡ true
      → three_in_a_row g.board b'O' ≡ false
      → Phase g
  won_by_p2 :
      g.state ≡ p2_win
      → count b'X' g.board ≡ count b'O' g.board
      → three_in_a_row g.board b'X' ≡ false
      → three_in_a_row g.board b'O' ≡ true
      → Phase g
  drawn :
      g.state ≡ tie
      → three_in_a_row g.board b'X' ≡ false
      → three_in_a_row g.board b'O' ≡ false
      → contains_byte blank g.board ≡ false
      → Phase g

-- A game as the handler leaves it.
pub record IsFair (g : Game) : Type 0 where
  pub nine : length g.board ≡ 9
  pub marks : All IsMark g.board
  pub phase : Phase g

-- A turn of one of the players: the game after it, before it is judged.
pub data Moved (g h : Game) : Type 0 where
  by_p1 :
      (i : ℕ)
      → g.state ≡ p1_next
      → get_elem? g.board i ≡ some blank
      → h ≡ record h { board = set g.board i b'X'; state = p2_next }
      → Moved g h
  by_p2 :
      (i : ℕ)
      → g.state ≡ p2_next
      → get_elem? g.board i ≡ some blank
      → h ≡ record h { board = set g.board i b'O'; state = p1_next }
      → Moved g h

pub p1_next-ne-p2_next : p1_next ≢ p2_next
unfolding p1_next p2_next text bytes_eq
p1_next-ne-p2_next = bytes_ne _ _ refl

pub p1_next-ne-ends : (p1_next ≢ p1_win) × (p1_next ≢ p2_win) × (p1_next ≢ tie)
unfolding p1_next p1_win p2_win tie text bytes_eq
p1_next-ne-ends = (bytes_ne _ _ refl, bytes_ne _ _ refl, bytes_ne _ _ refl)

pub p2_next-ne-ends : (p2_next ≢ p1_win) × (p2_next ≢ p2_win) × (p2_next ≢ tie)
unfolding p2_next p1_win p2_win tie text bytes_eq
p2_next-ne-ends = (bytes_ne _ _ refl, bytes_ne _ _ refl, bytes_ne _ _ refl)

pub count-set :
    (m i old new : ℕ) (cs : Bytes)
    → get_elem? cs i ≡ some old
    → count m (set cs i new) + (if old == m then 1 else 0)
      ≡ count m cs + (if new == m then 1 else 0)
count-set m i old new [] found = absurd (cc)
count-set m zero old new (c ∷ cs) found = ground arith
count-set m (suc i) old new (c ∷ cs) found = ground (arith, count-set m i old new cs found)

pub All-set : (i new : ℕ) (cs : Bytes) → IsMark new → All IsMark cs → All IsMark (set cs i new)
All-set i new [] p h = tt
All-set zero new (c ∷ cs) p h = (p, h.1)
All-set (suc i) new (c ∷ cs) p h = (h.0, All-set i new cs p h.1)

pub make_move-Moved :
    (player : Bytes) (space : ℤ) (g : Game) {h : Game}
    → cell_at g.board space ≡ some blank
    → make_move player space g ≡ ok h
    → Moved g h
unfolding make_move cell_at mark_at
make_move-Moved player (pos zero) g free done = absurd (cc)
make_move-Moved player (negsuc n) g free done = absurd (cc)
make_move-Moved player (pos (suc i)) g {h} free done =
    let here : get_elem? g.board i ≡ some blank = free in
    elim (Bool-cases (bytes_eq g.state p1_next && bytes_eq player g.player1)) [
      | inl one ↦
          let eh : record g { board = set g.board i b'X'; state = p2_next } ≡ h =
            ok-injective (rw (one, here, mark_at) at done) in
          by_p1 i (ground (arith, bytes_eq_iff g.state p1_next)) free (rw (← eh))
      | inr not_one ↦ elim (Bool-cases (bytes_eq g.state p2_next && bytes_eq player g.player2)) [
        | inl two ↦
            let eh : record g { board = set g.board i b'O'; state = p1_next } ≡ h =
              ok-injective (rw (not_one, two, here, mark_at) at done) in
            by_p2 i (ground (arith, bytes_eq_iff g.state p2_next)) free (rw (← eh))
        | inr not_two ↦ absurd (let refused = rw (not_one, not_two) at done in cc)
      ]
    ]

-- The players' names are no part of the board or the state.
pub assign_players-keeps :
    (player : Bytes) (g : Game)
    → ((assign_players player g).board ≡ g.board) × ((assign_players player g).state ≡ g.state)
unfolding assign_players
assign_players-keeps player g = ground arith

-- A move to a blank cell does not panic: it is made, or it is not this player's turn.
pub make_move-cases :
    (player : Bytes) (space : ℤ) (g : Game)
    → cell_at g.board space ≡ some blank
    → (make_move player space g
        ≡ err (invalid (text "Not this player's turn: '" ++ player ++ text "'")))
      ⊎ ((h : Game) × (make_move player space g ≡ ok h))
unfolding make_move cell_at mark_at
make_move-cases player (pos zero) g free = absurd (cc)
make_move-cases player (negsuc n) g free = absurd (cc)
make_move-cases player (pos (suc i)) g free =
    let here : get_elem? g.board i ≡ some blank = free in
    elim (Bool-cases (bytes_eq g.state p1_next && bytes_eq player g.player1)) [
      | inl one ↦
          inr (record g { board = set g.board i b'X'; state = p2_next }, rw (one, here, mark_at))
      | inr not_one ↦ elim (Bool-cases (bytes_eq g.state p2_next && bytes_eq player g.player2)) [
        | inl two ↦ inr (
          record g { board = set g.board i b'O'; state = p1_next },
          rw (not_one, two, here, mark_at),
        )
        | inr not_two ↦ inl (rw (not_one, not_two))
      ]
    ]

with_players-Phase :
    (g : Game) (p q : Bytes) → Phase g → Phase (record g { player1 = p; player2 = q })
with_players-Phase g p q (p1_turn s n x o b) = p1_turn s n x o b
with_players-Phase g p q (p2_turn s n x o b) = p2_turn s n x o b
with_players-Phase g p q (won_by_p1 s n x o) = won_by_p1 s n x o
with_players-Phase g p q (won_by_p2 s n x o) = won_by_p2 s n x o
with_players-Phase g p q (drawn s x o b) = drawn s x o b

-- Fairness does not ask who plays.
with_players-IsFair :
    (g : Game) (p q : Bytes) → IsFair g → IsFair (record g { player1 = p; player2 = q })
with_players-IsFair g p q fair = record {
  nine = fair.nine;
  marks = fair.marks;
  phase = with_players-Phase g p q fair.phase;
}

pub assign_players-IsFair :
    (player : Bytes) (g : Game) → IsFair g → IsFair (assign_players player g)
unfolding assign_players
assign_players-IsFair player g fair = elim (Bool-cases (bytes_eq g.player1 [])) [
  | inl first ↦ rw first (with_players-IsFair g player g.player2 fair)
  | inr taken ↦ elim (Bool-cases (bytes_eq g.player2 [])) [
    | inl second ↦ rw (taken, second) (with_players-IsFair g g.player1 player fair)
    | inr both ↦ rw (taken, both) fair
  ]
]
