-- ===== src/Xo/Board/Judge.antt =====
-- Judging a board after a move: the game stays fair.
use sawtooth_sdk_go.Base.{
  ℕ, ◌+◌, ◌≡◌, refl, sym, ap, contains_byte, length, length-set, set, All, inl, inr, false,
  Bool-cases, arith, if◌then◌else◌,
}
use sawtooth_sdk_go.Processor.Errors.{ok}
use sawtooth_sdk_go.Xo.Games.{Game}
use sawtooth_sdk_go.Xo.Board.Turns.{
  count, IsMark, Phase, p1_turn, p2_turn, won_by_p1, won_by_p2, drawn, IsFair, Moved, by_p1, by_p2,
  p1_next-ne-p2_next, p1_next-ne-ends, p2_next-ne-ends, count-set, All-set,
}
use sawtooth_sdk_go.Xo.Board.{p1_next, p2_next, p1_win, p2_win, tie, blank, judge}
use sawtooth_sdk_go.Xo.Board.Lines.{three_in_a_row, is_win-three_in_a_row, three_in_a_row-set}

-- What `judge` makes of a board of nine cells.
judge-nine :
    (h : Game)
    → length h.board ≡ 9
    → judge h
      ≡ ok (
          if three_in_a_row h.board b'X'
          then record h { state = p1_win }
          else if three_in_a_row h.board b'O'
          then record h { state = p2_win }
          else if contains_byte blank h.board
          then h
          else record h { state = tie })
unfolding judge
judge-nine h nine =
    rw (is_win-three_in_a_row h.board b'X' nine, is_win-three_in_a_row h.board b'O' nine)
      (ground arith)

-- What holds on a player's turn.
abbrev Even : Game → ℕ → Type 0
Even g ahead =
    (count b'X' g.board ≡ count b'O' g.board + ahead)
    × (three_in_a_row g.board b'X' ≡ false)
    × (three_in_a_row g.board b'O' ≡ false)

p1_turn-Even : (g : Game) → Phase g → g.state ≡ p1_next → Even g 0
p1_turn-Even g (p1_turn s n x o b) e = (omega arith, x, o)
p1_turn-Even g (p2_turn s n x o b) e = absurd (p1_next-ne-p2_next (cc))
p1_turn-Even g (won_by_p1 s n x o) e = absurd (p1_next-ne-ends.0 (cc))
p1_turn-Even g (won_by_p2 s n x o) e = absurd (p1_next-ne-ends.1 (cc))
p1_turn-Even g (drawn s x o b) e = absurd (p1_next-ne-ends.2 (cc))

p2_turn-Even : (g : Game) → Phase g → g.state ≡ p2_next → Even g 1
p2_turn-Even g (p1_turn s n x o b) e = absurd (p1_next-ne-p2_next (cc))
p2_turn-Even g (p2_turn s n x o b) e = (n, x, o)
p2_turn-Even g (won_by_p1 s n x o) e = absurd (p2_next-ne-ends.0 (cc))
p2_turn-Even g (won_by_p2 s n x o) e = absurd (p2_next-ne-ends.1 (cc))
p2_turn-Even g (drawn s x o b) e = absurd (p2_next-ne-ends.2 (cc))

-- Judging a board that X has just marked.
judge_p1 :
    (h : Game)
    → length h.board ≡ 9
    → All IsMark h.board
    → h.state ≡ p2_next
    → count b'X' h.board ≡ count b'O' h.board + 1
    → three_in_a_row h.board b'O' ≡ false
    → (g' : Game) × (judge h ≡ ok g') × IsFair g'
judge_p1 h nine marks s n o = elim (Bool-cases (three_in_a_row h.board b'X')) [
  | inl won ↦ (
    record h { state = p1_win },
    rw (judge-nine h nine, won),
    record { nine = nine; marks = marks; phase = won_by_p1 refl n won o },
  )
  | inr x ↦ elim (Bool-cases (contains_byte blank h.board)) [
    | inl more ↦ (
      h,
      rw (judge-nine h nine, x, o, more),
      record { nine = nine; marks = marks; phase = p2_turn s n x o more },
    )
    | inr full ↦ (
      record h { state = tie },
      rw (judge-nine h nine, x, o, full),
      record { nine = nine; marks = marks; phase = drawn refl x o full },
    )
  ]
]

-- Judging a board that O has just marked.
judge_p2 :
    (h : Game)
    → length h.board ≡ 9
    → All IsMark h.board
    → h.state ≡ p1_next
    → count b'X' h.board ≡ count b'O' h.board
    → three_in_a_row h.board b'X' ≡ false
    → (g' : Game) × (judge h ≡ ok g') × IsFair g'
judge_p2 h nine marks s n x = elim (Bool-cases (three_in_a_row h.board b'O')) [
  | inl won ↦ (
    record h { state = p2_win },
    rw (judge-nine h nine, x, won),
    record { nine = nine; marks = marks; phase = won_by_p2 refl n x won },
  )
  | inr o ↦ elim (Bool-cases (contains_byte blank h.board)) [
    | inl more ↦ (
      h,
      rw (judge-nine h nine, x, o, more),
      record { nine = nine; marks = marks; phase = p1_turn s n x o more },
    )
    | inr full ↦ (
      record h { state = tie },
      rw (judge-nine h nine, x, o, full),
      record { nine = nine; marks = marks; phase = drawn refl x o full },
    )
  ]
]

-- A move on a fair game can be judged, and leaves a fair game.
pub Moved-judge : (g h : Game) → IsFair g → Moved g h → (g' : Game) × (judge h ≡ ok g') × IsFair g'
Moved-judge g h fair (by_p1 i s free eh) =
    let (even, x, o) = p1_turn-Even g fair.phase s in
    let b = set g.board i b'X' in
    let eb : b ≡ h.board = ap (λ r. r.board) (sym eh) in
    let es : p2_next ≡ h.state = ap (λ r. r.state) (sym eh) in
    judge_p1 h (rw (← eb, length-set) fair.nine)
      (rw (← eb) (All-set i b'X' g.board (inr (inl refl)) fair.marks)) (sym es)
      (rw (← eb) (
        omega (
          arith,
          even,
          count-set b'X' i blank b'X' g.board free,
          count-set b'O' i blank b'X' g.board free,
        )))
      (rw (← eb, three_in_a_row-set g.board i blank b'X' b'O' free refl refl) o)
Moved-judge g h fair (by_p2 i s free eh) =
    let (ahead, x, o) = p2_turn-Even g fair.phase s in
    let b = set g.board i b'O' in
    let eb : b ≡ h.board = ap (λ r. r.board) (sym eh) in
    let es : p1_next ≡ h.state = ap (λ r. r.state) (sym eh) in
    judge_p2 h (rw (← eb, length-set) fair.nine)
      (rw (← eb) (All-set i b'O' g.board (inr (inr refl)) fair.marks)) (sym es)
      (rw (← eb) (
        omega (
          arith,
          ahead,
          count-set b'X' i blank b'O' g.board free,
          count-set b'O' i blank b'O' g.board free,
        )))
      (rw (← eb, three_in_a_row-set g.board i blank b'O' b'X' free refl refl) x)
