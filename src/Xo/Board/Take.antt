-- ===== src/Xo/Board/Take.antt =====
-- A whole `take`: the checks of `validateTake`, then the move.
use sawtooth_sdk_go.Base.{
  ℕ, zero, suc, ◌≤◌, ◌≡◌, refl, Bytes, text, length, get_elem?, [], ◌∷◌, ◌++◌, ◌⊎◌, inl, inr, ℤ,
  pos, negsuc, ◌≤ℤ◌, none, some, false, Option-cases, arith,
}
use sawtooth_sdk_go.Processor.Errors.{ok, err, panic, invalid}
use sawtooth_sdk_go.Xo.Games.{Game}
use sawtooth_sdk_go.Xo.Board.{blank, cell_at, has_ended, check_take, assign_players, judged, play}
use sawtooth_sdk_go.Xo.Board.Turns.{
  IsFair, make_move-Moved, assign_players-keeps, assign_players-IsFair, make_move-cases,
}
use sawtooth_sdk_go.Xo.Board.Judge.{Moved-judge}

-- The checks pass on a running game at a blank cell only.
pub check_take-blank :
    (g : Game) (space : ℤ)
    → check_take (some g) space ≡ ok tt
    → (has_ended g ≡ false) × (cell_at g.board space ≡ some blank)
unfolding check_take
check_take-blank g space h = elim (Option-cases (cell_at g.board space)) [
  | inl missing ↦ ground arith
  | inr (c, here) ↦ ground arith
]

get_elem?-past : (xs : Bytes) (i : ℕ) → length xs ≤ i → get_elem? xs i ≡ none
get_elem?-past [] i h = refl
get_elem?-past (x ∷ xs) zero h = absurd (omega arith)
get_elem?-past (x ∷ xs) (suc i) h = get_elem?-past xs i (omega arith)

-- A space outside 1..9 passes the payload's checks, and crashes the handler on a running game.
pub take_out_of_range_panics :
    (g : Game) (space : ℤ)
    → IsFair g
    → has_ended g ≡ false
    → (space ≤ℤ pos 0) ⊎ (pos 10 ≤ℤ space)
    → check_take (some g) space ≡ panic
unfolding check_take cell_at
take_out_of_range_panics g (pos zero) fair running out = rw running
take_out_of_range_panics g (negsuc n) fair running out = rw running
take_out_of_range_panics g (pos (suc i)) fair running out =
    rw (running, get_elem?-past g.board i (omega (arith, fair.nine)))

-- On a fair game that passes the checks a move does not panic: it is refused, since it is not this
-- player's turn, or it leaves a fair game.
pub play-IsFair :
    (player : Bytes) (space : ℤ) (g : Game)
    → IsFair g
    → check_take (some g) space ≡ ok tt
    → (play player space g ≡ err (invalid (text "Not this player's turn: '" ++ player ++ text "'")))
      ⊎ ((g' : Game) × (play player space g ≡ ok g') × IsFair g')
unfolding play
play-IsFair player space g fair checked =
    let a = assign_players player g in
    let free : cell_at a.board space ≡ some blank =
      rw (assign_players-keeps player g).0 (check_take-blank g space checked).1 in
    elim (make_move-cases player space a free) [
      | inl refused ↦ inl (rw (refused, judged))
      | inr (h, made) ↦
          let (g', final, fair') =
            Moved-judge a h (assign_players-IsFair player g fair)
              (make_move-Moved player space a free made) in
          inr (g', rw (made, judged) final, fair')
    ]
