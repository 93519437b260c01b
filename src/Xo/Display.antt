-- ===== src/Xo/Display.antt =====
-- What handler/handler.go prints of a transaction: the lines, or a panic. Printing changes no
-- state, but it runs before the game is stored.
pub mod Width
use sawtooth_sdk_go.Base.{
  ℕ, zero, suc, ◌+◌, ◌-◌, ◌/◌, ◌≡◌, refl, Bytes, text, bytes_eq, length, take, get_elem?, List, [],
  ◌∷◌, ◌++◌, ◌==◌, ltb, ℤ, pos, negsuc, sub_ℕ, half, is_even, print_ℤ, Option, none, some, Bool,
  true, false, if◌then◌else◌,
}
use sawtooth_sdk_go.Processor.Errors.{Outcome, ok, err, panic}
use sawtooth_sdk_go.Xo.Games.{Game}
use sawtooth_sdk_go.Xo.Payload.{XoPayload}

infixl 5 ◌>>=◌
abbrev ◌>>=◌ : {A B : Type 0} → Outcome A → (A → Outcome B) → Outcome B
ok a >>= f = f a
err e >>= f = err e
panic >>= f = panic

-- `signer[:6]`: a shorter text panics
unfoldable pub first_six : Bytes → Outcome Bytes
first_six s = if ltb (length s) 6 then panic else ok (take 6 s)

-- `strings.Repeat(" ", n)` and `strings.Repeat("-", n)`: a negative count panics
fill : ℕ → ℕ → Bytes
fill c zero = []
fill c (suc n) = c ∷ fill c n

unfoldable pub repeat : ℕ → ℤ → Outcome Bytes
unfolding fill
repeat c (pos n) = ok (fill c n)
repeat c (negsuc n) = panic

-- `a - b` on lengths
abbrev pub minus : ℕ → ℕ → ℤ
minus a b = sub_ℕ a b

-- `n + 1`
one_more : ℤ → ℤ
one_more (pos n) = pos (n + 1)
one_more (negsuc zero) = pos 0
one_more (negsuc (suc n)) = negsuc n

-- a line with text in the middle
unfoldable pub center : Bytes → ℕ → Outcome Bytes
unfolding repeat half is_even one_more
center t width =
    let space = minus width (length t + 2) in
    do
      s1 ← repeat b' ' (half space)
      s2 ← repeat b' ' (if is_even space then half space else one_more (half space))
      ok (text "+" ++ (s1 ++ (t ++ (s2 ++ text "+"))))

unfoldable pub slice_if_long_enough : Bytes → ℕ → Bytes
slice_if_long_enough t num =
    if ltb num (length t) then take num t else if ltb 0 (length t) then take (length t - 1) t else t

blankify : ℕ → ℕ
blankify c = if c == b'-' then b' ' else c

-- one row of the board, `+   X | O | X   +`; an index out of range panics
unfoldable pub board_row : Bytes → Bytes → ℕ → Outcome Bytes
unfolding blankify
board_row space board i = elim (get_elem? board i) [
  | none ↦ panic
  | some a ↦ elim (get_elem? board (i + 1)) [
    | none ↦ panic
    | some b ↦ elim (get_elem? board (i + 2)) [
      | none ↦ panic
      | some c ↦ ok (
          text "+"
          ++ (space
              ++ ((b' ' ∷ blankify a ∷ [])
                  ++ (text " | "
                      ++ ((blankify b ∷ [])
                          ++ (text " | " ++ ((blankify c ∷ b' ' ∷ []) ++ (space ++ text "+"))))))))
    ]
  ]
]

unfoldable pub display_create : XoPayload → Bytes → Outcome (List Bytes)
unfolding first_six repeat
display_create payload signer = do
  six ← first_six signer
  let s = text "+ Player " ++ (six ++ (text " created game " ++ (payload.name ++ text " +")))
  line ← repeat b'-' (minus (length s) 2)
  let border = text "+" ++ (line ++ text "+")
  ok (border ∷ s ∷ border ∷ [])

-- the first line of a `take`
unfoldable pub take_line : Bytes → ℤ → Bytes
take_line six space =
    text "+ Player " ++ (six ++ (text " takes space " ++ (print_ℤ space ++ text " +")))

unfoldable pub display_take : XoPayload → Bytes → Game → Outcome (List Bytes)
display_take payload signer game = do
  six ← first_six signer
  let s = take_line six payload.space
  let s_length = length s
  line ← repeat b'-' (minus s_length 2)
  let border = text "+" ++ (line ++ text "+")
  middle ← repeat b' ' (minus s_length 2)
  let blank = text "+" ++ (middle ++ text "+")
  g ← center (text "Game: " ++ game.name) s_length
  state ← center (text "State: " ++ game.state) s_length
  p1 ← center (text "Player1: " ++ slice_if_long_enough game.player1 6) s_length
  p2 ← center (text "Player2: " ++ slice_if_long_enough game.player2 6) s_length
  space ← repeat b' ' (half (minus s_length 13))
  let xo_board_line = text "+" ++ (space ++ (text "---|---|---" ++ (space ++ text "+")))
  r0 ← board_row space game.board 0
  r1 ← board_row space game.board 3
  r2 ← board_row space game.board 6
  ok (
      border ∷ s ∷ blank ∷ g ∷ state ∷ p1 ∷ p2 ∷ r0 ∷ xo_board_line ∷ r1 ∷ xo_board_line ∷ r2
      ∷ border ∷ [])
