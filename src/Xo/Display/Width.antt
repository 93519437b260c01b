-- ===== src/Xo/Display/Width.antt =====
-- The width of what is displayed: centred lines come out as wide as the first line, or panic.
use sawtooth_sdk_go.Base.{
  ℕ, zero, suc, ◌+◌, ◌-◌, ◌/◌, ◌≤◌, ◌<◌, ◌≡◌, refl, ap, lt→ltb, ◌%◌, ◌==◌, Bytes, text, length,
  length-append, take, [], ◌∷◌, ◌++◌, ltb, ℤ, pos, negsuc, half, is_even, print_ℤ, Bool-cases, inl,
  inr, arith,
}
use sawtooth_sdk_go.Processor.Errors.{Outcome, ok, panic}
use sawtooth_sdk_go.Xo.Games.{Game}
use sawtooth_sdk_go.Xo.Payload.{XoPayload}
use sawtooth_sdk_go.Xo.Display.{
  ◌>>=◌, first_six, fill, repeat, minus, one_more, center, take_line, display_take,
}

length-fill : (c n : ℕ) → length (fill c n) ≡ n
unfolding fill
length-fill c zero = refl
length-fill c (suc n) = ap suc (length-fill c n)

-- A text that is as wide as the line or wider makes `strings.Repeat` panic.
pub center-panics : (t : Bytes) (width : ℕ) → width ≤ length t → center t width ≡ panic
unfolding center repeat half
center-panics t width h = ground arith

-- the line that a text with room for it is put into
abbrev framed : Bytes → ℕ → ℕ → Bytes
framed t left right = text "+" ++ (fill b' ' left ++ (t ++ (fill b' ' right ++ text "+")))

length-framed :
    (t : Bytes) (left right : ℕ) → length (framed t left right) ≡ left + (length t + right) + 2
unfolding text
length-framed t left right = omega (
  arith,
  length-append {0} (fill b' ' left) (t ++ (fill b' ' right ++ (b'+' ∷ []))),
  length-append {0} t (fill b' ' right ++ (b'+' ∷ [])),
  length-append {0} (fill b' ' right) (b'+' ∷ []),
  length-fill b' ' left,
  length-fill b' ' right,
)

center-room :
    (t : Bytes) (width k : ℕ)
    → minus width (length t + 2) ≡ pos k
    → center t width ≡ ok (framed t (k / 2) (k / 2 + k % 2))
unfolding center repeat half is_even one_more
center-room t width k e = elim (Bool-cases ((k + 0) % 2 == 0)) [
  | inl even ↦ rw (e, even) (let none_left : k / 2 + k % 2 ≡ k / 2 = ground arith in rw none_left)
  | inr odd ↦ rw (e, odd) (let one_left : k / 2 + k % 2 ≡ k / 2 + 1 = ground arith in rw one_left)
]

-- A text that leaves room for the border is centred to exactly the width.
pub center-width :
    (t : Bytes) (width : ℕ)
    → length t + 2 ≤ width
    → (line : Bytes) × (center t width ≡ ok line) × (length line ≡ width)
center-width t width h =
    let k = width - (length t + 2) in
    (
      framed t (k / 2) (k / 2 + k % 2),
      center-room t width k (ground arith),
      omega (arith, length-framed t (k / 2) (k / 2 + k % 2)),
    )

length-print_digit : (d : ℕ) → d < 10 → length (print_ℤ (pos d)) ≡ 1
unfolding print_ℤ
length-print_digit d h = rw (lt→ltb d 10 h)

-- the first line of a one-digit `take` is at most 31 bytes long
length-take_line :
    (six : Bytes) (d : ℕ) → length six ≤ 6 → d < 10 → length (take_line six (pos d)) ≤ 31
unfolding take_line text
length-take_line six d h k = simp length-append (omega (arith, length-print_digit d k))

length-take : (n : ℕ) (xs : Bytes) → length (take n xs) ≤ n
length-take zero xs = omega arith
length-take (suc n) [] = omega arith
length-take (suc n) (x ∷ xs) = omega (arith, length-take n xs)

repeat_then_panic :
    {A : Type 0} (c : ℕ) (z : ℤ) (f : Bytes → Outcome A)
    → ((line : Bytes) → f line ≡ panic)
    → (repeat c z >>= f) ≡ panic
unfolding repeat
repeat_then_panic c (pos n) f h = h (fill c n)
repeat_then_panic c (negsuc n) f h = refl

length-game_line : (name : Bytes) → length (text "Game: " ++ name) ≡ 6 + length name
unfolding text
length-game_line name = omega arith

-- Displaying a `take` of a game whose name has 25 bytes or more panics, whoever plays.
pub display_take_long_name_panics :
    (payload : XoPayload) (signer : Bytes) (game : Game) (d : ℕ)
    → payload.space ≡ pos d
    → d < 10
    → 25 ≤ length game.name
    → display_take payload signer game ≡ panic
unfolding display_take first_six
display_take_long_name_panics payload signer game d e h long =
    elim (Bool-cases (ltb (length signer) 6)) [
      | inl short ↦ rw short
      | inr enough ↦
          let six = take 6 signer in
          let wide : length (take_line six payload.space) ≤ length (text "Game: " ++ game.name) =
            rw e (
              omega (
                arith,
                length-take_line six d (length-take 6 signer) h,
                length-game_line game.name,
              )) in
          rw enough (
            repeat_then_panic b'-' _ _ (λ line. repeat_then_panic b' ' _ _ (λ middle. rw (
              center-panics (text "Game: " ++ game.name) (length (take_line six payload.space))
                wide))))
    ]
