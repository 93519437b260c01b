-- ===== src/Xo/Board/Lines.antt =====
-- `isWin` on a board of nine cells against an independent description of three in a row.
use sawtooth_sdk_go.Base.{
  ℕ, zero, suc, ◌+◌, ◌-◌, ◌*◌, ◌≡◌, refl, ap, set, Bytes, length, get_elem?, [], ◌∷◌, ◌==◌, ◌&&◌,
  ◌||◌, none, some, Bool, true, false, arith, if◌then◌else◌,
}
use mathlib.Core.Path.{fun_ext}
use sawtooth_sdk_go.Processor.Errors.{ok}
use sawtooth_sdk_go.Xo.Board.{is_win, or_else}

-- the cell with this index holds the mark
abbrev pub cell_is : Bytes → ℕ → ℕ → Bool
cell_is board mark k = elim (get_elem? board k) [ none ↦ false | some d ↦ d == mark ]

-- some index below 3 passes the test; every index below 3 does
abbrev pub some_of_3 : (ℕ → Bool) → Bool
some_of_3 p = p 0 || (p 1 || p 2)

abbrev pub each_of_3 : (ℕ → Bool) → Bool
each_of_3 p = p 0 && (p 1 && p 2)

-- With rows and columns counted from 0: a row, a column, or one of the diagonals is full.
abbrev pub has_full_line : (ℕ → Bool) → Bool
has_full_line cell =
    some_of_3 (λ r. each_of_3 (λ c. cell (3 * r + c)))
    || (some_of_3 (λ c. each_of_3 (λ r. cell (3 * r + c)))
        || (each_of_3 (λ i. cell (3 * i + i)) || each_of_3 (λ i. cell (3 * i + (2 - i)))))

unfoldable pub three_in_a_row : Bytes → ℕ → Bool
three_in_a_row board mark = has_full_line (cell_is board mark)

-- one line, and one round of the loop, in terms of `&&` and `||`
three_tests :
    (p q r : Bool)
    → (if p then if q then if r then ok true else ok false else ok false else ok false)
      ≡ ok (p && (q && r))
three_tests p q r = ground arith

or_else_lem : (p q : Bool) → or_else (ok p) (ok q) ≡ ok (p || q)
unfolding or_else
or_else_lem p q = ground arith

or_assoc : (p q r : Bool) → ((p || q) || r) ≡ (p || (q || r))
or_assoc p q r = ground arith

or_false : (p : Bool) → (p || false) ≡ p
or_false p = ground arith

-- On a board of nine cells `isWin` never panics, and finds exactly a full row, column or diagonal.
pub is_win-three_in_a_row :
    (board : Bytes) (mark : ℕ)
    → length board ≡ 9
    → is_win board mark ≡ ok (three_in_a_row board mark)
unfolding is_win three_in_a_row
is_win-three_in_a_row (a ∷ b ∷ c ∷ d ∷ e ∷ f ∷ g ∷ h ∷ i ∷ []) mark nine =
    simp (three_tests, or_else_lem, or_assoc, or_false)
is_win-three_in_a_row _ mark nine = absurd (omega arith)

cell-set :
    (board : Bytes) (i k old new mark : ℕ)
    → get_elem? board i ≡ some old
    → (old == mark) ≡ false
    → (new == mark) ≡ false
    → cell_is (set board i new) mark k ≡ cell_is board mark k
cell-set [] i k old new mark found o n = refl
cell-set (c ∷ board) zero zero old new mark found o n = ground arith
cell-set (c ∷ board) zero (suc k) old new mark found o n = refl
cell-set (c ∷ board) (suc i) zero old new mark found o n = refl
cell-set (c ∷ board) (suc i) (suc k) old new mark found o n =
    cell-set board i k old new mark found o n

-- Changing a cell from one other mark to another leaves a mark's lines as they were.
pub three_in_a_row-set :
    (board : Bytes) (i old new mark : ℕ)
    → get_elem? board i ≡ some old
    → (old == mark) ≡ false
    → (new == mark) ≡ false
    → three_in_a_row (set board i new) mark ≡ three_in_a_row board mark
unfolding three_in_a_row
three_in_a_row-set board i old new mark found o n =
    ap has_full_line (fun_ext (λ k. cell-set board i k old new mark found o n))
