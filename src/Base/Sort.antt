-- ===== src/Base/Sort.antt =====
-- `sort.Strings`, as an insertion sort: what it returns is fixed by the order alone.

use mathlib.Core.Path.{◌≡◌, refl}
use mathlib.Core.Bool.{Bool, true, false, ◌||◌}
use mathlib.Core.List.{List, [], ◌∷◌}
use native.Mathlib.Omega.{arith}
use sawtooth_sdk_go.Base.Tests.{ltb, ◌==◌, if◌then◌else◌}
use sawtooth_sdk_go.Base.Text.{Bytes, bytes_eq}
use sawtooth_sdk_go.Base.Maps.{member}

-- the order of strings, byte by byte; also `bytes.Compare(a, b) < 0`
unfoldable pub bytes_ltb : Bytes → Bytes → Bool
bytes_ltb xs [] = false
bytes_ltb [] (y ∷ ys) = true
bytes_ltb (x ∷ xs) (y ∷ ys) =
    let rest = bytes_ltb xs ys in if ltb x y then true else if x == y then rest else false

insert_sorted : Bytes → List Bytes → List Bytes
insert_sorted x [] = x ∷ []
insert_sorted x (y ∷ ys) =
    let rest = insert_sorted x ys in if bytes_ltb y x then y ∷ rest else x ∷ y ∷ ys

unfoldable pub sort_strings : List Bytes → List Bytes
unfolding insert_sorted
sort_strings [] = []
sort_strings (x ∷ xs) = insert_sorted x (sort_strings xs)

member-insert_sorted :
    (k x : Bytes) (ys : List Bytes) → member k (insert_sorted x ys) ≡ (bytes_eq x k || member k ys)
unfolding member insert_sorted
member-insert_sorted k x [] = refl
member-insert_sorted k x (y ∷ ys) = ground (arith, member-insert_sorted k x ys)

-- Sorting keeps the members.
pub member-sort_strings : (k : Bytes) (xs : List Bytes) → member k (sort_strings xs) ≡ member k xs
unfolding member sort_strings
member-sort_strings k [] = refl
member-sort_strings k (x ∷ xs) =
    ground (arith, member-insert_sorted k x (sort_strings xs), member-sort_strings k xs)
