-- ===== src/Base/FilePath.antt =====
-- `path.Join` and `path.Clean` of the standard library.
use mathlib.Core.Path.{◌≡◌, refl}
use mathlib.Core.Bool.{Bool, ◌||◌}
use mathlib.Core.List.{List, [], ◌∷◌, ◌++◌, reverse}
use sawtooth_sdk_go.Base.Tests.{◌==◌, if◌then◌else◌}
use sawtooth_sdk_go.Base.Text.{Bytes, text, bytes_eq, split}

-- `..` behind the parts so far, which stand in reverse; a rooted path has nothing above it
go_up : Bool → List Bytes → List Bytes
go_up rooted [] = if rooted then [] else text ".." ∷ []
go_up rooted (q ∷ out) = if bytes_eq q (text "..") then text ".." ∷ q ∷ out else out

with_part : Bool → List Bytes → Bytes → List Bytes
unfolding go_up
with_part rooted out p =
    if bytes_eq p [] || bytes_eq p (text ".")
    then out
    else if bytes_eq p (text "..")
    then go_up rooted out
    else p ∷ out

resolve : Bool → List Bytes → List Bytes → List Bytes
unfolding with_part
resolve rooted out [] = reverse out
resolve rooted out (p ∷ ps) = resolve rooted (with_part rooted out p) ps

slashed : List Bytes → Bytes
slashed [] = []
slashed (p ∷ []) = p
slashed (p ∷ ps) = p ++ b'/' ∷ slashed ps

or_dot : Bytes → Bytes
or_dot [] = text "."
or_dot (c ∷ s) = c ∷ s

-- `path.Clean`
unfoldable pub clean : Bytes → Bytes
unfolding resolve slashed or_dot
clean [] = text "."
clean (c ∷ s) =
    if c == b'/'
    then b'/' ∷ slashed (resolve (c == b'/') [] (split b'/' s))
    else or_dot (slashed (resolve (c == b'/') [] (split b'/' (c ∷ s))))

non_empty : List Bytes → List Bytes
non_empty [] = []
non_empty (p ∷ ps) = let rest = non_empty ps in if bytes_eq p [] then rest else p ∷ rest

cleaned : List Bytes → Bytes
unfolding slashed clean
cleaned [] = []
cleaned (p ∷ ps) = clean (slashed (p ∷ ps))

-- `path.Join`
unfoldable pub join : List Bytes → Bytes
unfolding non_empty cleaned
join ps = cleaned (non_empty ps)

join_test :
    join (text "/home/a/../b//" ∷ text ".sawtooth" ∷ text "keys" ∷ [])
    ≡ text "/home/b/.sawtooth/keys"
unfolding join split bytes_eq text
join_test = refl
