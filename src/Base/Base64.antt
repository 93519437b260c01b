-- ===== src/Base/Base64.antt =====
-- `base64.StdEncoding` of the standard library: what it decodes, and the offset of its errors.
use Prim.Native.Nat.{ℕ, ◌+◌, ◌-◌, ◌*◌, ◌/◌, ◌%◌, ◌<◌}
use mathlib.Core.Path.{◌≡◌, refl}
use mathlib.Core.Logic.{◌⊎◌, inl, inr}
use mathlib.Core.Bool.{Bool, ◌&&◌, ◌||◌}
use mathlib.Core.List.{[], ◌∷◌}
use mathlib.Core.Option.{Option, none, some}
use native.Mathlib.Omega.{arith}
use sawtooth_sdk_go.Base.Tests.{ltb, leb, ◌==◌, if◌then◌else◌}
use sawtooth_sdk_go.Base.Lists.{All}
use sawtooth_sdk_go.Base.Text.{Bytes, text}

-- the six bits that a byte of the alphabet stands for
sextet : ℕ → Option ℕ
sextet c =
    if leb b'A' c && leb c b'Z'
    then some (c - b'A')
    else if leb b'a' c && leb c b'z'
    then some (c - b'a' + 26)
    else if leb b'0' c && leb c b'9'
    then some (c - b'0' + 52)
    else if c == b'+'
    then some 62
    else if c == b'/'
    then some 63
    else none

is_newline : ℕ → Bool
is_newline c = c == 10 || c == 13

-- What may follow the padding, from an offset: nothing but newlines.
rest_of : ℕ → Bytes → Bytes → ℕ ⊎ Bytes
rest_of si decoded [] = inr decoded
rest_of si decoded (c ∷ s) =
    let more = rest_of (si + 1) decoded s in if is_newline c then more else inl si

-- the second sign of padding
second_pad : ℕ → Bytes → Bytes → ℕ ⊎ Bytes
second_pad si decoded [] = inl si
second_pad si decoded (c ∷ s) =
    let more = second_pad (si + 1) decoded s in
    if is_newline c then more else if c == b'=' then rest_of (si + 1) decoded s else inl (si - 1)

-- the sextets of a group that is not yet complete
pub data Group : Type 0 where
  empty : Group
  one : ℕ → Group
  two : ℕ → ℕ → Group
  three : ℕ → ℕ → ℕ → Group

-- a sign of padding, behind a group
padded : ℕ → Group → Bytes → ℕ ⊎ Bytes
unfolding rest_of second_pad
padded si empty s = inl si
padded si (one a) s = inl si
padded si (two a b) s = second_pad (si + 1) ((a * 4 + b / 16) ∷ []) s
padded si (three a b c) s = rest_of (si + 1) ((a * 4 + b / 16) ∷ (b % 16 * 16 + c / 4) ∷ []) s

ended : ℕ → Group → ℕ ⊎ Bytes
ended si empty = inr []
ended si (one a) = inl (si - 1)
ended si (two a b) = inl (si - 2)
ended si (three a b c) = inl (si - 3)

-- three bytes in front of what follows
before : ℕ → ℕ → ℕ → ℕ ⊎ Bytes → ℕ ⊎ Bytes
before x y z (inl offset) = inl offset
before x y z (inr rest) = inr (x ∷ y ∷ z ∷ rest)

-- one more sextet, and the rest of the text
with_sextet : Group → ℕ → (Group → ℕ ⊎ Bytes) → ℕ ⊎ Bytes
unfolding before
with_sextet empty d rest = rest (one d)
with_sextet (one a) d rest = rest (two a d)
with_sextet (two a b) d rest = rest (three a b d)
with_sextet (three a b c) d rest =
    before (a * 4 + b / 16) (b % 16 * 16 + c / 4) (c % 4 * 64 + d) (rest empty)

with_byte : ℕ → Group → ℕ → Bytes → (Group → ℕ ⊎ Bytes) → Option ℕ → ℕ ⊎ Bytes
unfolding with_sextet is_newline padded
with_byte si g c s rest (some d) = with_sextet g d rest
with_byte si g c s rest none =
    if is_newline c then rest g else if c == b'=' then padded si g s else inl si

decode_from : ℕ → Group → Bytes → ℕ ⊎ Bytes
unfolding ended with_byte sextet
decode_from si g [] = ended si g
decode_from si g (c ∷ s) = with_byte si g c s (λ h. decode_from (si + 1) h s) (sextet c)

-- `DecodeString`; on the left the offset of a `CorruptInputError`
unfoldable pub base64_decode : Bytes → ℕ ⊎ Bytes
unfolding decode_from
base64_decode s = decode_from 0 empty s

letter : ℕ → ℕ
letter d =
    if ltb d 26
    then b'A' + d
    else if ltb d 52
    then b'a' + (d - 26)
    else if ltb d 62
    then b'0' + (d - 52)
    else if d == 62
    then b'+'
    else b'/'

-- `EncodeToString`
unfoldable pub base64_encode : Bytes → Bytes
unfolding letter
base64_encode [] = []
base64_encode (x ∷ []) = letter (x / 4) ∷ letter (x % 4 * 16) ∷ b'=' ∷ b'=' ∷ []
base64_encode (x ∷ y ∷ []) =
    letter (x / 4) ∷ letter (x % 4 * 16 + y / 16) ∷ letter (y % 16 * 4) ∷ b'=' ∷ []
base64_encode (x ∷ y ∷ z ∷ rest) =
    letter (x / 4)
    ∷ letter (x % 4 * 16 + y / 16)
    ∷ letter (y % 16 * 4 + z / 64)
    ∷ letter (z % 64)
    ∷ base64_encode rest

sextet-letter : (d : ℕ) → d < 64 → sextet (letter d) ≡ some d
unfolding sextet letter
sextet-letter d h = ground arith

decode_test : base64_decode (text "aGkgeW91") ≡ inr (text "hi you")
unfolding base64_decode text
decode_test = refl

padded_test : base64_decode (text "aGk=") ≡ inr (text "hi")
unfolding base64_decode text
padded_test = refl

corrupt_test : base64_decode (text "aG?=") ≡ inl 2
unfolding base64_decode text
corrupt_test = refl

decode_from-encode :
    (si : ℕ) (bs : Bytes) → All (λ b. b < 256) bs → decode_from si empty (base64_encode bs) ≡ inr bs
unfolding decode_from base64_encode
decode_from-encode si [] h = refl
decode_from-encode si (x ∷ []) h =
    rw (sextet-letter (x / 4) (omega arith), sextet-letter (x % 4 * 16) (omega arith))
      (ground arith)
decode_from-encode si (x ∷ y ∷ []) h =
    rw
      (
        sextet-letter (x / 4) (omega arith),
        sextet-letter (x % 4 * 16 + y / 16) (omega arith),
        sextet-letter (y % 16 * 4) (omega arith),
      )
      (ground arith)
decode_from-encode si (x ∷ y ∷ z ∷ bs) h =
    rw
      (
        sextet-letter (x / 4) (omega arith),
        sextet-letter (x % 4 * 16 + y / 16) (omega arith),
        sextet-letter (y % 16 * 4 + z / 64) (omega arith),
        sextet-letter (z % 64) (omega arith),
        decode_from-encode (si + 1 + 1 + 1 + 1) bs h.1.1.1,
      )
      (ground arith)

-- What was encoded is decoded.
pub base64_decode-base64_encode :
    (bs : Bytes) → All (λ b. b < 256) bs → base64_decode (base64_encode bs) ≡ inr bs
unfolding base64_decode
base64_decode-base64_encode bs h = decode_from-encode 0 bs h
