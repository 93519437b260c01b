-- ===== src/Base/Digest.antt =====
-- The package encoding/hex, and the hex digest that the example handlers share. SHA-512 is a
-- parameter: 64 bytes.
use Prim.Native.Nat.{ℕ, suc, ◌*◌, ◌+◌, ◌-◌, ◌/◌, ◌%◌, ◌<◌}
use mathlib.Core.Path.{◌≡◌, refl, ap, ◌∙◌}
use mathlib.Core.Bool.{◌&&◌}
use mathlib.Core.List.{[], ◌∷◌, map}
use mathlib.Core.Option.{Option, none, some}
use native.Mathlib.Omega.{arith}
use sawtooth_sdk_go.Base.Tests.{ltb, leb, if◌then◌else◌}
use sawtooth_sdk_go.Base.Lists.{All, length}
use sawtooth_sdk_go.Base.Text.{Bytes, text}

hex_digit : ℕ → ℕ
hex_digit n = if ltb n 10 then b'0' + n else b'a' + (n - 10)

-- `hex.EncodeToString`
pub encode_to_string : Bytes → Bytes
unfolding hex_digit
encode_to_string [] = []
encode_to_string (c ∷ s) = hex_digit (c / 16) ∷ hex_digit (c % 16) ∷ encode_to_string s

-- the four bits of a hex digit, in either case
hex_value : ℕ → Option ℕ
hex_value c =
    if leb b'0' c && leb c b'9'
    then some (c - b'0')
    else if leb b'a' c && leb c b'f'
    then some (c - b'a' + 10)
    else if leb b'A' c && leb c b'F'
    then some (c - b'A' + 10)
    else none

byte_of : Option ℕ → Option ℕ → Bytes → Bytes
byte_of (some high) (some low) rest = (high * 16 + low) ∷ rest
byte_of high low rest = []

-- The bytes that `hex.DecodeString` returns: those in front of the first error, if there is one.
unfoldable pub decode_string : Bytes → Bytes
unfolding hex_value byte_of
decode_string (p ∷ q ∷ s) = byte_of (hex_value p) (hex_value q) (decode_string s)
decode_string s = []

hex_value-hex_digit : (n : ℕ) → n < 16 → hex_value (hex_digit n) ≡ some n
unfolding hex_value hex_digit
hex_value-hex_digit n h = ground arith

-- What was encoded is decoded.
pub decode_string-encode_to_string :
    (s : Bytes) → All (λ b. b < 256) s → decode_string (encode_to_string s) ≡ s
unfolding decode_string encode_to_string
decode_string-encode_to_string [] h = refl
decode_string-encode_to_string (c ∷ s) h =
    rw (hex_value-hex_digit (c / 16) (omega arith), hex_value-hex_digit (c % 16) (omega arith))
      (ground (arith, decode_string-encode_to_string s h.1))

-- `strings.ToLower` on ASCII
to_lower : ℕ → ℕ
to_lower c = if leb b'A' c && leb c b'Z' then c + 32 else c

unfoldable pub hexdigest : (Bytes → Bytes) → Bytes → Bytes
unfolding encode_to_string to_lower
hexdigest sha512 str = map to_lower (encode_to_string (sha512 str))

length-encode_to_string : (s : Bytes) → length (encode_to_string s) ≡ 2 * length s
unfolding encode_to_string
length-encode_to_string [] = refl
length-encode_to_string (c ∷ s) = omega (arith, length-encode_to_string s)

length-map-to_lower : (s : Bytes) → length (map to_lower s) ≡ length s
length-map-to_lower [] = refl
length-map-to_lower (c ∷ s) = ap suc (length-map-to_lower s)

pub length-hexdigest :
    (sha512 : Bytes → Bytes) (s : Bytes) → length (hexdigest sha512 s) ≡ 2 * length (sha512 s)
unfolding hexdigest
length-hexdigest sha512 s =
    length-map-to_lower (encode_to_string (sha512 s)) ∙ length-encode_to_string (sha512 s)

hexdigest_test : hexdigest (λ s. s) (0x0a ∷ 0xff ∷ []) ≡ text "0aff"
unfolding hexdigest text
hexdigest_test = refl
