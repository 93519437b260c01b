-- ===== src/Signing/Compact.antt =====
-- signing/secp256k1.go: the compact form of a signature, and what it uses of math/big.
pub mod RoundTrip
use sawtooth_sdk_go.Base.{
  ℕ, zero, suc, ◌+◌, ◌*◌, ◌-◌, ◌/◌, ◌%◌, Bytes, ltb, length, take, drop, replicate, [], ◌∷◌, ◌++◌,
  ◌==◌, not, if◌then◌else◌,
}
use sawtooth_sdk_go.Processor.Errors.{Outcome, ok, panic}

-- `big.Int.SetBytes`, on the number that the bytes before spell
unfoldable pub set_from : ℕ → Bytes → ℕ
set_from n [] = n
set_from n (b ∷ bs) = set_from (n * 256 + b) bs

unfoldable pub set_bytes : Bytes → ℕ
set_bytes bs = set_from 0 bs

bytes_from : ℕ → ℕ → Bytes
bytes_from zero n = []
bytes_from (suc fuel) n =
    let front = bytes_from fuel (n / 256) in if n == 0 then [] else front ++ (n % 256) ∷ []

-- `big.Int.Bytes`: big-endian without leading zeros; the fuel is enough, since n / 256 < n
unfoldable pub big_bytes : ℕ → Bytes
unfolding bytes_from
big_bytes n = bytes_from n n

-- the fields of `ellcurv.Signature`
pub record Signature : Type 0 where
  pub r : ℕ
  pub s : ℕ

unfoldable pub pad : Bytes → ℕ → Bytes
pad buf size = replicate (size - length buf) 0 ++ buf

unfoldable pub serialize_compact : Signature → Outcome Bytes
serialize_compact sig =
    let b = pad (big_bytes sig.r) 32 ++ pad (big_bytes sig.s) 32 in
    if not (length b == 64) then panic else ok b

-- `b[32:]` panics if there are less than 32 bytes
unfoldable pub deserialize_compact : Bytes → Outcome Signature
deserialize_compact b =
    if ltb (length b) 32
    then panic
    else ok (record { r = set_bytes (take 32 b); s = set_bytes (drop 32 b) })
