-- ===== src/Signing/Compact/RoundTrip.antt =====
-- The compact form of a signature is read back.
use sawtooth_sdk_go.Base.{
  ◌≡◌, refl, ap, sym, ◌∙◌, ℕ, zero, suc, ◌+◌, ◌*◌, ◌-◌, ◌/◌, ◌%◌, ◌^◌, ◌<◌, ◌≤◌, Bytes, length,
  take, drop, replicate, [], ◌∷◌, ◌++◌, ◌==◌, ==_iff, length-append, Bool-cases, inl, inr, arith,
}
use sawtooth_sdk_go.Processor.Errors.{ok}
use sawtooth_sdk_go.Signing.Compact.{
  set_from, set_bytes, bytes_from, big_bytes, Signature, pad, serialize_compact,
  deserialize_compact,
}

take-append : (xs ys : Bytes) → take (length xs) (xs ++ ys) ≡ xs
take-append [] ys = refl
take-append (x ∷ xs) ys = ap (λ zs. x ∷ zs) (take-append xs ys)

drop-append : (xs ys : Bytes) → drop (length xs) (xs ++ ys) ≡ ys
drop-append [] ys = refl
drop-append (x ∷ xs) ys = drop-append xs ys

take_front : (k : ℕ) (xs ys : Bytes) → length xs ≡ k → take k (xs ++ ys) ≡ xs
take_front k xs ys long = rw (← long) (take-append xs ys)

drop_front : (k : ℕ) (xs ys : Bytes) → length xs ≡ k → drop k (xs ++ ys) ≡ ys
drop_front k xs ys long = rw (← long) (drop-append xs ys)

set_from-append : (n : ℕ) (xs ys : Bytes) → set_from n (xs ++ ys) ≡ set_from (set_from n xs) ys
unfolding set_from
set_from-append n [] ys = refl
set_from-append n (x ∷ xs) ys = set_from-append (n * 256 + x) xs ys

set_from-zeros : (k : ℕ) (bs : Bytes) → set_from 0 (replicate k 0 ++ bs) ≡ set_from 0 bs
unfolding set_from
set_from-zeros zero bs = refl
set_from-zeros (suc k) bs = set_from-zeros k bs

-- Enough fuel spells the number.
set_from-bytes_from : (fuel n : ℕ) → n ≤ fuel → set_from 0 (bytes_from fuel n) ≡ n
unfolding set_from bytes_from
set_from-bytes_from zero n h = omega arith
set_from-bytes_from (suc fuel) n h = elim (Bool-cases (n == 0)) [
  | inl none ↦ rw none (sym ((==_iff n 0).0 none))
  | inr some ↦
      let ih = set_from-bytes_from fuel (n / 256) (omega (arith, (==_iff n 0).1)) in
      rw some (set_from-append 0 (bytes_from fuel (n / 256)) ((n % 256) ∷ []) ∙ rw ih (omega arith))
]

length-bytes_from : (fuel n k : ℕ) → n < 256 ^ k → length (bytes_from fuel n) ≤ k
unfolding bytes_from
length-bytes_from zero n k h = omega arith
length-bytes_from (suc fuel) n zero h = rw ((==_iff n 0).1 (omega arith)) (omega arith)
length-bytes_from (suc fuel) n (suc k) h = elim (Bool-cases (n == 0)) [
  | inl none ↦ rw none (omega arith)
  | inr some ↦
      let ih = length-bytes_from fuel (n / 256) k (omega arith) in
      rw some (omega (arith, ih, length-append (bytes_from fuel (n / 256)) ((n % 256) ∷ [])))
]

length-replicate : (k b : ℕ) → length (replicate k b) ≡ k
length-replicate zero b = refl
length-replicate (suc k) b = ap suc (length-replicate k b)

length-pad : (n : ℕ) → n < 256 ^ 32 → length (pad (big_bytes n) 32) ≡ 32
unfolding pad big_bytes
length-pad n h = omega (
  arith,
  length-bytes_from n n 32 h,
  length-append (replicate (32 - length (bytes_from n n)) 0) (bytes_from n n),
  length-replicate (32 - length (bytes_from n n)) 0,
)

set_bytes-pad : (n : ℕ) → set_bytes (pad (big_bytes n) 32) ≡ n
unfolding set_bytes pad big_bytes
set_bytes-pad n =
    set_from-zeros (32 - length (bytes_from n n)) (bytes_from n n)
    ∙ set_from-bytes_from n n (omega arith)

-- A signature whose numbers are below 2^256 has a compact form, of 64 bytes, from which it is read
-- back: neither function panics.
pub deserialize-serialize_compact :
    (sig : Signature)
    → sig.r < 256 ^ 32
    → sig.s < 256 ^ 32
    → (b : Bytes) × (serialize_compact sig ≡ ok b)
      × (length b ≡ 64)
      × (deserialize_compact b ≡ ok sig)
unfolding serialize_compact deserialize_compact
deserialize-serialize_compact sig below_r below_s =
    let r = pad (big_bytes sig.r) 32 in
    let s = pad (big_bytes sig.s) 32 in
    let long : length (r ++ s) ≡ 64 =
      omega (arith, length-append r s, length-pad sig.r below_r, length-pad sig.s below_s) in
    let front : take 32 (r ++ s) ≡ r = take_front 32 r s (length-pad sig.r below_r) in
    let back : drop 32 (r ++ s) ≡ s = drop_front 32 r s (length-pad sig.r below_r) in
    (
      r ++ s,
      rw ((==_iff (length (r ++ s)) 64).1 long) refl,
      long,
      rw long (rw (front, back, set_bytes-pad sig.r, set_bytes-pad sig.s) refl),
    )
