-- ===== src/Signing.antt =====
-- signing/core.go: keys, the interface `Context`, `Signer` and `CryptoFactory`.
pub mod Compact
pub mod Secp256k1
pub mod Verified
use sawtooth_sdk_go.Base.{Bytes, Bool, encode_to_string}
use sawtooth_sdk_go.Processor.Errors.{Outcome, Call}

-- A key, private or public, is seen through its bytes; `AsHex` is their hex digits.
pub record Key : Type 0 where
  pub algorithm_name : Bytes
  pub as_bytes : Bytes

-- `AsHex`
abbrev pub as_hex : Key → Bytes
as_hex k = encode_to_string k.as_bytes

-- the interface `Context`; a new key is drawn from a source `R` of random numbers
pub record Context (R : Type 0) : Type 0 where
  pub algorithm_name : Bytes
  pub new_random_private_key : Call R Key
  pub get_public_key : Key → Key
  pub sign : Bytes → Key → Outcome Bytes
  pub verify : Bytes → Bytes → Key → Outcome Bool

pub record Signer (R : Type 0) : Type 0 where
  pub context : Context R
  pub private_key : Key

pub record CryptoFactory (R : Type 0) : Type 0 where
  pub context : Context R

module _ {R : Type 0} where
  unfoldable pub signer_sign : Signer R → Bytes → Outcome Bytes
  signer_sign s message = s.context.sign message s.private_key

  unfoldable pub signer_get_public_key : Signer R → Key
  signer_get_public_key s = s.context.get_public_key s.private_key

  unfoldable pub new_crypto_factory : Context R → CryptoFactory R
  new_crypto_factory context = record { context = context }

  unfoldable pub new_signer : CryptoFactory R → Key → Signer R
  new_signer f key = record { context = f.context; private_key = key }
