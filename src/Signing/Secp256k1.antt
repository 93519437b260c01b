-- ===== src/Signing/Secp256k1.antt =====
-- signing/secp256k1.go: keys, `Secp256k1Context` and `CreateContext`. The curve and SHA-256 are
-- parameters; loading a key from PEM is left out, since it is C code over OpenSSL.
use sawtooth_sdk_go.Base.{Bytes, text, bytes_eq, Bool, ◌⊎◌, inl, inr, if◌then◌else◌}
use sawtooth_sdk_go.Processor.Errors.{Error, Outcome, ok, err, panic}
use sawtooth_sdk_go.Signing.{Key, Context}
use sawtooth_sdk_go.Signing.Compact.{Signature, serialize_compact, deserialize_compact}

-- What is used of github.com/btcsuite/btcd/btcec: private keys are bytes, points of the curve `P`.
pub record Curve (R P : Type 0) : Type 0 where
  -- `NewPrivateKey`, serialized; its error is not looked at
  pub new_private_key : R → Bytes × R
  -- the public key of `PrivKeyFromBytes`, compressed
  pub public_of : Bytes → Bytes
  pub sign_hash : Bytes → Bytes → Error ⊎ Signature
  pub parse_pub_key : Bytes → Error ⊎ P
  pub verify_hash : Signature → Bytes → P → Bool

abbrev pub algorithm : Bytes
algorithm = text "secp256k1"

unfoldable pub new_secp256k1_private_key : Bytes → Key
new_secp256k1_private_key bytes = record { algorithm_name = algorithm; as_bytes = bytes }

unfoldable pub new_secp256k1_public_key : Bytes → Key
new_secp256k1_public_key bytes = record { algorithm_name = algorithm; as_bytes = bytes }

module _ {R P : Type 0} (curve : Curve R P) (sha256 : Bytes → Bytes) where
  unfoldable pub new_random_private_key : R → Outcome Key × R
  new_random_private_key source =
      let (bytes, rest) = curve.new_private_key source in
      (ok (new_secp256k1_private_key bytes), rest)

  unfoldable pub get_public_key : Key → Key
  get_public_key private_key = new_secp256k1_public_key (curve.public_of private_key.as_bytes)

  signed : Error ⊎ Signature → Outcome Bytes
  signed (inl e) = panic
  signed (inr sig) = serialize_compact sig

  unfoldable pub sign : Bytes → Key → Outcome Bytes
  unfolding signed
  sign message private_key = signed (curve.sign_hash private_key.as_bytes (sha256 message))

  verified : Bytes → Outcome Signature → Error ⊎ P → Outcome Bool
  verified hash panic key = panic
  verified hash (err e) key = err e
  verified hash (ok sig) (inl e) = panic
  verified hash (ok sig) (inr key) = ok (curve.verify_hash sig hash key)

  unfoldable pub verify : Bytes → Bytes → Key → Outcome Bool
  unfolding verified
  verify signature message public_key =
      verified (sha256 message) (deserialize_compact signature)
        (curve.parse_pub_key public_key.as_bytes)

  unfoldable pub new_secp256k1_context : Context R
  new_secp256k1_context = record {
    algorithm_name = algorithm;
    new_random_private_key = new_random_private_key;
    get_public_key = get_public_key;
    sign = sign;
    verify = verify;
  }

  -- there is one algorithm; another name panics
  unfoldable pub create_context : Bytes → Outcome (Context R)
  create_context algorithm_name =
      if bytes_eq algorithm_name algorithm then ok new_secp256k1_context else panic
