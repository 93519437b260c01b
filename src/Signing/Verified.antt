-- ===== src/Signing/Verified.antt =====
-- What a signer signs is verified with the signer's public key.
use sawtooth_sdk_go.Base.{◌≡◌, refl, ◌^◌, ◌<◌, Bytes, bytes_eq_refl, true, inr}
use sawtooth_sdk_go.Processor.Errors.{ok}
use sawtooth_sdk_go.Signing.{
  Context, Signer, signer_sign, signer_get_public_key, new_crypto_factory, new_signer,
}
use sawtooth_sdk_go.Signing.Compact.{Signature}
use sawtooth_sdk_go.Signing.Compact.RoundTrip.{deserialize-serialize_compact}
use sawtooth_sdk_go.Signing.Secp256k1.{
  Curve, algorithm, new_secp256k1_private_key, new_secp256k1_public_key, get_public_key, sign,
  verify, new_secp256k1_context, create_context,
}

module _ {R P : Type 0} (curve : Curve R P) (sha256 : Bytes → Bytes) where
  -- What the curve promises of one private key: its public key can be parsed, and every hash is
  -- signed with two numbers below the order of the curve, which the parsed key verifies.
  pub record IsKeyOf (private_key : Bytes) : Type 0 where
    pub point : P
    pub parses : curve.parse_pub_key (curve.public_of private_key) ≡ inr point
    pub signature : Bytes → Signature
    pub signs : (hash : Bytes) → curve.sign_hash private_key hash ≡ inr (signature hash)
    pub below_r : (hash : Bytes) → (signature hash).r < 256 ^ 32
    pub below_s : (hash : Bytes) → (signature hash).s < 256 ^ 32
    pub verifies : (hash : Bytes) → curve.verify_hash (signature hash) hash point ≡ true

  abbrev pub signer_of : Context R → Bytes → Signer R
  signer_of context private_key =
      new_signer (new_crypto_factory context) (new_secp256k1_private_key private_key)

  -- A signer of the factory of the context named secp256k1 signs every message without a panic, and
  -- the context verifies the signature, which went through its compact form, with the public key
  -- that the signer gives.
  pub signer_verifies :
      (private_key message : Bytes)
      → IsKeyOf private_key
      → (context : Context R) × (signature : Bytes) × (create_context curve sha256 algorithm
          ≡ ok context)
        × (signer_sign (signer_of context private_key) message ≡ ok signature)
        × (context.verify signature message (signer_get_public_key (signer_of context private_key))
            ≡ ok true)
  unfolding create_context new_secp256k1_context new_signer new_crypto_factory signer_sign
      signer_get_public_key sign verify get_public_key new_secp256k1_private_key
      new_secp256k1_public_key
  signer_verifies private_key message key =
      let hash = sha256 message in
      let (b, serialized, long, read) =
        deserialize-serialize_compact (key.signature hash) (key.below_r hash) (key.below_s hash) in
      (
        new_secp256k1_context curve sha256,
        b,
        rw bytes_eq_refl refl,
        rw (key.signs hash) serialized,
        rw read (rw key.parses (rw (key.verifies hash) refl)),
      )
