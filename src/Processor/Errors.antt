-- ===== src/Processor/Errors.antt =====
-- The error types of processor/errors.go and consensus/errors.go, and how a Go call ends: with a
-- value, with an error, or with a panic. A call that reads and writes a state `S` is a function of
-- it; the state comes back after an error or a panic too, since what was written stays written.
use sawtooth_sdk_go.Base.{
  Bytes, text, [], ◌++◌, Bool, true, false, ◌≡◌, refl, ◌∙◌, ◌⊎◌, inl, inr, if◌then◌else◌,
}

-- the error types of the package consensus
pub data ConsensusKind : Type 0 where
  encoding_error send_error receive_error invalid_state_error : ConsensusKind
  unknown_block_error unknown_peer_error no_chain_head_error block_not_ready_error : ConsensusKind

-- `other` is any error that is none of the two packages' types, with the text of its `Error()`.
pub data Error : Type 0 where
  invalid_transaction : (msg : Bytes) → (extended_data : Bytes) → Error
  internal_error : (msg : Bytes) → (extended_data : Bytes) → Error
  authorization_exception : (msg : Bytes) → (extended_data : Bytes) → Error
  consensus_error : (kind : ConsensusKind) → (msg : Bytes) → Error
  other : Bytes → Error

-- `Error()` of the package consensus
unfoldable pub kind_text : ConsensusKind → Bytes → Bytes
kind_text encoding_error m = text "EncodingError: " ++ m
kind_text send_error m = text "SendError: " ++ m
kind_text receive_error m = text "ReceiveError: " ++ m
kind_text invalid_state_error m = text "InvalidState: " ++ m
kind_text unknown_block_error m = text "UnknownBlock: " ++ m
kind_text unknown_peer_error m = text "UnknownPeer: " ++ m
kind_text no_chain_head_error m = text "NoChainHead"
kind_text block_not_ready_error m = text "BlockNotReady"

-- `err.Error()`
unfoldable pub error_text : Error → Bytes
error_text (invalid_transaction m d) = text "Invalid transaction: " ++ m
error_text (internal_error m d) = text "Internal error: " ++ m
error_text (authorization_exception m d) = text "Authorization exception: " ++ m
error_text (consensus_error k m) = kind_text k m
error_text (other m) = m

-- `IsBlockNotReadyError(err)` and `IsInvalidStateError(err)`
unfoldable pub is_block_not_ready_error : Error → Bool
is_block_not_ready_error (consensus_error block_not_ready_error m) = true
is_block_not_ready_error e = false

unfoldable pub is_invalid_state_error : Error → Bool
is_invalid_state_error (consensus_error invalid_state_error m) = true
is_invalid_state_error e = false

-- `&InvalidTransactionError{Msg: m}` and `&InternalError{Msg: m}`: the extended data is nil.
abbrev pub invalid : Bytes → Error
invalid m = invalid_transaction m []

abbrev pub internal : Bytes → Error
internal m = internal_error m []

pub data Outcome {ℓ} (A : Type ℓ) : Type ℓ where
  ok : A → Outcome A
  err : Error → Outcome A
  panic : Outcome A

-- a call on a state
abbrev pub Call : Type 0 → Type 0 → Type 0
Call S A = S → Outcome A × S

module _ {S A : Type 0} where
  abbrev pub pure : A → Call S A
  pure a s = (ok a, s)

  abbrev pub fail : Error → Call S A
  fail e s = (err e, s)

  -- a call that reads no state
  abbrev pub lift : Outcome A → Call S A
  lift r s = (r, s)

-- the rest of a function behind `if err != nil { return err }`
abbrev pub continue_with : {S A B : Type 0} → (A → Call S B) → Outcome A × S → Outcome B × S
continue_with f (ok a, s) = f a s
continue_with f (err e, s) = (err e, s)
continue_with f (panic, s) = (panic, s)

infixl 5 ◌>>=◌ ◌>>◌
abbrev pub ◌>>=◌ : {S A B : Type 0} → Call S A → (A → Call S B) → Call S B
◌>>=◌ m f s = continue_with f (m s)

abbrev pub ◌>>◌ : {S A B : Type 0} → Call S A → Call S B → Call S B
m >> k = m >>= λ _. k

-- `if b { return e }`
abbrev pub reject_if : {S : Type 0} → Bool → Error → Call S (Unit {0})
reject_if b e s = (if b then err e else ok tt, s)

-- Two ways to end a call are equal part by part.
pub ended-eq :
    {S A : Type 0} {r q : Outcome A} {s t : S}
    → ◌≡◌ {A = Outcome A × S} (r, s) (q, t)
    → (r ≡ q) × (s ≡ t)
ended-eq e = (λ i. (e i).0, λ i. (e i).1)

pub ok-injective : {A : Type 0} {a b : A} → ok a ≡ ok b → a ≡ b
ok-injective e = cc

-- Inversion of a call that succeeds: its first part did.
pub >>=-eq-ok :
    {S A B : Type 0} (m : Call S A) (f : A → Call S B) (s : S) {b : B} {t : S}
    → (m >>= f) s ≡ (ok b, t)
    → (a : A) × (u : S) × (m s ≡ (ok a, u)) × (f a u ≡ (ok b, t))
>>=-eq-ok {S} {A} {B} m f s {b} {t} h = go (m s) refl h
  where
    go :
        (r : Outcome A × S)
        → m s ≡ r
        → continue_with f r ≡ (ok b, t)
        → (a : A) × (u : S) × (m s ≡ (ok a, u)) × (f a u ≡ (ok b, t))
    go (ok a, u) e k = (a, u, e, k)
    go (err x, u) e k = absurd (cc)
    go (panic, u) e k = absurd (cc)

-- Inversion of a result and what follows it.
pub lift-ok :
    {S A B : Type 0} (r : Outcome A) (f : A → Call S B) (s : S) {b : B} {t : S}
    → (lift r >>= f) s ≡ (ok b, t)
    → (a : A) × (r ≡ ok a) × (f a s ≡ (ok b, t))
lift-ok (ok a) f s h = (a, refl, h)
lift-ok (err e) f s h = absurd (cc)
lift-ok panic f s h = absurd (cc)

-- Inversion of a call that ends with an error: its first part did, or what follows that.
pub >>=-eq-err :
    {S A B : Type 0} (m : Call S A) (f : A → Call S B) (s : S) {e : Error} {t : S}
    → (m >>= f) s ≡ (err e, t)
    → (m s ≡ (err e, t)) ⊎ ((a : A) × (u : S) × (m s ≡ (ok a, u)) × (f a u ≡ (err e, t)))
>>=-eq-err {S} {A} {B} m f s {e} {t} h = go (m s) refl h
  where
    go :
        (r : Outcome A × S)
        → m s ≡ r
        → continue_with f r ≡ (err e, t)
        → (m s ≡ (err e, t)) ⊎ ((a : A) × (u : S) × (m s ≡ (ok a, u)) × (f a u ≡ (err e, t)))
    go (ok a, u) is k = inr (a, u, is, k)
    go (err x, u) is k = inl (is ∙ (let (same, at) = ended-eq k in cc))
    go (panic, u) is k = absurd (let no = (ended-eq k).0 in cc)

pub lift-err :
    {S A B : Type 0} (r : Outcome A) (f : A → Call S B) (s : S) {e : Error} {t : S}
    → (lift r >>= f) s ≡ (err e, t)
    → ((r ≡ err e) × (s ≡ t)) ⊎ ((a : A) × (r ≡ ok a) × (f a s ≡ (err e, t)))
lift-err (ok a) f s h = inr (a, refl, h)
lift-err (err x) f s h = inl (let (same, at) = ended-eq h in (cc, at))
lift-err panic f s h = absurd (let no = (ended-eq h).0 in cc)
