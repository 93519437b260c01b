-- ===== src/Processor/Store.antt =====
-- What a transaction handler uses of `*processor.Context`: the three calls that read and write
-- global state. The methods of processor/context.go are the program's implementation of it; what
-- the validator holds at each address is seen through `held`, where no data means no entry.
pub mod Clean
use sawtooth_sdk_go.Base.{
  Option, Bytes, Dict, lookup, bytes_eq, List, [], ◌∷◌, ◌≡◌, none, some, if◌then◌else◌,
}
use sawtooth_sdk_go.Processor.Errors.{Call, ok}

pub record Context (S : Type 0) : Type 0 where
  pub get_state : List Bytes → Call S (Dict Bytes)
  pub set_state : Dict Bytes → Call S (List Bytes)
  pub delete_state : List Bytes → Call S (List Bytes)

-- a byte slice that may be nil
abbrev pub or_nil : Option Bytes → Bytes
or_nil none = []
or_nil (some d) = d

-- `results[address]` of a Go map of byte slices: nil, which has length 0, if there is no entry.
unfoldable pub data_at : Bytes → Dict Bytes → Bytes
data_at a m = or_nil (lookup a m)

-- What a call that succeeds at one address means for the state. Nothing is said of a failed call.
pub record IsStore {S : Type 0} (ctx : Context S) (held : S → Bytes → Bytes) : Type 0 where
  pub get_reads :
      (a : Bytes) (s : S) {r : Dict Bytes} {t : S}
      → ctx.get_state (a ∷ []) s ≡ (ok r, t)
      → data_at a r ≡ held s a
  pub get_keeps :
      (a b : Bytes) (s : S) {r : Dict Bytes} {t : S}
      → ctx.get_state (a ∷ []) s ≡ (ok r, t)
      → held t b ≡ held s b
  pub set_writes :
      (a b d : Bytes) (s : S) {r : List Bytes} {t : S}
      → ctx.set_state ((a, d) ∷ []) s ≡ (ok r, t)
      → held t b ≡ (if bytes_eq a b then d else held s b)
  pub delete_clears :
      (a b : Bytes) (s : S) {r : List Bytes} {t : S}
      → ctx.delete_state (a ∷ []) s ≡ (ok r, t)
      → held t b ≡ (if bytes_eq a b then [] else held s b)

-- A connection on which no call at one address fails, and a write is acknowledged.
pub record Serves {S : Type 0} (ctx : Context S) : Type 0 where
  pub get_serves :
      (a : Bytes) (s : S) → (r : Dict Bytes) × (t : S) × (ctx.get_state (a ∷ []) s ≡ (ok r, t))
  pub set_serves :
      (a d : Bytes) (s : S)
      → (x : Bytes) × (xs : List Bytes) × (t : S) × (ctx.set_state ((a, d) ∷ []) s
          ≡ (ok (x ∷ xs), t))
