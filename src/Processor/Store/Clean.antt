-- ===== src/Processor/Store/Clean.antt =====
-- Calls that change nothing if they end with an error, and how such calls are put together.
use sawtooth_sdk_go.Base.{◌≡◌, refl, ap, sym, ◌∙◌, ◌≢◌, Bytes, Dict, List, [], ◌∷◌, Bool}
use sawtooth_sdk_go.Processor.Errors.{
  Error, Outcome, ok, err, panic, Call, lift, reject_if, continue_with, ◌>>=◌, ended-eq,
}
use sawtooth_sdk_go.Processor.Store.{Context}

-- What the family of a handler relies on: no get changes what is held, a set or a delete that ends
-- with an error changes nothing, and a set of one address that succeeds lists an address.
pub record FailsCleanly {S : Type 0} (ctx : Context S) (held : S → Bytes → Bytes) : Type 0 where
  pub get_keeps_all :
      (addresses : List Bytes) (s : S) (b : Bytes) → held (ctx.get_state addresses s).1 b ≡ held s b
  pub set_failed :
      (pairs : Dict Bytes) (s : S) (b : Bytes) {e : Error} {t : S}
      → ctx.set_state pairs s ≡ (err e, t)
      → held t b ≡ held s b
  pub set_lists :
      (a d : Bytes) (s : S) {r : List Bytes} {t : S}
      → ctx.set_state ((a, d) ∷ []) s ≡ (ok r, t)
      → r ≢ []
  pub delete_failed :
      (addresses : List Bytes) (s : S) (b : Bytes) {e : Error} {t : S}
      → ctx.delete_state addresses s ≡ (err e, t)
      → held t b ≡ held s b

module _ {X : Type 0} (view : X → Bytes → Bytes) where
  -- a call that changes nothing, however it ends
  pub record Keeps {A : Type 0} (m : Call X A) : Type 0 where
    pub keeps : (x : X) (b : Bytes) → view (m x).1 b ≡ view x b

  -- a call that changes nothing if it ends with an error
  pub record IsClean {A : Type 0} (m : Call X A) : Type 0 where
    pub refused_keeps :
        (x : X) (b : Bytes) (e : Error) (y : X) → m x ≡ (err e, y) → view y b ≡ view x b

  -- a call that does not end with an error
  pub record Succeeds {A : Type 0} (m : Call X A) : Type 0 where
    pub no_error : (x : X) (e : Error) (y : X) → m x ≢ (err e, y)

  pub Keeps-IsClean : {A : Type 0} (m : Call X A) → Keeps m → IsClean m
  Keeps-IsClean {A} m k = record {
    refused_keeps = λ x b e y ends. ap (λ (r : Outcome A × X). view r.1 b) (sym ends) ∙ k.keeps x b;
  }

  pub >>=-Keeps :
      {A B : Type 0} (m : Call X A) (f : A → Call X B)
      → Keeps m
      → ((a : A) → Keeps (f a))
      → Keeps (m >>= f)
  >>=-Keeps {A} {B} m f k next = record { keeps = λ x b. go x b (m x) (k.keeps x b) }
    where
      go :
          (x : X) (b : Bytes) (r : Outcome A × X)
          → view r.1 b ≡ view x b
          → view (continue_with f r).1 b ≡ view x b
      go x b (ok a, y) same = (next a).keeps y b ∙ same
      go x b (err e, y) same = same
      go x b (panic, y) same = same

  -- What goes before changes nothing.
  pub >>=-IsClean :
      {A B : Type 0} (m : Call X A) (f : A → Call X B)
      → Keeps m
      → ((a : A) → IsClean (f a))
      → IsClean (m >>= f)
  >>=-IsClean {A} {B} m f k next = record {
    refused_keeps = λ x b e y ends. go x b e y (m x) (k.keeps x b) ends;
  }
    where
      go :
          (x : X) (b : Bytes) (e : Error) (y : X) (r : Outcome A × X)
          → view r.1 b ≡ view x b
          → continue_with f r ≡ (err e, y)
          → view y b ≡ view x b
      go x b e y (ok a, z) same k = (next a).refused_keeps z b e y k ∙ same
      go x b e y (err e', z) same k = ap (λ (w : X). view w b) (sym (ended-eq k).1) ∙ same
      go x b e y (panic, z) same k = absurd (cc)

  -- What goes behind does not fail.
  pub >>=-IsClean_last :
      {A B : Type 0} (m : Call X A) (f : A → Call X B)
      → IsClean m
      → ((a : A) → Succeeds (f a))
      → IsClean (m >>= f)
  >>=-IsClean_last {A} {B} m f clean last = record {
    refused_keeps = λ x b e y ends. go x b e y (m x) refl ends;
  }
    where
      go :
          (x : X) (b : Bytes) (e : Error) (y : X) (r : Outcome A × X)
          → m x ≡ r
          → continue_with f r ≡ (err e, y)
          → view y b ≡ view x b
      go x b e y (ok a, z) is k = absurd ((last a).no_error z e y k)
      go x b e y (err e', z) is k =
          ap (λ (w : X). view w b) (sym (ended-eq k).1) ∙ clean.refused_keeps x b e' z is
      go x b e y (panic, z) is k = absurd (cc)

  pub Succeeds-IsClean : {A : Type 0} (m : Call X A) → Succeeds m → IsClean m
  Succeeds-IsClean m s = record { refused_keeps = λ x b e y ends. absurd (s.no_error x e y ends) }

  pub >>=-Succeeds :
      {A B : Type 0} (m : Call X A) (f : A → Call X B)
      → Succeeds m
      → ((a : A) → Succeeds (f a))
      → Succeeds (m >>= f)
  >>=-Succeeds {A} {B} m f first next = record { no_error = λ x e y ends. go x e y (m x) refl ends }
    where
      go :
          (x : X) (e : Error) (y : X) (r : Outcome A × X)
          → m x ≡ r
          → continue_with f r ≡ (err e, y)
          → ⊥
      go x e y (ok a, z) is k = (next a).no_error z e y k
      go x e y (err e', z) is k = first.no_error x e' z is
      go x e y (panic, z) is k = cc

  pub lift-Keeps : {A : Type 0} (r : Outcome A) → Keeps (lift r)
  lift-Keeps r = record { keeps = λ x b. refl }

  -- A result, and what goes behind it.
  pub then-IsClean :
      {A B : Type 0} (r : Outcome A) (f : A → Call X B)
      → ((a : A) → IsClean (f a))
      → IsClean (lift r >>= f)
  then-IsClean r f = >>=-IsClean (lift r) f (lift-Keeps r)

  pub reject_if-Keeps : (test : Bool) (e : Error) → Keeps (reject_if test e)
  reject_if-Keeps test e = record { keeps = λ x b. refl }

module _ {S : Type 0} (ctx : Context S) (held : S → Bytes → Bytes)
    (clean : FailsCleanly ctx held) where
  pub get_state-Keeps : (addresses : List Bytes) → Keeps held (ctx.get_state addresses)
  get_state-Keeps addresses = record { keeps = λ s b. clean.get_keeps_all addresses s b }

  -- A set of one address, and the test of what it lists.
  pub set_one-IsClean :
      (listed : List Bytes → Outcome (Unit {0}))
      → ((x : Bytes) (xs : List Bytes) → listed (x ∷ xs) ≡ ok tt)
      → (a d : Bytes) → IsClean held (ctx.set_state ((a, d) ∷ []) >>= λ r. lift (listed r))
  set_one-IsClean listed passes a d = record {
    refused_keeps = λ s b e t ends. go s b e t (ctx.set_state ((a, d) ∷ []) s) refl ends;
  }
    where
      go :
          (s : S) (b : Bytes) (e : Error) (t : S) (o : Outcome (List Bytes) × S)
          → ctx.set_state ((a, d) ∷ []) s ≡ o
          → continue_with (λ r. lift (listed r)) o ≡ (err e, t)
          → held t b ≡ held s b
      go s b e t (ok [], u) is k = absurd (clean.set_lists a d s is refl)
      go s b e t (ok (x ∷ xs), u) is k =
          absurd (let same = sym (passes x xs) ∙ (ended-eq k).0 in cc)
      go s b e t (err e', u) is k =
          ap (λ v. held v b) (sym (ended-eq k).1) ∙ clean.set_failed ((a, d) ∷ []) s b is
      go s b e t (panic, u) is k = absurd (cc)
