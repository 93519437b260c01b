-- ===== src/Smallbank/Accounts/Held.antt =====
-- Loading and saving accounts against the data that the validator holds.
use sawtooth_sdk_go.Base.{
  ◌≡◌, Bytes, bytes_eq, bytes_eq_refl, ℕ, [], ◌∷◌, Option, none, some, ◌⊎◌, inl, inr, refl, List,
  false, if◌then◌else◌,
}
use sawtooth_sdk_go.Processor.Errors.{
  Outcome, ok, err, panic, continue_with, lift, >>=-eq-ok, ended-eq,
}
use sawtooth_sdk_go.Processor.Store.{Context, IsStore, Serves, data_at}
use sawtooth_sdk_go.Processor.Store.Clean.{FailsCleanly}
use sawtooth_sdk_go.Smallbank.Accounts.{
  Account, Codec, account_address, account_of, load_account, save_account, store_data_of,
  acknowledged, ignore_error,
}

-- An account marshals to data from which it is read back.
abbrev pub ReadsBack : Codec → Account → Type 0
ReadsBack codec a =
    (d : Bytes) × (codec.marshal_account a ≡ some d) × (account_of codec d ≡ ok (some a))

module _ (sha512 : Bytes → Bytes) (codec : Codec) where
  -- the account that the data at addresses says a customer has
  abbrev pub account_at : (Bytes → Bytes) → ℕ → Outcome (Option Account)
  account_at data_of customer_id = account_of codec (data_of (account_address sha512 customer_id))

  -- The data changes at one account's address, to data from which that account is read.
  abbrev pub Saves : Account → (Bytes → Bytes) → (Bytes → Bytes) → Type 0
  Saves a before after =
      (d : Bytes) × (account_of codec d ≡ ok (some a))
      × ((x : Bytes)
          → after x ≡ (if bytes_eq (account_address sha512 a.customer_id) x then d else before x))

  -- What may become of the data when an account is saved and the error is dropped: what the account
  -- marshals to is written at its address, or nothing changes.
  abbrev pub Attempts : Account → (Bytes → Bytes) → (Bytes → Bytes) → Type 0
  Attempts a before after =
      ((x : Bytes) → after x ≡ before x)
      ⊎ ((d : Bytes) × (codec.marshal_account a ≡ some d)
          × ((x : Bytes)
              → after x
                ≡ (if bytes_eq (account_address sha512 a.customer_id) x then d else before x)))

  pub Saves-account_at :
      (a : Account) (before after : Bytes → Bytes)
      → Saves a before after
      → account_at after a.customer_id ≡ ok (some a)
  Saves-account_at a before after (d, reads, all) =
      rw (all (account_address sha512 a.customer_id), bytes_eq_refl) reads

  pub Saves-elsewhere :
      (a : Account) (before after : Bytes → Bytes) (x : Bytes)
      → Saves a before after
      → bytes_eq (account_address sha512 a.customer_id) x ≡ false
      → after x ≡ before x
  Saves-elsewhere a before after x (d, reads, all) differ = rw (all x, differ)

module _ {S : Type 0} (sha512 : Bytes → Bytes) (codec : Codec) (ctx : Context S)
    (held : S → Bytes → Bytes) (store : IsStore ctx held) where
  -- A load returns the account held, and changes nothing.
  pub load_account-account_at :
      (customer_id : ℕ) (s t : S) {o : Option Account}
      → load_account sha512 codec ctx customer_id s ≡ (ok o, t)
      → (account_at sha512 codec (held s) customer_id ≡ ok o) × ((x : Bytes) → held t x ≡ held s x)
  unfolding load_account
  load_account-account_at customer_id s t {o} done =
      let a = account_address sha512 customer_id in
      let (r, u, got, rest) =
        >>=-eq-ok (ctx.get_state (a ∷ [])) (λ r. lift (account_of codec (data_at a r))) s done in
      let (eo, ut) = ended-eq rest in
      let read : data_at a r ≡ held s a = store.get_reads a s got in
      (rw read at eo, λ x. rw (← ut) (store.get_keeps a x s got))

  -- A save whose error is dropped either writes what the account marshals to, or changes nothing.
  pub save_account-Attempts :
      FailsCleanly ctx held
      → (a : Account) (s t : S) → ignore_error (save_account sha512 codec ctx a s) ≡ (ok tt, t)
      → Attempts sha512 codec a (held s) (held t)
  unfolding save_account store_data_of acknowledged ignore_error
  save_account-Attempts clean a s t done = go (codec.marshal_account a) refl done
    where
      address : Bytes
      address = account_address sha512 a.customer_id

      set :
          (d : Bytes) (r : Outcome (List Bytes) × S)
          → codec.marshal_account a ≡ some d
          → ctx.set_state ((address, d) ∷ []) s ≡ r
          → ignore_error (continue_with (λ l. lift (acknowledged sha512 codec ctx l)) r)
            ≡ (ok tt, t)
          → Attempts sha512 codec a (held s) (held t)
      set d (ok [], u) is written k =
          inr (d, is, λ y. rw (← (ended-eq k).1) (store.set_writes address y d s written))
      set d (ok (x ∷ xs), u) is written k =
          inr (d, is, λ y. rw (← (ended-eq k).1) (store.set_writes address y d s written))
      set d (err e, u) is refused k =
          inl (λ y. rw (← (ended-eq k).1) (clean.set_failed ((address, d) ∷ []) s y refused))
      set d (panic, u) is stopped k = absurd (let no_panic = (ended-eq k).0 in cc)

      go :
          (o : Option Bytes)
          → codec.marshal_account a ≡ o
          → ignore_error (save_account sha512 codec ctx a s) ≡ (ok tt, t)
          → Attempts sha512 codec a (held s) (held t)
      go none is k = inl (λ y. rw (← (ended-eq (rw is at k)).1) refl)
      go (some d) is k = set d (ctx.set_state ((address, d) ∷ []) s) is refl (rw is at k)

  -- On a connection that serves, a save of an account that reads back writes it.
  pub save_account-Saves :
      Serves ctx
      → (a : Account) (s t : S) → ReadsBack codec a
      → ignore_error (save_account sha512 codec ctx a s) ≡ (ok tt, t)
      → Saves sha512 codec a (held s) (held t)
  unfolding save_account store_data_of acknowledged ignore_error
  save_account-Saves serves a s t (d, writes, reads) done =
      let address = account_address sha512 a.customer_id in
      let (x, xs, u, set) = serves.set_serves address d s in
      let reached : ◌≡◌ {A = Outcome (Unit {0}) × S} (ok tt, u) (ok tt, t) =
        rw (writes, set) at done in
      let ut = (ended-eq reached).1 in
      (d, reads, λ y. rw (← ut) (store.set_writes address y d s set))
