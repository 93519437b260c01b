-- ===== src/Smallbank/Handler/Payments.antt =====
-- What the transactions between two accounts do to the balances that are held.
use sawtooth_sdk_go.Base.{
  ◌≡◌, ap, sym, ◌∙◌, ◌≤◌, ◌<◌, ◌+◌, Bytes, bytes_eq, ℕ, ltb, Option, none, some, some-eq_some,
  false, arith, if◌then◌else◌,
}
use mathlib.Core.Path.{subst, fun_ext}
use sawtooth_sdk_go.Processor.Errors.{
  Error, Call, ok, err, lift, reject_if, ◌>>=◌, ◌>>◌, >>=-eq-ok, ended-eq, ok-injective,
}
use sawtooth_sdk_go.Processor.Store.{Context, IsStore, Serves}
use sawtooth_sdk_go.Smallbank.Balance.{u32_mod, add_u32, sub_u32}
use sawtooth_sdk_go.Smallbank.Accounts.{
  Account, Codec, SendPaymentData, account_address, account_of, load_account,
}
use sawtooth_sdk_go.Smallbank.Accounts.Held.{
  account_at, ReadsBack, Attempts, Saves, Saves-account_at, Saves-elsewhere,
  load_account-account_at, save_account-Saves,
}
use sawtooth_sdk_go.Smallbank.Handler.{both_exist, save, apply_send_payment}

both_exist-ok :
    (o p : Option Account) {q : Account × Account}
    → both_exist o p ≡ ok q
    → (o ≡ some q.0) × (p ≡ some q.1)
unfolding both_exist
both_exist-ok (some a) (some b) e =
    let same = ok-injective e in (ap (λ r. some r.0) same, ap (λ r. some r.1) same)
both_exist-ok (some a) none e = absurd (cc)
both_exist-ok none p e = absurd (cc)

reject_if-le :
    (have want : ℕ) (e : Error) {u : Unit {0}}
    → (if ltb have want then err e else ok tt) ≡ ok u
    → want ≤ have
reject_if-le have want e h = ground arith

moved_sum : (x y n : ℕ) → n ≤ x → x < u32_mod → y + n < u32_mod → sub_u32 x n + add_u32 y n ≡ x + y
unfolding sub_u32 add_u32
moved_sum x y n h k l = omega arith

-- the source account after a payment, and the destination account
abbrev pub debited : ℕ → Account → Account
debited n a = record a { checking_balance = sub_u32 a.checking_balance n }

abbrev pub credited : ℕ → Account → Account
credited n a = record a { checking_balance = add_u32 a.checking_balance n }

module _ {S : Type 0} (sha512 : Bytes → Bytes) (codec : Codec) (ctx : Context S)
    (held : S → Bytes → Bytes) (store : IsStore ctx held) where
  -- Both accounts are held when the transaction starts.
  abbrev pub Holds : S → ℕ → Account → Type 0
  Holds s customer_id a = account_at sha512 codec (held s) customer_id ≡ ok (some a)

  -- Two accounts are saved, one after the other, and nothing else is written.
  abbrev SavesBoth : Account → Account → S → S → Type 0
  SavesBoth a b s t =
      (between : Bytes → Bytes) × Saves sha512 codec a (held s) between
      × Saves sha512 codec b between (held t)

  -- The saves of two accounts, one after the other, each of which may fail and change nothing.
  abbrev pub AttemptsBoth : Account → Account → S → S → Type 0
  AttemptsBoth a b s t =
      (between : Bytes → Bytes) × Attempts sha512 codec a (held s) between
      × Attempts sha512 codec b between (held t)

  both_loaded :
      (source dest : ℕ) (k : Account × Account → Call S (Unit {0})) (s t : S)
      → (load_account sha512 codec ctx source >>= λ o.
            load_account sha512 codec ctx dest >>= λ p. lift (both_exist o p) >>= k)
          s
        ≡ (ok tt, t)
      → (a : Account) × (b : Account) × (u : S) × Holds s source a
        × Holds s dest b
        × (held u ≡ held s)
        × (k (a, b) u ≡ (ok tt, t))
  both_loaded source dest k s t done =
      let (o, s1, load_a, rest) = >>=-eq-ok (load_account sha512 codec ctx source) _ s done in
      let (at_a, keeps1) = load_account-account_at sha512 codec ctx held store source s s1 load_a in
      let (p, s2, load_b, rest1) = >>=-eq-ok (load_account sha512 codec ctx dest) _ s1 rest in
      let (at_b, keeps2) = load_account-account_at sha512 codec ctx held store dest s1 s2 load_b in
      let (q, s3, exist, rest2) = >>=-eq-ok (lift (both_exist o p)) k s2 rest1 in
      let (both, s23) = ended-eq exist in
      let (is_a, is_b) = both_exist-ok o p both in
      (
        q.0,
        q.1,
        s3,
        rw is_a at at_a,
        ap (account_of codec) (sym (keeps1 (account_address sha512 dest))) ∙ rw is_b at at_b,
        rw (← s23) (fun_ext (λ x. keeps2 x ∙ keeps1 x)),
        rest2,
      )

  saved_both :
      Serves ctx
      → (a b : Account) (s u t : S) → ReadsBack codec a
      → ReadsBack codec b
      → held u ≡ held s
      → (save sha512 codec ctx a >> save sha512 codec ctx b) u ≡ (ok tt, t)
      → SavesBoth a b s t
  saved_both serves a b s u t back_a back_b same done =
      let (unit, v, first, second) =
        >>=-eq-ok (save sha512 codec ctx a) (λ _. save sha512 codec ctx b) u done in
      (
        held v,
        subst (λ f. Saves sha512 codec a f (held v)) same
            (save_account-Saves sha512 codec ctx held store serves a u v back_a first),
        save_account-Saves sha512 codec ctx held store serves b v t back_b second,
      )

  payment_found :
      (d : SendPaymentData) (s t : S)
      → apply_send_payment sha512 codec ctx d s ≡ (ok tt, t)
      → (a : Account) × (b : Account) × (u : S) × Holds s d.source_customer_id a
        × Holds s d.dest_customer_id b
        × (d.amount ≤ a.checking_balance)
        × (held u ≡ held s)
        × ((save sha512 codec ctx (debited d.amount a)
                >> save sha512 codec ctx (credited d.amount b))
              u
            ≡ (ok tt, t))
  unfolding apply_send_payment
  payment_found d s t done =
      let (a, b, u, at_a, at_b, same, rest) =
        both_loaded d.source_customer_id d.dest_customer_id _ s t done in
      let (unit, v, enough, saves) =
        >>=-eq-ok (reject_if (ltb a.checking_balance d.amount) _) _ u rest in
      let (funds, uv) = ended-eq enough in
      (a, b, u, at_a, at_b, reject_if-le a.checking_balance d.amount _ funds, same, rw uv saves)

  -- At most one account is held under a customer's number.
  one_account : (s : S) (i : ℕ) (a b : Account) → Holds s i a → Holds s i b → a ≡ b
  one_account s i a b p q = some-eq_some (ok-injective (sym p ∙ q))

  -- A payment of two known accounts, on a connection on which no set fails.
  payment_saves :
      Serves ctx
      → (d : SendPaymentData) (a b : Account) (s t : S) → Holds s d.source_customer_id a
      → Holds s d.dest_customer_id b
      → ReadsBack codec (debited d.amount a)
      → ReadsBack codec (credited d.amount b)
      → apply_send_payment sha512 codec ctx d s ≡ (ok tt, t)
      → (d.amount ≤ a.checking_balance) × SavesBoth (debited d.amount a) (credited d.amount b) s t
  payment_saves serves d a b s t at_a at_b back_a back_b done =
      let (a1, b1, u, at_a1, at_b1, funds, same, saves) = payment_found d s t done in
      let ea : a1 ≡ a = one_account s d.source_customer_id a1 a at_a1 at_a in
      let eb : b1 ≡ b = one_account s d.dest_customer_id b1 b at_b1 at_b in
      let known =
        subst
          (λ c.
            (save sha512 codec ctx (debited d.amount c)
                >> save sha512 codec ctx (credited d.amount b))
              u
            ≡ (ok tt, t))
          ea
          (subst
            (λ c.
              (save sha512 codec ctx (debited d.amount a1)
                  >> save sha512 codec ctx (credited d.amount c))
                u
              ≡ (ok tt, t))
            eb saves) in
      (
        subst (λ c. d.amount ≤ Account.checking_balance c) ea funds,
        saved_both serves (debited d.amount a) (credited d.amount b) s u t back_a back_b same known,
      )

  -- On a context that implements the store and on which no get or set of one address fails, a
  -- payment to oneself that is accepted only adds: the account ends with the amount added to its
  -- checking balance, modulo 2^32, and nothing taken off, if the account reads back from what it
  -- marshals to with the amount taken off and with the amount added.
  pub send_payment_to_self :
      Serves ctx
      → (d : SendPaymentData) (a : Account) (s t : S) → d.dest_customer_id ≡ d.source_customer_id
      → Holds s d.source_customer_id a
      → a.customer_id ≡ d.source_customer_id
      → ReadsBack codec (debited d.amount a)
      → ReadsBack codec (credited d.amount a)
      → apply_send_payment sha512 codec ctx d s ≡ (ok tt, t)
      → Holds t d.source_customer_id (credited d.amount a)
  send_payment_to_self serves d a s t self here id back_a back_b done =
      let (funds, (between, first, second)) =
        payment_saves serves d a a s t here (rw self here) back_a back_b done in
      rw (← id) (Saves-account_at sha512 codec (credited d.amount a) between (held t) second)

  -- Between two customers with different addresses, on a context that implements the store and on
  -- which no get or set of one address fails, an accepted payment that does not overflow the
  -- destination moves the amount, and the two checking balances have the same sum as before, if the
  -- two accounts read back from what they marshal to after it.
  pub send_payment_conserves :
      Serves ctx
      → (d : SendPaymentData) (a b : Account) (s t : S) → Holds s d.source_customer_id a
      → Holds s d.dest_customer_id b
      → a.customer_id ≡ d.source_customer_id
      → b.customer_id ≡ d.dest_customer_id
      → bytes_eq
          (account_address sha512 d.dest_customer_id)
          (account_address sha512 d.source_customer_id)
        ≡ false
      → a.checking_balance < u32_mod
      → b.checking_balance + d.amount < u32_mod
      → ReadsBack codec (debited d.amount a)
      → ReadsBack codec (credited d.amount b)
      → apply_send_payment sha512 codec ctx d s ≡ (ok tt, t)
      → Holds t d.source_customer_id (debited d.amount a)
        × Holds t d.dest_customer_id (credited d.amount b)
        × ((debited d.amount a).checking_balance + (credited d.amount b).checking_balance
            ≡ a.checking_balance + b.checking_balance)
  send_payment_conserves serves d a b s t at_a at_b id_a id_b apart range room back_a back_b done =
      let (covered, (between, first, second)) =
        payment_saves serves d a b s t at_a at_b back_a back_b done in
      let kept =
        Saves-elsewhere sha512 codec (credited d.amount b) between (held t)
          (account_address sha512 d.source_customer_id) second (rw id_b apart) in
      (
        ap (account_of codec) kept
            ∙ subst (λ i. account_at sha512 codec between i ≡ ok (some (debited d.amount a))) id_a
                (Saves-account_at sha512 codec (debited d.amount a) (held s) between first),
        subst (λ i. Holds t i (credited d.amount b)) id_b
            (Saves-account_at sha512 codec (credited d.amount b) between (held t) second),
        moved_sum a.checking_balance b.checking_balance d.amount covered range room,
      )
