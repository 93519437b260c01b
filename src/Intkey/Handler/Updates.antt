-- ===== src/Intkey/Handler/Updates.antt =====
-- What an update of the intkey handler does to the values that the validator holds.
use sawtooth_sdk_go.Base.{
  ◌≡◌, refl, sym, ap, ◌∙◌, Bytes, bytes_eq, bytes_eq_iff, bytes_eq_refl, bytes_ne, bytes_eq_of_ne,
  length, drop, hexdigest, length-hexdigest, Dict, lookup, insert, lookup-insert, Option, none,
  some, [], ◌∷◌, ◌++◌, ◌⊎◌, inl, inr, ℤ, Bool-cases, true, false, if◌then◌else◌,
}
use sawtooth_sdk_go.Processor.Errors.{
  Error, Outcome, ok, err, panic, Call, lift, ◌>>=◌, >>=-eq-ok, lift-ok, ended-eq, ok-injective,
}
use sawtooth_sdk_go.Processor.Store.{Context, IsStore, data_at}
use sawtooth_sdk_go.Intkey.Value.{IntkeyPayload, new_value}
use sawtooth_sdk_go.Intkey.Handler.{
  Cbor, last_64, collision_map, stored_in, put_value, encoded, written, update, decode_cbor,
}

-- What the family relies on: the data of a map is not empty, and is read back as a map of the same
-- entries, in any order.
pub record IsCbor (cbor : Cbor) : Type 0 where
  pub dump_reads :
      (m : Dict ℤ) (d : Bytes)
      → cbor.dump_map m ≡ inr d
      → (r : Dict ℤ) × (cbor.load_map d ≡ (some r, ok tt)) × ((k : Bytes) → lookup k r ≡ lookup k m)
  pub dump_some : (m : Dict ℤ) (d : Bytes) → cbor.dump_map m ≡ inr d → bytes_eq d [] ≡ false

-- the value of a name in what was decoded at its address
value_of : Bytes → Outcome (Option (Dict ℤ)) → Option ℤ
value_of name (ok m) = stored_in name m
value_of name (err e) = none
value_of name panic = none

pub last_64-hexdigest :
    (sha512 : Bytes → Bytes) (s : Bytes)
    → length (sha512 s) ≡ 64
    → last_64 (hexdigest sha512 s) ≡ ok (drop 64 (hexdigest sha512 s))
unfolding last_64
last_64-hexdigest sha512 s long =
    let digits : length (hexdigest sha512 s) ≡ 128 = length-hexdigest sha512 s ∙ rw long refl in
    rw digits refl

module _ (sha512 : Bytes → Bytes) (cbor : Cbor) (namespace : Bytes) where
  -- the address of a name
  abbrev pub address_of : Bytes → Bytes
  address_of name = namespace ++ drop 64 (hexdigest sha512 name)

  -- The value of a name in the data at each address.
  unfoldable pub value_at : (Bytes → Bytes) → Bytes → Option ℤ
  unfolding value_of
  value_at data_of name = value_of name (collision_map cbor (data_of (address_of name)))

  -- One name gets a value; every other keeps its own, also one at the same address.
  abbrev pub Puts : Bytes → ℤ → (Bytes → Bytes) → (Bytes → Bytes) → Type 0
  Puts name v before after =
      (k : Bytes) → value_at after k ≡ (if bytes_eq name k then some v else value_at before k)

  -- The data at a name's address encodes a map in which the name has a value.
  abbrev pub Encoded : Bytes → ℤ → (Bytes → Bytes) → Type 0
  Encoded name v data_of =
      (m : Dict ℤ) × (cbor.dump_map m ≡ inr (data_of (address_of name))) × (lookup name m ≡ some v)

  -- the data of the map in which a name has got its new value
  Encodes : IntkeyPayload → Option ℤ → Option (Dict ℤ) → ℤ → Bytes → Type 0
  Encodes p stored m v d =
      (new_value p.verb p.value stored ≡ ok v)
      × ((m' : Dict ℤ) × (put_value p.name v m ≡ ok m') × (cbor.dump_map m' ≡ inr d))

  encoded-ok : (r : Error ⊎ Bytes) {d : Bytes} → encoded r ≡ ok d → r ≡ inr d
  unfolding encoded
  encoded-ok (inl e) h = absurd (cc)
  encoded-ok (inr d) h = cc

  -- Data that holds the new map puts the value.
  Encodes-value_of :
      IsCbor cbor
      → (p : IntkeyPayload) (m : Option (Dict ℤ)) (v : ℤ) (d k : Bytes)
      → Encodes p (stored_in p.name m) m v d
      → value_of k (collision_map cbor d) ≡ (if bytes_eq p.name k then some v else stored_in k m)
  unfolding Encodes put_value value_of stored_in collision_map decode_cbor
  Encodes-value_of codes p none v d k e = absurd (cc)
  Encodes-value_of codes p (some m) v d k (new, (m', puts, dumps)) =
      let (r, loads, same) = codes.dump_reads m' d dumps in
      let filled = codes.dump_some m' d dumps in
      let inserted : m' ≡ insert p.name v m = sym (ok-injective puts) in
      rw (filled, loads) (same k ∙ rw inserted (lookup-insert p.name k v m))

  Encodes-Encoded :
      (p : IntkeyPayload) (stored : Option ℤ) (m : Option (Dict ℤ)) (v : ℤ) (d : Bytes)
      (data_of : Bytes → Bytes)
      → Encodes p stored m v d
      → data_of (address_of p.name) ≡ d
      → Encoded p.name v data_of
  unfolding Encodes put_value
  Encodes-Encoded p stored none v d data_of e now = absurd (cc)
  Encodes-Encoded p stored (some m) v d data_of (new, (m', puts, dumps)) now =
      let found : lookup p.name m' ≡ some v =
        rw (← ok-injective puts) (lookup-insert p.name p.name v m ∙ rw bytes_eq_refl refl) in
      (m', dumps ∙ ap inr (sym now), found)

  module _ {S : Type 0} (ctx : Context S) where
    abbrev pub put_at : Bytes → Bytes → Call S (Unit {0})
    put_at a d = ctx.set_state ((a, d) ∷ []) >>= λ addresses. lift (written addresses)

    abbrev pub encode_at : Bytes → Dict ℤ → Call S (Unit {0})
    encode_at a m = lift (encoded (cbor.dump_map m)) >>= put_at a

    abbrev pub insert_at : Bytes → Bytes → Option (Dict ℤ) → ℤ → Call S (Unit {0})
    insert_at a name m v = lift (put_value name v m) >>= encode_at a

    abbrev pub change_at : Bytes → IntkeyPayload → Option (Dict ℤ) → Call S (Unit {0})
    change_at a p m = lift (new_value p.verb p.value (stored_in p.name m)) >>= insert_at a p.name m

    abbrev pub update_at : Bytes → IntkeyPayload → Dict Bytes → Call S (Unit {0})
    update_at a p results = lift (collision_map cbor (data_at a results)) >>= change_at a p

    -- What an update did that succeeded behind the read.
    update_at-ok :
        (a : Bytes) (p : IntkeyPayload) (results : Dict Bytes) (s : S) {t : S}
        → update_at a p results s ≡ (ok tt, t)
        → (m : Option (Dict ℤ)) × (v : ℤ) × (d : Bytes) × (collision_map cbor (data_at a results)
            ≡ ok m)
          × Encodes p (stored_in p.name m) m v d
          × (put_at a d s ≡ (ok tt, t))
    unfolding Encodes
    update_at-ok a p results s done =
        let (m, decoded, changes) = lift-ok _ (change_at a p) s done in
        let (v, new, inserts) = lift-ok _ (insert_at a p.name m) s changes in
        let (m', put, encodes) = lift-ok _ (encode_at a) s inserts in
        let (d, dumped, puts) = lift-ok _ (put_at a) s encodes in
        (m, v, d, decoded, (new, (m', put, encoded-ok _ dumped)), puts)

    module _ (held : S → Bytes → Bytes) (store : IsStore ctx held) where
      put_at-held :
          (a d b : Bytes) (s : S) {t : S}
          → put_at a d s ≡ (ok tt, t)
          → held t b ≡ (if bytes_eq a b then d else held s b)
      put_at-held a d b s done =
          let (xs, w, set, ends) =
            >>=-eq-ok (ctx.set_state ((a, d) ∷ [])) (λ xs. lift (written xs)) s done in
          rw (← (ended-eq ends).1) (store.set_writes a b d s set)

      Encodes-Puts :
          IsCbor cbor
          → (p : IntkeyPayload) (s u t : S) (m : Option (Dict ℤ)) (v : ℤ) (d : Bytes)
          → ((b : Bytes) → held u b ≡ held s b)
          → collision_map cbor (held s (address_of p.name)) ≡ ok m
          → Encodes p (stored_in p.name m) m v d
          → put_at (address_of p.name) d u ≡ (ok tt, t)
          → (new_value p.verb p.value (value_at (held s) p.name) ≡ ok v)
            × Puts p.name v (held s) (held t)
      unfolding Encodes value_at value_of
      Encodes-Puts codes p s u t m v d same before e puts =
          (rw before e.0, λ k. at k (Bool-cases (bytes_eq (address_of p.name) (address_of k))))
        where
          at :
              (k : Bytes)
              → (bytes_eq (address_of p.name) (address_of k) ≡ true)
                ⊎ (bytes_eq (address_of p.name) (address_of k) ≡ false)
              → value_at (held t) k ≡ (if bytes_eq p.name k then some v else value_at (held s) k)
          at k (inl one) =
              let meet = (bytes_eq_iff (address_of p.name) (address_of k)).0 one in
              let now : held t (address_of k) ≡ d =
                put_at-held (address_of p.name) d (address_of k) u puts ∙ rw one refl in
              let was : collision_map cbor (held s (address_of k)) ≡ ok m =
                ap (λ b. collision_map cbor (held s b)) (sym meet) ∙ before in
              rw (now, was) (Encodes-value_of codes p m v d k e)
          at k (inr two) =
              let now : held t (address_of k) ≡ held s (address_of k) =
                put_at-held (address_of p.name) d (address_of k) u puts ∙ rw two (same _) in
              let apart : bytes_eq p.name k ≡ false =
                bytes_eq_of_ne p.name k
                  (λ e. bytes_ne (address_of p.name) (address_of k) two (ap address_of e)) in
              rw (now, apart)

      pub update-Puts :
          IsCbor cbor
          → (p : IntkeyPayload) (s t : S) → length (sha512 p.name) ≡ 64
          → update sha512 cbor ctx namespace p s ≡ (ok tt, t)
          → (v : ℤ) × (new_value p.verb p.value (value_at (held s) p.name) ≡ ok v)
            × Puts p.name v (held s) (held t)
            × Encoded p.name v (held t)
      unfolding update
      update-Puts codes p s t long done =
          let a = address_of p.name in
          let found = rw (last_64-hexdigest sha512 p.name long) at done in
          let (results, u, got, rest) =
            >>=-eq-ok (ctx.get_state (a ∷ [])) (update_at a p) s found in
          let (m, v, d, decoded, e, puts) = update_at-ok a p results u rest in
          let before : collision_map cbor (held s a) ≡ ok m =
            ap (collision_map cbor) (sym (store.get_reads a s got)) ∙ decoded in
          let (new, all) =
            Encodes-Puts codes p s u t m v d (λ b. store.get_keeps a b s got) before e puts in
          let now : held t a ≡ d = put_at-held a d a u puts ∙ rw bytes_eq_refl refl in
          (v, new, all, Encodes-Encoded p (stored_in p.name m) m v d (held t) e now)
