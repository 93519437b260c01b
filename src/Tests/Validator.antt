-- ===== src/Tests/Validator.antt =====
-- A validator that keeps its state in memory and answers the requests of a context.
use sawtooth_sdk_go.Base.{
  ◌≡◌, refl, ap, sym, ◌∙◌, ℕ, Bytes, Dict, insert, erase, length, take, drop, List, [], ◌∷◌, ◌++◌,
  ◌==◌, none, some, ◌⊎◌, inl, inr, if◌then◌else◌,
}
use sawtooth_sdk_go.Processor.Errors.{Error, other, ok}
use sawtooth_sdk_go.Processor.Store.{IsStore, data_at}
use sawtooth_sdk_go.Messaging.Message.{Connection, message_of}
use sawtooth_sdk_go.Processor.Context.{StateCodec, Status, status_ok, add_ok, as_store}
use sawtooth_sdk_go.Processor.Context.Replied.{Replied}
use sawtooth_sdk_go.Processor.Context.Stored.{Honours, as_store-IsStore}
use sawtooth_sdk_go.Processor.Context.Atomic.{Atomic, as_store-FailsCleanly}
use sawtooth_sdk_go.Processor.Store.Clean.{FailsCleanly}
use sawtooth_sdk_go.Tests.Memory.{held_in, data_at-insert, data_at-erase}

-- an address and its data, behind the address's length
abbrev pub pack : Bytes → Bytes → Bytes
pack a d = length a ∷ (a ++ d)

abbrev unpack : Bytes → Bytes × Bytes
unpack [] = ([], [])
unpack (n ∷ bytes) = (take n bytes, drop n bytes)

unpack-pack : (a d : Bytes) → unpack (pack a d) ≡ (a, d)
unpack-pack [] d = refl
unpack-pack (x ∷ a) d = λ i. (x ∷ (unpack-pack a d i).0, (unpack-pack a d i).1)

abbrev one_address : List Bytes → Error ⊎ Bytes
one_address (a ∷ []) = inr a
one_address addresses = inl (other [])

abbrev one_pair : Dict Bytes → Error ⊎ Bytes
one_pair ((a, d) ∷ []) = inr (pack a d)
one_pair pairs = inl (other [])

abbrev pub packed : StateCodec
packed = record {
  marshal_get = λ c addresses. one_address addresses;
  marshal_set = λ c pairs. one_pair pairs;
  marshal_delete = λ c addresses. one_address addresses;
  marshal_receipt = λ c bytes. inl (other []);
  marshal_event = λ c t attributes bytes. inl (other []);
  unmarshal_get = λ bytes. inr (status_ok, unpack bytes ∷ []);
  unmarshal_set = λ bytes. inr (status_ok, bytes ∷ []);
  unmarshal_delete = λ bytes. inr (status_ok, bytes ∷ []);
  unmarshal_receipt = λ bytes. inr add_ok;
  unmarshal_event = λ bytes. inr add_ok;
  type_name = λ t. [];
}

-- the state, and the reply to the last request
pub record Validator : Type 0 where
  pub entries : Dict Bytes
  pub kind : ℕ
  pub content : Bytes

abbrev pub served : ℕ → Bytes → Dict Bytes → Validator
served t bytes m =
    if t == 7
    then record { entries = m; kind = 8; content = pack bytes (data_at bytes m) }
    else if t == 9
    then record { entries = insert (unpack bytes).0 (unpack bytes).1 m; kind = 10; content = bytes }
    else record { entries = erase bytes m; kind = 12; content = bytes }

abbrev pub validator : Connection Validator
validator = record {
  send_new_msg = λ t bytes w. (ok [], served t bytes w.entries);
  send_msg = λ t bytes corr_id w. (ok tt, w);
  recv_msg_with_id = λ corr_id w. (
    record {
      sender = [];
      msg = some (record { message_type = w.kind; correlation_id = corr_id; content = w.content });
      error = none;
    },
    w,
  );
}

abbrev pub held_by : Validator → Bytes → Bytes
held_by w = held_in w.entries

served-Replied :
    {A : Type 0} (request expected : ℕ) (bytes : Bytes) (decode : Bytes → Error ⊎ (Status × A))
    (w t : Validator) (a : A)
    → Replied validator packed request expected (inr bytes) decode w t a
    → (t ≡ served request bytes w.entries)
      × (status : Status) × (decode (served request bytes w.entries).content ≡ inr (status, a))
served-Replied request expected bytes decode w t a replied =
    let ex = replied.exchanges in
    let same : bytes ≡ replied.bytes = cc in
    let sent : served request replied.bytes w.entries ≡ ex.between = λ i. (ex.sends i).1 in
    let received : ex.between ≡ t = λ i. (ex.receives i).1 in
    let content : ex.between.content ≡ replied.content =
      (λ i. (message_of (ex.receives i).0.msg).content) ∙ ex.same_content in
    (
      rw same (sym (sent ∙ received)),
      replied.status,
      rw same (ap decode (ap Validator.content sent ∙ content) ∙ replied.decodes),
    )

decoded_same :
    {A : Type 0} {s t : Status} {a b : A}
    → ◌≡◌ {A = Error ⊎ (Status × A)} (inr (s, a)) (inr (t, b))
    → a ≡ b
decoded_same e = cc

pub validator-Honours : (c : Bytes) → Honours validator packed c held_by
validator-Honours c = record {
  gets = λ a w t entries replied.
      let (same, status, decoded) = served-Replied 7 8 a packed.unmarshal_get w t entries replied in
      (
        sym (decoded_same decoded) ∙ ap (λ p. p ∷ []) (unpack-pack a (data_at a w.entries)),
        λ b. rw same refl,
      );
  sets = λ a d w t done replied b.
      let (same, status, decoded) =
        served-Replied 9 10 (pack a d) packed.unmarshal_set w t done replied in
      rw same (
        ap (λ p. data_at b (insert (p.0) (p.1) w.entries)) (unpack-pack a d)
        ∙ data_at-insert a b d w.entries);
  deletes = λ a w t done replied b.
      let (same, status, decoded) =
        served-Replied 11 12 a packed.unmarshal_delete w t done replied in
      rw same (data_at-erase a b w.entries);
}

as_store-IsStore_example : IsStore (as_store validator packed []) held_by
as_store-IsStore_example = as_store-IsStore validator packed [] held_by (validator-Honours [])

replied :
    {A : Type 0} (request : ℕ) (bytes : Bytes) (decode : Bytes → Error ⊎ (Status × A))
    (w : Validator) (a : A)
    → decode (served request bytes w.entries).content ≡ inr (status_ok, a)
    → Replied validator packed request
        (served request bytes w.entries).kind
        (inr bytes)
        decode
        w
        (served request bytes w.entries)
        a
replied request bytes decode w a decodes = record {
  bytes = bytes;
  content = (served request bytes w.entries).content;
  status = status_ok;
  marshals = refl;
  exchanges = record {
    corr_id = [];
    between = served request bytes w.entries;
    reply = (validator.recv_msg_with_id [] (served request bytes w.entries)).0;
    sends = refl;
    receives = refl;
    same_id = refl;
    same_type = refl;
    same_content = refl;
  };
  decodes = decodes;
  authorized = λ e. absurd (cc);
}

pub validator-Atomic : (c : Bytes) → Atomic validator packed c held_by
validator-Atomic c = record {
  gets_keep = λ addresses bytes w is b. refl;
  sets_or_keeps =
      λ pairs bytes w is. inr (bytes ∷ [], rw is (replied 9 bytes packed.unmarshal_set w _ refl));
  deletes_or_keeps = λ addresses bytes w is.
      inr (bytes ∷ [], rw is (replied 11 bytes packed.unmarshal_delete w _ refl));
  lists = λ a d w t done r.
      let (same, status, decoded) =
        served-Replied 9 10 (pack a d) packed.unmarshal_set w t done r in
      λ empty. absurd (let listed = decoded_same decoded in cc);
}

as_store-FailsCleanly_example : FailsCleanly (as_store validator packed []) held_by
as_store-FailsCleanly_example =
    as_store-FailsCleanly validator packed [] held_by (validator-Atomic [])
