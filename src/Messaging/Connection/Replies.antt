-- ===== src/Messaging/Connection/Replies.antt =====
-- `RecvMsgWithId`: it returns the reply that was asked for, and stores what came before it.
use sawtooth_sdk_go.Base.{
  ◌≡◌, ap, ◌∙◌, Bytes, bytes_eq, bytes_eq_iff, Dict, lookup, insert, All, List, [], ◌∷◌, ◌++◌,
  Option, none, some, some-eq_some, inl, inr, false, Bool-cases, Option-cases, sum-cases,
}
use sawtooth_sdk_go.Processor.Errors.{Error}
use sawtooth_sdk_go.Messaging.Message.{Message, Received}
use sawtooth_sdk_go.Messaging.Connection.{
  MessageCodec, Event, StoredMsg, ZmqConnection, data_of, await, recv_msg_with_id,
}

-- An event that is a message from `id`.
abbrev pub Delivers : MessageCodec → Event → Bytes → Message → Option Error → Type 0
Delivers codec e id m x =
    (bytes : Bytes) × (data_of e ≡ inr (id, bytes)) × (codec.load bytes ≡ (m, x))

-- An event that is a message for somebody else.
abbrev pub IsOther : MessageCodec → Bytes → Event → Type 0
IsOther codec corr_id e =
    (id : Bytes) × (m : Message) × (x : Option Error) × Delivers codec e id m x
    × (bytes_eq m.correlation_id corr_id ≡ false)

-- Every stored message stands under its own correlation id.
abbrev pub IsKeyed : Dict StoredMsg → Type 0
IsKeyed stored = (k : Bytes) (s : StoredMsg) → lookup k stored ≡ some s → s.msg.correlation_id ≡ k

module _ (codec : MessageCodec) where
  -- the messages that are stored after some events for others
  abbrev pub store_all : (es : List Event) → Dict StoredMsg → Dict StoredMsg
  store_all [] stored = stored
  store_all (e ∷ es) stored = elim (data_of e) [
    | inl x ↦ store_all es stored
    | inr (id, bytes) ↦
        let m = (codec.load bytes).0 in
        store_all es (insert m.correlation_id (record { id = id; msg = m }) stored)
  ]

  await_other :
      (corr_id : Bytes) (e : Event) (es : List Event) (stored : Dict StoredMsg)
      (sent : List (List Bytes)) (o : IsOther codec corr_id e)
      → await codec corr_id (e ∷ es) stored sent
        ≡ await codec corr_id es
            (insert (o.1).correlation_id (record { id = o.0; msg = o.1 }) stored)
            sent
  unfolding await
  await_other corr_id e es stored sent (id, m, x, (bytes, is_data, loads), differ) =
      rw (is_data, await) (rw loads (rw differ))

  store_other :
      (corr_id : Bytes) (e : Event) (es : List Event) (stored : Dict StoredMsg)
      (o : IsOther codec corr_id e)
      → store_all (e ∷ es) stored
        ≡ store_all es (insert (o.1).correlation_id (record { id = o.0; msg = o.1 }) stored)
  store_other corr_id e es stored (id, m, x, (bytes, is_data, loads), differ) =
      rw (is_data, store_all) (rw loads)

  await_reply :
      (corr_id : Bytes) (before : List Event) (e : Event) (after : List Event)
      (stored : Dict StoredMsg) (sent : List (List Bytes)) (id : Bytes) (m : Message)
      (x : Option Error)
      → All (IsOther codec corr_id) before
      → Delivers codec e id m x
      → m.correlation_id ≡ corr_id
      → await codec corr_id (before ++ e ∷ after) stored sent ≡ (
        some (record { sender = id; msg = some m; error = x }),
        record { incoming = store_all before stored; events = after; sent = sent },
      )
  unfolding await
  await_reply corr_id [] e after stored sent id m x others (bytes, is_data, loads) mine =
      rw (is_data, await) (rw (loads, (bytes_eq_iff m.correlation_id corr_id).1 mine))
  await_reply corr_id (d ∷ before) e after stored sent id m x (o, others) reply mine =
      rw (store_other corr_id d before stored o) (
        await_other corr_id d (before ++ e ∷ after) stored sent o
        ∙ await_reply corr_id before e after
            (insert (o.1).correlation_id (record { id = o.0; msg = o.1 }) stored) sent id m x others
            reply mine)

  -- A reply that arrives behind messages for others is returned, with the error of its own loading;
  -- every message before it is stored under its correlation id, and what follows is not touched.
  pub recv_msg_with_id-reply :
      (corr_id : Bytes) (before : List Event) (e : Event) (after : List Event) (c : ZmqConnection)
      (id : Bytes) (m : Message) (x : Option Error)
      → lookup corr_id c.incoming ≡ none
      → c.events ≡ before ++ e ∷ after
      → All (IsOther codec corr_id) before
      → Delivers codec e id m x
      → m.correlation_id ≡ corr_id
      → recv_msg_with_id codec corr_id c ≡ (
        some (record { sender = id; msg = some m; error = x }),
        record { incoming = store_all before c.incoming; events = after; sent = c.sent },
      )
  unfolding recv_msg_with_id
  recv_msg_with_id-reply corr_id before e after c id m x fresh arrives others reply mine =
      rw (fresh, arrives)
        (await_reply corr_id before e after c.incoming c.sent id m x others reply mine)

  await-correlation_id :
      (corr_id : Bytes) (es : List Event) (stored : Dict StoredMsg) (sent : List (List Bytes))
      (r : Received) (m : Message) (c' : ZmqConnection)
      → await codec corr_id es stored sent ≡ (some r, c')
      → r.msg ≡ some m
      → m.correlation_id ≡ corr_id
  unfolding await
  await-correlation_id corr_id [] stored sent r m c' done found = absurd (cc)
  await-correlation_id corr_id (e ∷ es) stored sent r m c' done found =
      elim (sum-cases (data_of e)) [
        | inl (x, fails) ↦
            let ended : ◌≡◌ {A = Option Received}
                (some (record { sender = []; msg = none; error = some x })) (some r) =
              ap (λ (p : Option Received × ZmqConnection). p.0) (rw (fails, await) at done) in
            let nothing : none ≡ some m = ap Received.msg (some-eq_some ended) ∙ found in
            absurd (cc)
        | inr (d, is_data) ↦
            let l = (codec.load d.1).0 in
            let stored' = insert l.correlation_id (record { id = d.0; msg = l }) stored in
            let step = rw (is_data, await) at done in
            elim (Bool-cases (bytes_eq l.correlation_id corr_id)) [
              | inl mine ↦
                  let ended : ◌≡◌ {A = Option Received}
                      (some (record { sender = d.0; msg = some l; error = (codec.load d.1).1 }))
                      (some r) =
                    ap (λ (p : Option Received × ZmqConnection). p.0) (rw mine at step) in
                  let same : l ≡ m = some-eq_some (ap Received.msg (some-eq_some ended) ∙ found) in
                  rw (← same) ((bytes_eq_iff l.correlation_id corr_id).0 mine)
              | inr differ ↦
                  await-correlation_id corr_id es stored' sent r m c' (rw differ at step) found
            ]
      ]

  -- Whatever `RecvMsgWithId` returns carries the correlation id that was asked for, if every stored
  -- message stands under its own.
  pub recv_msg_with_id-correlation_id :
      (corr_id : Bytes) (c c' : ZmqConnection) (r : Received) (m : Message)
      → IsKeyed c.incoming
      → recv_msg_with_id codec corr_id c ≡ (some r, c')
      → r.msg ≡ some m
      → m.correlation_id ≡ corr_id
  unfolding recv_msg_with_id
  recv_msg_with_id-correlation_id corr_id c c' r m keyed done found =
      elim (Option-cases (lookup corr_id c.incoming)) [
        | inl fresh ↦
            await-correlation_id corr_id c.events c.incoming c.sent r m c' (rw fresh at done) found
        | inr (s, stored) ↦
            let ended : ◌≡◌ {A = Option Received}
                (some (record { sender = s.id; msg = some s.msg; error = none })) (some r) =
              ap (λ (p : Option Received × ZmqConnection). p.0) (rw stored at done) in
            let same : s.msg ≡ m = some-eq_some (ap Received.msg (some-eq_some ended) ∙ found) in
            rw (← same) (keyed corr_id s stored)
      ]
