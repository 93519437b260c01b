-- ===== src/Processor/Router/Routing.antt =====
-- Where the router sends a reply, whatever it handles in between.
use sawtooth_sdk_go.Base.{
  ◌≡◌, refl, ◌∙◌, ℕ, Bytes, bytes_eq, bytes_eq_refl, lookup, erase, lookup-insert, lookup-erase,
  length, ltb, List, [], ◌∷◌, ◌==◌, Option, none, some, ◌⊎◌, inl, inr, false, Bool-cases,
}
use sawtooth_sdk_go.Processor.Errors.{Error}
use sawtooth_sdk_go.Processor.Worker.{ProcessCodec}
use sawtooth_sdk_go.Messaging.Message.{
  DataConnection, Message, tp_process_request, tp_process_response, ping_request,
}
use sawtooth_sdk_go.Messaging.Connection.{MessageCodec}
use sawtooth_sdk_go.Processor.Router.{
  Router, queue_request, answer_ping, handed_over, to_worker, validator_msg, validator_data,
  receive_validator, remember, worker_msg, worker_data, receive_workers,
}

-- the correlation id of what was received, if anything was
abbrev pub id_of : MessageCodec → Error ⊎ (Bytes × Bytes) → Bytes
id_of codec (inl e) = []
id_of codec (inr (sender, bytes)) = ((codec.load bytes).0).correlation_id

module _ {W : Type 0} (codec : MessageCodec) (processes : ProcessCodec) (ping : Error ⊎ Bytes)
    (max_queue : ℕ) (validator workers : DataConnection W) where
  -- What the router may go through without a message that carries the correlation id `c`: messages
  -- from either side, a request taken by a worker, and anything that happens to the sockets.
  pub data Others (c : Bytes) : Router W → Router W → Type 0 where
    done : {r : Router W} → Others c r r
    from_validator :
        {r t : Router W}
        → bytes_eq (id_of codec (validator.recv_data r.world).0) c ≡ false
        → Others c (receive_validator codec processes ping max_queue validator workers r) t
        → Others c r t
    from_worker :
        {r t : Router W}
        → bytes_eq (id_of codec (workers.recv_data r.world).0) c ≡ false
        → Others c (receive_workers codec processes ping max_queue validator workers r) t
        → Others c r t
    takes :
        {r t : Router W} {m : Message} {ms : List Message}
        → r.queue ≡ m ∷ ms
        → Others c (record r { queue = ms }) t
        → Others c r t
    elapses : {r t : Router W} (w : W) → Others c (record r { world = w }) t → Others c r t

  validator_msg_keeps :
      (c bytes : Bytes) (l : Message × Option Error) (r : Router W)
      → bytes_eq (l.0).correlation_id c ≡ false
      → lookup c (validator_msg codec processes ping max_queue validator workers bytes l r).ids
        ≡ lookup c r.ids
  unfolding validator_msg queue_request answer_ping to_worker handed_over
  validator_msg_keeps c bytes (m, some e) r differ = refl
  validator_msg_keeps c bytes (m, none) r differ =
      elim (Bool-cases (m.message_type == tp_process_request)) [
        | inl is ↦ elim (Bool-cases (ltb (length r.queue) max_queue)) [
          | inl free ↦ rw (is, free) refl
          | inr full ↦ rw (is, full) refl
        ]
        | inr not_request ↦ elim (Bool-cases (m.message_type == ping_request)) [
          | inl is ↦ rw (not_request, is) refl
          | inr not_ping ↦ rw (not_request, not_ping) (kept (lookup m.correlation_id r.ids))
        ]
      ]
    where
      over :
          (s : Option Error × W)
          → lookup c (handed_over codec processes ping max_queue validator workers m s r).ids
            ≡ lookup c r.ids
      over (some e, w) = refl
      over (none, w) = rw (lookup-erase, differ) refl

      kept :
          (o : Option Bytes)
          → lookup c (to_worker codec processes ping max_queue validator workers o m bytes r).ids
            ≡ lookup c r.ids
      kept none = refl
      kept (some i) = elim (Bool-cases (bytes_eq m.correlation_id [])) [
        | inl empty ↦ rw empty refl
        | inr more ↦ rw more (over (workers.send_data i bytes r.world))
      ]

  receive_validator_keeps :
      (c : Bytes) (r : Router W)
      → bytes_eq (id_of codec (validator.recv_data r.world).0) c ≡ false
      → lookup c (receive_validator codec processes ping max_queue validator workers r).ids
        ≡ lookup c r.ids
  unfolding receive_validator validator_data
  receive_validator_keeps c r differ =
      kept (validator.recv_data r.world).0 (validator.recv_data r.world).1 differ
    where
      kept :
          (d : Error ⊎ (Bytes × Bytes)) (w : W)
          → bytes_eq (id_of codec d) c ≡ false
          → lookup c
              (validator_data codec processes ping max_queue validator workers d
                (record r { world = w })).ids
            ≡ lookup c r.ids
      kept (inl e) w differ = refl
      kept (inr (sender, bytes)) w differ =
          validator_msg_keeps c bytes (codec.load bytes) (record r { world = w }) differ

  receive_workers_keeps :
      (c : Bytes) (r : Router W)
      → bytes_eq (id_of codec (workers.recv_data r.world).0) c ≡ false
      → lookup c (receive_workers codec processes ping max_queue validator workers r).ids
        ≡ lookup c r.ids
  unfolding receive_workers worker_data worker_msg remember
  receive_workers_keeps c r differ =
      kept (workers.recv_data r.world).0 (workers.recv_data r.world).1 differ
    where
      message :
          (worker_id bytes : Bytes) (l : Message × Option Error) (w : W)
          → bytes_eq (l.0).correlation_id c ≡ false
          → lookup c
              (worker_msg codec processes ping max_queue validator workers worker_id bytes l
                (record r { world = w })).ids
            ≡ lookup c r.ids
      message worker_id bytes (m, some e) w differ = refl
      message worker_id bytes (m, none) w differ =
          elim (Bool-cases (m.message_type == tp_process_response)) [
            | inl is ↦ rw is refl
            | inr call ↦ rw call (rw (lookup-insert, differ) refl)
          ]

      kept :
          (d : Error ⊎ (Bytes × Bytes)) (w : W)
          → bytes_eq (id_of codec d) c ≡ false
          → lookup c
              (worker_data codec processes ping max_queue validator workers d
                (record r { world = w })).ids
            ≡ lookup c r.ids
      kept (inl e) w differ = refl
      kept (inr (worker_id, bytes)) w differ = message worker_id bytes (codec.load bytes) w differ

  -- While no message carries a correlation id, the worker that waits for it stays the same.
  ids_kept : {c : Bytes} {r t : Router W} → Others c r t → lookup c t.ids ≡ lookup c r.ids
  ids_kept done = refl
  ids_kept {c} (from_validator {r} differ o) = ids_kept o ∙ receive_validator_keeps c r differ
  ids_kept {c} (from_worker {r} differ o) = ids_kept o ∙ receive_workers_keeps c r differ
  ids_kept (takes e o) = ids_kept o
  ids_kept (elapses w o) = ids_kept o

  remembers :
      (r : Router W) (worker_id bytes : Bytes) (m : Message) (w : W)
      → workers.recv_data r.world ≡ (inr (worker_id, bytes), w)
      → codec.load bytes ≡ (m, none)
      → (m.message_type == tp_process_response) ≡ false
      → lookup m.correlation_id
          (receive_workers codec processes ping max_queue validator workers r).ids
        ≡ some worker_id
  unfolding receive_workers worker_data worker_msg remember
  remembers r worker_id bytes m w arrives loads call =
      rw arrives (rw loads (rw call (rw (lookup-insert, bytes_eq_refl) refl)))

  -- A worker's call of its context, a message with a correlation id that is not empty and not a
  -- response to a request, gets its own reply: whatever the router handles in between, as long as
  -- no message carries that correlation id, the first message from the validator that does, and is
  -- neither a request nor a ping, is passed as it is to that worker, and if the send works the
  -- correlation id is forgotten and no other part of the router's state changes.
  pub reply_reaches_its_worker :
      (r t : Router W) (worker_id bytes sender reply : Bytes) (m a : Message) (w u v : W)
      → workers.recv_data r.world ≡ (inr (worker_id, bytes), w)
      → codec.load bytes ≡ (m, none)
      → (m.message_type == tp_process_response) ≡ false
      → bytes_eq m.correlation_id [] ≡ false
      → Others m.correlation_id
          (receive_workers codec processes ping max_queue validator workers r)
          t
      → validator.recv_data t.world ≡ (inr (sender, reply), u)
      → codec.load reply ≡ (a, none)
      → a.correlation_id ≡ m.correlation_id
      → (a.message_type == tp_process_request) ≡ false
      → (a.message_type == ping_request) ≡ false
      → workers.send_data worker_id reply u ≡ (none, v)
      → receive_validator codec processes ping max_queue validator workers t
        ≡ record t { ids = erase m.correlation_id t.ids; world = v }
  unfolding receive_validator validator_data validator_msg to_worker handed_over
  reply_reaches_its_worker r t worker_id bytes sender reply m a w u v arrives loads call named
        between answered answer_loads same not_request not_ping sends =
      let waits : lookup m.correlation_id t.ids ≡ some worker_id =
        ids_kept between ∙ remembers r worker_id bytes m w arrives loads call in
      rw answered (
        rw answer_loads
          (rw (not_request, not_ping) (rw same (rw waits (rw named (rw sends refl))))))
