-- ===== src/Processor/Register/Confirmed.antt =====
-- What a registration that succeeds has sent and received.
use sawtooth_sdk_go.Base.{
  ◌≡◌, refl, ℕ, Bytes, bytes_eq, List, [], ◌∷◌, ◌++◌, ◌==◌, ==_iff, Option, none, some, ◌⊎◌, inl,
  inr, Bool-cases, not, if◌then◌else◌, sum-cases,
}
use sawtooth_sdk_go.Processor.Errors.{Error, Outcome, ok, err, panic, ended-eq}
use sawtooth_sdk_go.Processor.Worker.{TransactionHandler}
use sawtooth_sdk_go.Processor.Register.{
  TpRegisterRequest, register_ok, register_unset, register_error, RegisterCodec, Ready,
  validator_ready, shutdown_ready, Registrar, status_outcome, reply_outcome, on_message, on_poll,
  on_sent, on_marshalled, register,
}
use sawtooth_sdk_go.Messaging.Message.{
  Message, Received, message_of, tp_register_request, tp_register_response,
}

abbrev pub request_for : {W : Type 0} → TransactionHandler W → Bytes → ℕ → TpRegisterRequest
request_for h v max_occupancy = record {
  family = h.family_name;
  version = v;
  namespaces = h.namespaces;
  max_occupancy = max_occupancy;
}

module _ {W : Type 0} (net : Registrar W) (codec : RegisterCodec) (max_occupancy : ℕ) where
  -- One version's registration was sent, and the next message was a response that it is registered;
  -- if that response has another correlation id, it is in the queue as well.
  pub record Confirmed (h : TransactionHandler W) (v : Bytes) (queue : List Message) (w : W)
      (queue' : List Message) (t : W) : Type 0 where
    pub bytes : Bytes
    pub corr_id : Bytes
    pub sent : W
    pub polled : W
    pub reply : Received
    pub marshals : codec.marshal_register (request_for h v max_occupancy) ≡ inr bytes
    pub sends : net.send_new_msg tp_register_request bytes w ≡ (ok corr_id, sent)
    pub polls : net.poll sent ≡ (ok validator_ready, polled)
    pub receives : net.recv_msg polled ≡ (reply, t)
    pub fine : reply.error ≡ none
    pub is_response : (message_of reply.msg).message_type ≡ tp_register_response
    pub is_ok : codec.unmarshal_register (message_of reply.msg).content ≡ inr register_ok
    pub queues :
        (if not (bytes_eq (message_of reply.msg).correlation_id corr_id)
          then queue ++ message_of reply.msg ∷ []
          else queue)
        ≡ queue'

  reply_outcome-ok :
      (m : Message)
      → reply_outcome net codec m ≡ ok tt
      → (m.message_type ≡ tp_register_response)
        × (codec.unmarshal_register m.content ≡ inr register_ok)
  unfolding reply_outcome status_outcome
  reply_outcome-ok m h = elim (Bool-cases (m.message_type == tp_register_response)) [
    | inr differ ↦ absurd (let k = rw differ at h in cc)
    | inl same ↦ elim (sum-cases (codec.unmarshal_register m.content)) [
      | inl (e, fails) ↦ absurd (let k = rw (same, fails) at h in cc)
      | inr (register_ok, decodes) ↦ ((==_iff m.message_type tp_register_response).0 same, decodes)
      | inr (register_unset, decodes) ↦ absurd (let k = rw (same, decodes) at h in cc)
      | inr (register_error, decodes) ↦ absurd (let k = rw (same, decodes) at h in cc)
    ]
  ]

  on_message-ok :
      (corr_id : Bytes) (e : Option Error) (m : Message) (queue queue' : List Message) (w t : W)
      → on_message net codec corr_id e m queue w ≡ (ok tt, (queue', t))
      → (e ≡ none)
        × (reply_outcome net codec m ≡ ok tt)
        × ((if not (bytes_eq m.correlation_id corr_id) then queue ++ m ∷ [] else queue) ≡ queue')
        × (w ≡ t)
  unfolding on_message
  on_message-ok corr_id (some x) m queue queue' w t h = absurd (cc)
  on_message-ok corr_id none m queue queue' w t h =
      (refl, (ended-eq h).0, (λ i. ((ended-eq h).1 i).0), (λ i. ((ended-eq h).1 i).1))

  polled-Confirmed :
      (h : TransactionHandler W) (v bytes corr_id : Bytes) (queue queue' : List Message) (w u t : W)
      (r : Outcome Ready × W)
      → codec.marshal_register (request_for h v max_occupancy) ≡ inr bytes
      → net.send_new_msg tp_register_request bytes w ≡ (ok corr_id, u)
      → net.poll u ≡ r
      → on_poll net codec corr_id r queue ≡ (ok tt, (queue', t))
      → Confirmed h v queue w queue' t
  unfolding on_poll
  polled-Confirmed h v bytes corr_id queue queue' w u t (err e, x) marshals sends polls k =
      absurd (cc)
  polled-Confirmed h v bytes corr_id queue queue' w u t (panic, x) marshals sends polls k =
      absurd (cc)
  polled-Confirmed h v bytes corr_id queue queue' w u t (ok shutdown_ready, x) marshals sends polls
        k =
      absurd (cc)
  polled-Confirmed h v bytes corr_id queue queue' w u t (ok validator_ready, x) marshals sends polls
        k =
      let (r, y) = net.recv_msg x in
      let (fine, replied, queues, ends) =
        on_message-ok corr_id r.error (message_of r.msg) queue queue' y t k in
      let (is_response, is_ok) = reply_outcome-ok (message_of r.msg) replied in
      record {
        bytes = bytes;
        corr_id = corr_id;
        sent = u;
        polled = x;
        reply = r;
        marshals = marshals;
        sends = sends;
        polls = polls;
        receives = λ i. (r, ends i);
        fine = fine;
        is_response = is_response;
        is_ok = is_ok;
        queues = queues;
      }

  sent-Confirmed :
      (h : TransactionHandler W) (v bytes : Bytes) (queue queue' : List Message) (w t : W)
      (r : Outcome Bytes × W)
      → codec.marshal_register (request_for h v max_occupancy) ≡ inr bytes
      → net.send_new_msg tp_register_request bytes w ≡ r
      → on_sent net codec r queue ≡ (ok tt, (queue', t))
      → Confirmed h v queue w queue' t
  unfolding on_sent
  sent-Confirmed h v bytes queue queue' w t (err e, u) marshals sends k = absurd (cc)
  sent-Confirmed h v bytes queue queue' w t (panic, u) marshals sends k = absurd (cc)
  sent-Confirmed h v bytes queue queue' w t (ok c, u) marshals sends k =
      polled-Confirmed h v bytes c queue queue' w u t (net.poll u) marshals sends refl k

  -- A registration that succeeds was sent and confirmed.
  pub register-Confirmed :
      (h : TransactionHandler W) (v : Bytes) (queue queue' : List Message) (w t : W)
      → register net codec h v max_occupancy queue w ≡ (ok tt, (queue', t))
      → Confirmed h v queue w queue' t
  unfolding register on_marshalled
  register-Confirmed h v queue queue' w t k =
      go (codec.marshal_register (request_for h v max_occupancy)) refl k
    where
      go :
          (m : Error ⊎ Bytes)
          → codec.marshal_register (request_for h v max_occupancy) ≡ m
          → on_marshalled net codec m queue w ≡ (ok tt, (queue', t))
          → Confirmed h v queue w queue' t
      go (inl e) marshals j = absurd (cc)
      go (inr bytes) marshals j =
          sent-Confirmed h v bytes queue queue' w t (net.send_new_msg tp_register_request bytes w)
            marshals refl j
