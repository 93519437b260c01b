-- ===== src/Consensus/Rpc/Replies.antt =====
-- What an exchange of the service that succeeds has sent and received, and which correlation ids it
-- leaves under way.
use sawtooth_sdk_go.Base.{
  ◌≡◌, refl, ap, sym, ◌∙◌, ℕ, Bytes, bytes_eq, bytes_eq_iff, Dict, insert, erase, ◌==◌, ==_iff, ◌⊎◌,
  inl, inr, Bool-cases, sum-cases,
}
use sawtooth_sdk_go.Processor.Errors.{Error, Outcome, ok, err, panic, ended-eq, ok-injective}
use sawtooth_sdk_go.Messaging.Message.{Connection, Received, Message, message_of}
use sawtooth_sdk_go.Consensus.Rpc.{
  Service, rpc_unmarshalled, rpc_content, rpc_received, rpc_sent, service_rpc,
}

module _ {W A : Type 0} (conn : Connection W) (type_name : ℕ → Bytes) where
  -- A request was sent between two states of the service, and its reply was received.
  pub record Answered (rt t : ℕ) (unmarshal : Bytes → Error ⊎ A) (bytes : Bytes) (a : A)
      (s s' : Service W) : Type 0 where
    pub corr_id : Bytes
    pub between : W
    pub reply : Received
    pub sends : conn.send_new_msg rt bytes s.world ≡ (ok corr_id, between)
    pub receives : conn.recv_msg_with_id corr_id between ≡ (reply, s'.world)
    pub same_id : (message_of reply.msg).correlation_id ≡ corr_id
    pub same_type : (message_of reply.msg).message_type ≡ t
    pub decodes : unmarshal (message_of reply.msg).content ≡ inr a
    pub forgets : s'.corr_ids ≡ erase corr_id (insert corr_id tt s.corr_ids)

  rpc_content-ok :
      (t : ℕ) (unmarshal : Bytes → Error ⊎ A) (m : Message) {a : A}
      → rpc_content conn type_name t unmarshal m ≡ ok a
      → (m.message_type ≡ t) × (unmarshal m.content ≡ inr a)
  unfolding rpc_content rpc_unmarshalled
  rpc_content-ok t unmarshal m h = elim (Bool-cases (m.message_type == t)) [
    | inr differ ↦ absurd (let k = rw differ at h in cc)
    | inl same ↦ elim (sum-cases (unmarshal m.content)) [
      | inl (e, fails) ↦ absurd (let k = rw (same, fails) at h in cc)
      | inr (b, decodes) ↦
          let k = rw (same, decodes) at h in
          ((==_iff m.message_type t).0 same, decodes ∙ ap (λ x. inr x) (ok-injective k))
    ]
  ]

  rpc_received-ok :
      (t : ℕ) (unmarshal : Bytes → Error ⊎ A) (c : Bytes) (ids : Dict (Unit {0})) (r : Received)
      (w : W) {a : A} {s' : Service W}
      → rpc_received conn type_name t unmarshal c ids (r, w) ≡ (ok a, s')
      → ((message_of r.msg).correlation_id ≡ c)
        × ((message_of r.msg).message_type ≡ t)
        × (unmarshal (message_of r.msg).content ≡ inr a)
        × (◌≡◌ {A = Service W} (record { corr_ids = erase c ids; world = w }) s')
  unfolding rpc_received
  rpc_received-ok t unmarshal c ids r w h =
      let m = message_of r.msg in
      elim (Bool-cases (bytes_eq m.correlation_id c)) [
        | inr differ ↦ absurd (let k = rw differ at h in cc)
        | inl same ↦
            let k = rw same at h in
            let (typed, decodes) = rpc_content-ok t unmarshal m (ended-eq k).0 in
            ((bytes_eq_iff m.correlation_id c).0 same, typed, decodes, (ended-eq k).1)
      ]

  -- An exchange that succeeds was sent as the marshalled request, and its result is what the reply
  -- that carries its correlation id and has the response's type contains; its id is no longer under
  -- way.
  pub service_rpc-Answered :
      (rt t : ℕ) (marshalled : Error ⊎ Bytes) (unmarshal : Bytes → Error ⊎ A) (s s' : Service W)
      (a : A)
      → service_rpc conn type_name rt marshalled t unmarshal s ≡ (ok a, s')
      → (bytes : Bytes) × (marshalled ≡ inr bytes) × Answered rt t unmarshal bytes a s s'
  unfolding service_rpc rpc_sent
  service_rpc-Answered rt t (inl e) unmarshal s s' a h = absurd (cc)
  service_rpc-Answered rt t (inr bytes) unmarshal s s' a h =
      (bytes, refl, go (conn.send_new_msg rt bytes s.world) refl h)
    where
      go :
          (r : Outcome Bytes × W)
          → conn.send_new_msg rt bytes s.world ≡ r
          → rpc_sent conn type_name rt t unmarshal s.corr_ids r ≡ (ok a, s')
          → Answered rt t unmarshal bytes a s s'
      go (err x, u) e k = absurd (cc)
      go (panic, u) e k = absurd (cc)
      go (ok c, u) e k =
          let ids = insert c tt s.corr_ids in
          let (r, w) = conn.recv_msg_with_id c u in
          let (same_id, same_type, decodes, ends) = rpc_received-ok t unmarshal c ids r w k in
          record {
            corr_id = c;
            between = u;
            reply = r;
            sends = e;
            receives = λ i. (r, (ends i).world);
            same_id = same_id;
            same_type = same_type;
            decodes = decodes;
            forgets = ap Service.corr_ids (sym ends);
          }
