-- ===== src/Processor/Context/Replies.antt =====
-- What a call of the context that succeeds has exchanged with the validator.
use sawtooth_sdk_go.Base.{
  ◌≡◌, ◌≢◌, refl, ap, sym, ◌∙◌, ℕ, Bytes, text, bytes_eq_iff, Dict, List, [], ◌++◌, ◌⊎◌, inl, inr,
  arith,
}
use sawtooth_sdk_go.Processor.Errors.{
  Error, Outcome, ok, err, panic, Call, ended-eq, ok-injective, lift, ◌>>=◌, >>=-eq-ok,
}
use sawtooth_sdk_go.Messaging.Message.{
  Connection, Received, Message, message_of, tp_state_get_request, tp_state_get_response,
}
use sawtooth_sdk_go.Processor.Context.{
  StateCodec, check_reply, receive, sent, exchange, Status, status_ok, status_unset,
  authorization_error, state_reply, get_state, collect, show_list,
}

module _ {W : Type 0} (conn : Connection W) (codec : StateCodec) where
  -- A request was sent, and its reply has the expected type and carries its correlation id.
  pub record Exchanged (request expected : ℕ) (bytes content : Bytes) (w t : W) : Type 0 where
    pub corr_id : Bytes
    pub between : W
    pub reply : Received
    pub sends : conn.send_new_msg request bytes w ≡ (ok corr_id, between)
    pub receives : conn.recv_msg_with_id corr_id between ≡ (reply, t)
    pub same_id : (message_of reply.msg).correlation_id ≡ corr_id
    pub same_type : (message_of reply.msg).message_type ≡ expected
    pub same_content : (message_of reply.msg).content ≡ content

  check_reply-ok :
      (expected : ℕ) (e_text corr_id : Bytes) (m : Message) {content : Bytes}
      → check_reply conn codec expected e_text corr_id m ≡ ok content
      → (m.correlation_id ≡ corr_id) × (m.message_type ≡ expected) × (m.content ≡ content)
  unfolding check_reply
  check_reply-ok expected e_text corr_id m h = ground (arith, bytes_eq_iff m.correlation_id corr_id)

  sent-Exchanged :
      (request expected : ℕ) (s_text e_text bytes : Bytes) (w t : W) {content : Bytes}
      → sent conn codec expected s_text e_text (conn.send_new_msg request bytes w) ≡ (ok content, t)
      → Exchanged request expected bytes content w t
  unfolding sent receive
  sent-Exchanged request expected s_text e_text bytes w t {content} h =
      go (conn.send_new_msg request bytes w) refl h
    where
      go :
          (r : Outcome Bytes × W)
          → conn.send_new_msg request bytes w ≡ r
          → sent conn codec expected s_text e_text r ≡ (ok content, t)
          → Exchanged request expected bytes content w t
      go (ok c, u) e k =
          let r = conn.recv_msg_with_id c u in
          let (same_id, same_type, same_content) =
            check_reply-ok expected e_text c (message_of (r.0).msg) (ended-eq k).0 in
          record {
            corr_id = c;
            between = u;
            reply = r.0;
            sends = e;
            receives = λ i. (r.0, (ended-eq k).1 i);
            same_id = same_id;
            same_type = same_type;
            same_content = same_content;
          }
      go (err x, u) e k = absurd (cc)
      go (panic, u) e k = absurd (cc)

  pub exchange-Exchanged :
      (request expected : ℕ) (m_text s_text e_text : Bytes) (marshalled : Error ⊎ Bytes) (w t : W)
      {content : Bytes}
      → exchange conn codec request expected m_text s_text e_text marshalled w ≡ (ok content, t)
      → (bytes : Bytes) × (marshalled ≡ inr bytes) × Exchanged request expected bytes content w t
  unfolding exchange
  exchange-Exchanged request expected m_text s_text e_text (inl e) w t h = absurd (cc)
  exchange-Exchanged request expected m_text s_text e_text (inr bytes) w t h =
      (bytes, refl, sent-Exchanged request expected s_text e_text bytes w t h)

  pub state_reply-ok :
      {A : Type 0} (u_text a_text : Bytes) (decoded : Error ⊎ (Status × A)) {a : A}
      → state_reply conn codec u_text a_text decoded ≡ ok a
      → (status : Status) × (decoded ≡ inr (status, a)) × (status ≢ authorization_error)
  unfolding state_reply
  state_reply-ok u_text a_text (inl e) h = absurd (cc)
  state_reply-ok u_text a_text (inr (authorization_error, a)) h = absurd (cc)
  state_reply-ok u_text a_text (inr (status_ok, a)) h =
      (status_ok, ap (λ x. inr (status_ok, x)) (ok-injective h), λ e. absurd (cc))
  state_reply-ok u_text a_text (inr (status_unset, a)) h =
      (status_unset, ap (λ x. inr (status_unset, x)) (ok-injective h), λ e. absurd (cc))

  -- `GetState` returns only what the validator's own reply to this very request contains: if it
  -- succeeds, a request for these addresses in this context was marshalled and sent, the reply has
  -- the type of a response to it and carries its correlation id, its status is not an
  -- authorization error, and the result is the entries of the reply that have data.
  pub get_state-ok :
      (context_id : Bytes) (addresses : List Bytes) (w t : W) (results : Dict Bytes)
      → get_state conn codec context_id addresses w ≡ (ok results, t)
      → (bytes : Bytes) × (content : Bytes) × (status : Status) × (entries : Dict Bytes)
        × (codec.marshal_get context_id addresses ≡ inr bytes)
        × Exchanged tp_state_get_request tp_state_get_response bytes content w t
        × (codec.unmarshal_get content ≡ inr (status, entries))
        × (status ≢ authorization_error)
        × (results ≡ collect entries [])
  unfolding get_state
  get_state-ok context_id addresses w t results h =
      let m_text = text "Failed to marshal TpStateGetRequest: " in
      let s_text = text "Failed to send TpStateGetRequest: " in
      let e_text = text "Expected TpStateGetResponse but got " in
      let u_text = text "Failed to unmarshal TpStateGetResponse: " in
      let a_text = text "Tried to get unauthorized address: " ++ show_list addresses in
      let ask : Call W Bytes =
        exchange conn codec tp_state_get_request tp_state_get_response m_text s_text e_text
          (codec.marshal_get context_id addresses) in
      let decode : Bytes → Call W (Dict Bytes) =
        λ content. lift (state_reply conn codec u_text a_text (codec.unmarshal_get content)) in
      let give : Dict Bytes → Call W (Dict Bytes) = λ entries. lift (ok (collect entries [])) in
      let (content, u, exchanged, h1) = >>=-eq-ok ask (λ x. decode x >>= give) w h in
      let (entries, v, replied, h2) = >>=-eq-ok (decode content) give u h1 in
      let (bytes, marshalled, ex) =
        exchange-Exchanged tp_state_get_request tp_state_get_response m_text s_text e_text
          (codec.marshal_get context_id addresses) w u exchanged in
      let (status, decoded, authorized) =
        state_reply-ok u_text a_text (codec.unmarshal_get content) (ended-eq replied).0 in
      let ends : u ≡ t = (ended-eq replied).1 ∙ (ended-eq h2).1 in
      (
        bytes,
        content,
        status,
        entries,
        marshalled,
        rw (← ends) ex,
        decoded,
        authorized,
        sym (ok-injective (ended-eq h2).0),
      )
