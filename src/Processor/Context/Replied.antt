-- ===== src/Processor/Context/Replied.antt =====
-- A state request and a reply to it that is not an authorization error: exactly then a call
-- succeeds.
use sawtooth_sdk_go.Base.{
  ◌≡◌, ◌≢◌, refl, ℕ, Bytes, bytes_eq, bytes_eq_iff, ◌⊎◌, inr, true, ◌==◌, ==_iff,
}
use sawtooth_sdk_go.Processor.Errors.{Error, Outcome, ok, Call, lift, ended-eq, ◌>>=◌, >>=-eq-ok}
use sawtooth_sdk_go.Messaging.Message.{Connection, message_of}
use sawtooth_sdk_go.Processor.Context.{
  StateCodec, check_reply, receive, sent, exchange, Status, status_ok, status_unset,
  authorization_error, state_reply,
}
use sawtooth_sdk_go.Processor.Context.Replies.{Exchanged, exchange-Exchanged, state_reply-ok}

module _ {W : Type 0} (conn : Connection W) (codec : StateCodec) where
  -- A request was exchanged for a reply that decodes to a value, and is not an authorization error.
  pub record Replied {A : Type 0} (request expected : ℕ) (marshalled : Error ⊎ Bytes)
      (decode : Bytes → Error ⊎ (Status × A)) (w t : W) (a : A) : Type 0 where
    pub bytes : Bytes
    pub content : Bytes
    pub status : Status
    pub marshals : marshalled ≡ inr bytes
    pub exchanges : Exchanged conn codec request expected bytes content w t
    pub decodes : decode content ≡ inr (status, a)
    pub authorized : status ≢ authorization_error

  pub exchange-Replied :
      {A : Type 0} (request expected : ℕ) (m_text s_text e_text u_text a_text : Bytes)
      (marshalled : Error ⊎ Bytes) (decode : Bytes → Error ⊎ (Status × A)) (w t : W) (a : A)
      → (exchange conn codec request expected m_text s_text e_text marshalled >>= λ content.
            lift (state_reply conn codec u_text a_text (decode content)))
          w
        ≡ (ok a, t)
      → Replied request expected marshalled decode w t a
  exchange-Replied request expected m_text s_text e_text u_text a_text marshalled decode w t a h =
      let ask : Call W Bytes =
        exchange conn codec request expected m_text s_text e_text marshalled in
      let (content, u, exchanged, replied) =
        >>=-eq-ok ask (λ c. lift (state_reply conn codec u_text a_text (decode c))) w h in
      let (bytes, marshals, ex) =
        exchange-Exchanged conn codec request expected m_text s_text e_text marshalled w u
          exchanged in
      let (status, decodes, authorized) =
        state_reply-ok conn codec u_text a_text (decode content) (ended-eq replied).0 in
      record {
        bytes = bytes;
        content = content;
        status = status;
        marshals = marshals;
        exchanges = rw (← (ended-eq replied).1) ex;
        decodes = decodes;
        authorized = authorized;
      }

  state_reply-authorized :
      {A : Type 0} (u_text a_text : Bytes) (status : Status) (a : A)
      → status ≢ authorization_error
      → state_reply conn codec u_text a_text (inr (status, a)) ≡ ok a
  unfolding state_reply
  state_reply-authorized u_text a_text status_ok a h = refl
  state_reply-authorized u_text a_text status_unset a h = refl
  state_reply-authorized u_text a_text authorization_error a h = absurd (h refl)

  -- such an exchange succeeds, and whatever follows is run on the value
  pub Replied-exchange :
      {A B : Type 0} (request expected : ℕ) (m_text s_text e_text u_text a_text : Bytes)
      (marshalled : Error ⊎ Bytes) (decode : Bytes → Error ⊎ (Status × A)) (w t : W) (a : A)
      (k : Outcome A × W → Outcome B × W)
      → Replied request expected marshalled decode w t a
      → (exchange conn codec request expected m_text s_text e_text marshalled >>= λ content s.
            k (lift (state_reply conn codec u_text a_text (decode content)) s))
          w
        ≡ k (ok a, t)
  unfolding exchange sent receive check_reply
  Replied-exchange request expected m_text s_text e_text u_text a_text marshalled decode w t a k r =
      let ex = r.exchanges in
      let m = message_of ex.reply.msg in
      let id : bytes_eq m.correlation_id ex.corr_id ≡ true =
        (bytes_eq_iff m.correlation_id ex.corr_id).1 ex.same_id in
      let typed : (m.message_type == expected) ≡ true =
        (==_iff m.message_type expected).1 ex.same_type in
      rw r.marshals (
        rw ex.sends (
          rw ex.receives (
            rw (id, typed)
              (rw (ex.same_content, r.decodes)
                (rw (state_reply-authorized u_text a_text r.status a r.authorized) refl)))))
