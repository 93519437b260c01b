-- ===== src/Processor/Context/Atomic.antt =====
-- The context over a validator on which a request either takes effect or changes nothing.
use sawtooth_sdk_go.Base.{
  ◌≡◌, ◌≢◌, refl, ap, sym, ◌∙◌, ℕ, Bytes, text, Dict, keys, List, [], ◌∷◌, ◌++◌, ◌⊎◌, inl, inr,
}
use sawtooth_sdk_go.Processor.Errors.{
  Error, Outcome, ok, err, panic, Call, continue_with, lift, ended-eq, ◌>>=◌,
}
use sawtooth_sdk_go.Processor.Store.Clean.{FailsCleanly}
use sawtooth_sdk_go.Messaging.Message.{
  Connection, tp_state_get_request, tp_state_get_response, tp_state_set_request,
  tp_state_set_response, tp_state_delete_request, tp_state_delete_response,
}
use sawtooth_sdk_go.Processor.Context.{
  StateCodec, Status, exchange, sent, receive, state_reply, get_state, set_state, delete_state,
  collect, show_list, as_store,
}
use sawtooth_sdk_go.Processor.Context.Replied.{Replied, Replied-exchange}
use sawtooth_sdk_go.Processor.Context.Stored.{set_state-Replied}

-- What goes behind a call and leaves the state alone does not count for the state.
>>=-state :
    {S A B : Type 0} (m : Call S A) (f : A → Call S B) (s : S)
    → ((a : A) (u : S) → (f a u).1 ≡ u)
    → ((m >>= f) s).1 ≡ (m s).1
>>=-state {S} {A} {B} m f s same = go (m s)
  where
    go : (r : Outcome A × S) → (continue_with f r).1 ≡ r.1
    go (ok a, u) = same a u
    go (err e, u) = refl
    go (panic, u) = refl

module _ {W : Type 0} (conn : Connection W) (codec : StateCodec) where
  abbrev after_send : Outcome Bytes × W → W
  after_send (ok corr_id, u) = (conn.recv_msg_with_id corr_id u).1
  after_send (err e, u) = u
  after_send (panic, u) = u

  -- the state behind a request and, if it is sent, the wait for its reply
  abbrev pub asked : ℕ → Bytes → W → W
  asked request bytes w = after_send (conn.send_new_msg request bytes w)

  sent-after_send :
      (expected : ℕ) (s_text e_text : Bytes) (r : Outcome Bytes × W)
      → (sent conn codec expected s_text e_text r).1 ≡ after_send r
  unfolding sent receive
  sent-after_send expected s_text e_text (ok c, u) = refl
  sent-after_send expected s_text e_text (err e, u) = refl
  sent-after_send expected s_text e_text (panic, u) = refl

  exchange-keeps :
      (held : W → Bytes → Bytes) (request expected : ℕ) (m_text s_text e_text : Bytes)
      (marshalled : Error ⊎ Bytes) (w : W) (b : Bytes)
      → ((bytes : Bytes) → marshalled ≡ inr bytes → held (asked request bytes w) b ≡ held w b)
      → held (exchange conn codec request expected m_text s_text e_text marshalled w).1 b ≡ held w b
  unfolding exchange
  exchange-keeps held request expected m_text s_text e_text (inl x) w b keeps = refl
  exchange-keeps held request expected m_text s_text e_text (inr bytes) w b keeps =
      ap (λ u. held u b)
        (sent-after_send expected s_text e_text (conn.send_new_msg request bytes w))
      ∙ keeps bytes refl

  -- An exchange that fails leaves what is held as it was, if its request is either accepted or
  -- changes nothing.
  exchange-refused :
      {A : Type 0} (held : W → Bytes → Bytes) (request expected : ℕ)
      (m_text s_text e_text u_text a_text : Bytes) (marshalled : Error ⊎ Bytes)
      (decode : Bytes → Error ⊎ (Status × A)) (w t : W) (e : Error)
      → ((bytes : Bytes)
          → marshalled ≡ inr bytes
          → ((b : Bytes) → held (asked request bytes w) b ≡ held w b)
            ⊎ ((a : A) × Replied conn codec request expected marshalled decode w
                  (asked request bytes w)
                  a))
      → (exchange conn codec request expected m_text s_text e_text marshalled >>= λ content.
            lift (state_reply conn codec u_text a_text (decode content)))
          w
        ≡ (err e, t)
      → (b : Bytes) → held t b ≡ held w b
  unfolding exchange
  exchange-refused held request expected m_text s_text e_text u_text a_text (inl x) decode w t e
        promised fails b =
      ap (λ u. held u b) (sym (ended-eq fails).1)
  exchange-refused held request expected m_text s_text e_text u_text a_text (inr bytes) decode w t e
        promised fails b =
      elim (promised bytes refl) [
        | inl same ↦
            ap (λ u. held u b)
              (sym (ended-eq fails).1
                ∙ >>=-state (exchange conn codec request expected m_text s_text e_text (inr bytes))
                    (λ content. lift (state_reply conn codec u_text a_text (decode content))) w
                    (λ c u. refl)
                ∙ sent-after_send expected s_text e_text (conn.send_new_msg request bytes w))
            ∙ same b
        | inr (a, replied) ↦
            let served =
              Replied-exchange conn codec request expected m_text s_text e_text u_text a_text
                (inr bytes) decode w _ a (λ o. o) replied in
            absurd (let never = (ended-eq (sym served ∙ fails)).0 in cc)
      ]

module _ {W : Type 0} (conn : Connection W) (codec : StateCodec) (context_id : Bytes) where
  -- What the validator promises of the requests that do not succeed: a get changes nothing; a set
  -- or a delete is either answered with a reply that accepts it, or changes nothing; and a set of
  -- one address that is accepted lists an address.
  pub record Atomic (held : W → Bytes → Bytes) : Type 0 where
    pub gets_keep :
        (addresses : List Bytes) (bytes : Bytes) (w : W)
        → codec.marshal_get context_id addresses ≡ inr bytes
        → (b : Bytes) → held (asked conn codec tp_state_get_request bytes w) b ≡ held w b
    pub sets_or_keeps :
        (pairs : Dict Bytes) (bytes : Bytes) (w : W)
        → codec.marshal_set context_id pairs ≡ inr bytes
        → ((b : Bytes) → held (asked conn codec tp_state_set_request bytes w) b ≡ held w b)
          ⊎ ((done : List Bytes) × Replied conn codec tp_state_set_request tp_state_set_response
                (codec.marshal_set context_id pairs)
                codec.unmarshal_set
                w
                (asked conn codec tp_state_set_request bytes w)
                done)
    pub deletes_or_keeps :
        (addresses : List Bytes) (bytes : Bytes) (w : W)
        → codec.marshal_delete context_id addresses ≡ inr bytes
        → ((b : Bytes) → held (asked conn codec tp_state_delete_request bytes w) b ≡ held w b)
          ⊎ ((done : List Bytes) × Replied conn codec tp_state_delete_request
                tp_state_delete_response
                (codec.marshal_delete context_id addresses)
                codec.unmarshal_delete
                w
                (asked conn codec tp_state_delete_request bytes w)
                done)
    pub lists :
        (a d : Bytes) (w t : W) (done : List Bytes)
        → Replied conn codec tp_state_set_request tp_state_set_response
            (codec.marshal_set context_id ((a, d) ∷ []))
            codec.unmarshal_set
            w
            t
            done
        → done ≢ []

  get_state-keeps :
      (held : W → Bytes → Bytes)
      → Atomic held
      → (addresses : List Bytes) (w : W) (b : Bytes)
      → held (get_state conn codec context_id addresses w).1 b ≡ held w b
  unfolding get_state
  get_state-keeps held atomic addresses w b =
      let marshalled = codec.marshal_get context_id addresses in
      let ask : Call W Bytes =
        exchange conn codec tp_state_get_request tp_state_get_response
          (text "Failed to marshal TpStateGetRequest: ") (text "Failed to send TpStateGetRequest: ")
          (text "Expected TpStateGetResponse but got ") marshalled in
      let read : Bytes → Outcome (Dict Bytes) = λ content.
        state_reply conn codec (text "Failed to unmarshal TpStateGetResponse: ")
          (text "Tried to get unauthorized address: " ++ show_list addresses)
          (codec.unmarshal_get content) in
      let kept : Dict Bytes → Call W (Dict Bytes) = λ entries. lift (ok (collect entries [])) in
      ap (λ u. held u b)
        (>>=-state ask (λ content. lift (read content) >>= kept) w
          λ c u. >>=-state (lift (read c)) kept u λ entries v. refl)
      ∙ exchange-keeps conn codec held tp_state_get_request tp_state_get_response
          (text "Failed to marshal TpStateGetRequest: ") (text "Failed to send TpStateGetRequest: ")
          (text "Expected TpStateGetResponse but got ") marshalled w b
          λ bytes is. atomic.gets_keep addresses bytes w is b

  -- A context changes nothing when it fails, over a validator on which a get changes nothing, a set
  -- and a delete are accepted or change nothing, and an accepted set of one address lists one.
  pub as_store-FailsCleanly :
      (held : W → Bytes → Bytes) → Atomic held → FailsCleanly (as_store conn codec context_id) held
  unfolding set_state delete_state
  as_store-FailsCleanly held atomic = record {
    get_keeps_all = λ addresses s b. get_state-keeps held atomic addresses s b;
    set_failed = λ pairs s b fails.
        exchange-refused conn codec held tp_state_set_request tp_state_set_response
          (text "Failed to marshal: ") (text "Failed to send set: ")
          (text "Expected TP_STATE_SET_RESPONSE but got ")
          (text "Failed to unmarshal TpStateSetResponse: ")
          (text "Tried to set unauthorized address: " ++ show_list (keys pairs))
          (codec.marshal_set context_id pairs) codec.unmarshal_set s _ _
          (λ bytes is. atomic.sets_or_keeps pairs bytes s is) fails b;
    set_lists = λ a d s done.
        atomic.lists a d s _ _ (set_state-Replied conn codec context_id ((a, d) ∷ []) s _ _ done);
    delete_failed = λ addresses s b fails.
        exchange-refused conn codec held tp_state_delete_request tp_state_delete_response
          (text "Failed to marshal TpStateDeleteRequest: ")
          (text "Failed to send TpStateDeleteRequest: ")
          (text "Expected TpStateDeleteResponse but got ")
          (text "Failed to unmarshal TpStatedDeleteResponse: ")
          (text "Tried to get unauthorized address: " ++ show_list addresses)
          (codec.marshal_delete context_id addresses) codec.unmarshal_delete s _ _
          (λ bytes is. atomic.deletes_or_keeps addresses bytes s is) fails b;
  }
