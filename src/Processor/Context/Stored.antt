-- ===== src/Processor/Context/Stored.antt =====
-- The context as an implementation of the store that handlers use, over a validator that answers
-- state requests as it should.
use sawtooth_sdk_go.Base.{
  ◌≡◌, refl, sym, Bytes, text, bytes_eq, bytes_eq_iff, bytes_eq_refl, Dict, lookup, insert, keys,
  List, [], ◌∷◌, ◌++◌, inl, inr, Bool-cases, if◌then◌else◌,
}
use sawtooth_sdk_go.Processor.Errors.{ok}
use sawtooth_sdk_go.Processor.Store.{IsStore, data_at}
use sawtooth_sdk_go.Messaging.Message.{
  Connection, tp_state_get_request, tp_state_get_response, tp_state_set_request,
  tp_state_set_response, tp_state_delete_request, tp_state_delete_response,
}
use sawtooth_sdk_go.Processor.Context.{
  StateCodec, set_state, delete_state, get_state, collect, show_list, as_store,
}
use sawtooth_sdk_go.Processor.Context.Replies.{get_state-ok}
use sawtooth_sdk_go.Processor.Context.Replied.{Replied, exchange-Replied}

module _ {W : Type 0} (conn : Connection W) (codec : StateCodec) (context_id : Bytes) where
  -- What the validator promises on a request that it does not refuse: a get is answered with the
  -- data at the address, and changes nothing; a set and a delete take effect at the address alone.
  pub record Honours (held : W → Bytes → Bytes) : Type 0 where
    pub gets :
        (a : Bytes) (w t : W) (entries : Dict Bytes)
        → Replied conn codec tp_state_get_request tp_state_get_response
            (codec.marshal_get context_id (a ∷ []))
            codec.unmarshal_get
            w
            t
            entries
        → (entries ≡ (a, held w a) ∷ []) × ((b : Bytes) → held t b ≡ held w b)
    pub sets :
        (a d : Bytes) (w t : W) (done : List Bytes)
        → Replied conn codec tp_state_set_request tp_state_set_response
            (codec.marshal_set context_id ((a, d) ∷ []))
            codec.unmarshal_set
            w
            t
            done
        → (b : Bytes) → held t b ≡ (if bytes_eq a b then d else held w b)
    pub deletes :
        (a : Bytes) (w t : W) (done : List Bytes)
        → Replied conn codec tp_state_delete_request tp_state_delete_response
            (codec.marshal_delete context_id (a ∷ []))
            codec.unmarshal_delete
            w
            t
            done
        → (b : Bytes) → held t b ≡ (if bytes_eq a b then [] else held w b)

  get_state-Replied :
      (addresses : List Bytes) (w t : W) (results : Dict Bytes)
      → get_state conn codec context_id addresses w ≡ (ok results, t)
      → (entries : Dict Bytes) × Replied conn codec tp_state_get_request tp_state_get_response
          (codec.marshal_get context_id addresses)
          codec.unmarshal_get
          w
          t
          entries
        × (results ≡ collect entries [])
  get_state-Replied addresses w t results h =
      let (bytes, content, status, entries, marshals, exchanges, decodes, authorized, are) =
        get_state-ok conn codec context_id addresses w t results h in
      (
        entries,
        record {
          bytes = bytes;
          content = content;
          status = status;
          marshals = marshals;
          exchanges = exchanges;
          decodes = decodes;
          authorized = authorized;
        },
        are,
      )

  pub set_state-Replied :
      (pairs : Dict Bytes) (w t : W) (done : List Bytes)
      → set_state conn codec context_id pairs w ≡ (ok done, t)
      → Replied conn codec tp_state_set_request tp_state_set_response
          (codec.marshal_set context_id pairs)
          codec.unmarshal_set
          w
          t
          done
  unfolding set_state
  set_state-Replied pairs w t done h =
      exchange-Replied conn codec tp_state_set_request tp_state_set_response
        (text "Failed to marshal: ") (text "Failed to send set: ")
        (text "Expected TP_STATE_SET_RESPONSE but got ")
        (text "Failed to unmarshal TpStateSetResponse: ")
        (text "Tried to set unauthorized address: " ++ show_list (keys pairs))
        (codec.marshal_set context_id pairs) codec.unmarshal_set w t done h

  delete_state-Replied :
      (addresses : List Bytes) (w t : W) (done : List Bytes)
      → delete_state conn codec context_id addresses w ≡ (ok done, t)
      → Replied conn codec tp_state_delete_request tp_state_delete_response
          (codec.marshal_delete context_id addresses)
          codec.unmarshal_delete
          w
          t
          done
  unfolding delete_state
  delete_state-Replied addresses w t done h =
      exchange-Replied conn codec tp_state_delete_request tp_state_delete_response
        (text "Failed to marshal TpStateDeleteRequest: ")
        (text "Failed to send TpStateDeleteRequest: ")
        (text "Expected TpStateDeleteResponse but got ")
        (text "Failed to unmarshal TpStatedDeleteResponse: ")
        (text "Tried to get unauthorized address: " ++ show_list addresses)
        (codec.marshal_delete context_id addresses) codec.unmarshal_delete w t done h

  data_at-collect : (a d : Bytes) → data_at a (collect ((a, d) ∷ []) []) ≡ d
  unfolding data_at collect insert lookup
  data_at-collect a d = elim (Bool-cases (bytes_eq d [])) [
    | inl empty ↦ rw empty (sym ((bytes_eq_iff d []).0 empty))
    | inr more ↦ rw more (rw bytes_eq_refl refl)
  ]

  -- The context implements the store that the handlers are proved against: over a validator that
  -- honours the requests it does not refuse, whatever `GetState`, `SetState` and `DeleteState`
  -- return for one address without an error is what the validator holds there, respectively has
  -- become of it, and nothing changes at other addresses.
  pub as_store-IsStore :
      (held : W → Bytes → Bytes) → Honours held → IsStore (as_store conn codec context_id) held
  as_store-IsStore held validator = record {
    get_reads = λ a s h.
        let (entries, replied, are) = get_state-Replied (a ∷ []) s _ _ h in
        let read = (validator.gets a s _ entries replied).0 in
        rw (are, read) (data_at-collect a (held s a));
    get_keeps = λ a b s h.
        let (entries, replied, are) = get_state-Replied (a ∷ []) s _ _ h in
        (validator.gets a s _ entries replied).1 b;
    set_writes = λ a b d s h. validator.sets a d s _ _ (set_state-Replied ((a, d) ∷ []) s _ _ h) b;
    delete_clears = λ a b s h. validator.deletes a s _ _ (delete_state-Replied (a ∷ []) s _ _ h) b;
  }

  -- The validator answers each get and each set at one address, without an authorization error, and
  -- lists the address of a set.
  pub record Answers : Type 0 where
    pub answers_get :
        (a : Bytes) (w : W)
        → (entries : Dict Bytes) × (t : W) × Replied conn codec tp_state_get_request
            tp_state_get_response
            (codec.marshal_get context_id (a ∷ []))
            codec.unmarshal_get
            w
            t
            entries
    pub answers_set :
        (a d : Bytes) (w : W)
        → (x : Bytes) × (xs : List Bytes) × (t : W) × Replied conn codec tp_state_set_request
            tp_state_set_response
            (codec.marshal_set context_id ((a, d) ∷ []))
            codec.unmarshal_set
            w
            t
            (x ∷ xs)
