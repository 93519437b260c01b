-- ===== src/Processor/Worker/Applied.antt =====
-- What a worker that ends has done to the requests of its queue.
use sawtooth_sdk_go.Base.{◌≡◌, refl, ap, Bytes, All, List, [], ◌∷◌, ◌++◌, ◌⊎◌, inl, inr}
use sawtooth_sdk_go.Processor.Errors.{
  Error, Outcome, ok, err, panic, lift, >>=-eq-ok, lift-ok, >>=-eq-err, lift-err, ◌>>=◌, ended-eq,
  ok-injective,
}
use sawtooth_sdk_go.Processor.Request.{TpProcessRequest}
use sawtooth_sdk_go.Processor.Context.{StateCodec, as_store}
use sawtooth_sdk_go.Processor.Worker.{
  TransactionHandler, ProcessCodec, TpProcessResponse, find_handler, or_break, run_handler, process,
  worker,
}
use sawtooth_sdk_go.Processor.Worker.Handlers.{IsFor, find_handler-first, find_handler-none}
use sawtooth_sdk_go.Messaging.Message.{Connection, Message, tp_process_response}
use sawtooth_sdk_go.Processor.Worker.Answers.{
  AnsweredBy, response_of-AnsweredBy, response_of-not_err,
}

module _ {W : Type 0} (conn : Connection W) (states : StateCodec) (codec : ProcessCodec)
    (handlers : List (TransactionHandler W)) where
  -- A message has been handled between two states, up to a response: it is a request, the first
  -- handler of its family and version has been applied to it and to the store of its context, and
  -- the response says how that ended.
  pub record Handled (m : Message) (response : TpProcessResponse) (w t : W) : Type 0 where
    pub request : TpProcessRequest
    pub before : List (TransactionHandler W)
    pub handler : TransactionHandler W
    pub after : List (TransactionHandler W)
    pub ending : Outcome (Unit {0})
    pub reads : codec.unmarshal_request m.content ≡ inr request
    pub splits : handlers ≡ before ++ handler ∷ after
    pub fits : IsFor request.header handler
    pub is_first : All (λ h. ¬ IsFor request.header h) before
    pub applies : handler.apply request (as_store conn states request.context_id) w ≡ (ending, t)
    pub answers : AnsweredBy ending response

  -- A message has been handled, and the response sent with the message's correlation id.
  abbrev pub Applied : Message → W → W → Type 0
  Applied m w t =
      (response : TpProcessResponse) × (u : W) × (bytes : Bytes) × Handled m response w u
      × (codec.marshal_response response ≡ inr bytes)
      × (conn.send_msg tp_process_response bytes m.correlation_id u ≡ (ok tt, t))

  -- The four ways in which a message ends a worker: it is not a request, no handler is for it, its
  -- response has no bytes, or these are not sent.
  pub data Breaks : Message → W → W → Type 0 where
    unread :
        {m : Message} {w : W} {e : Error} → codec.unmarshal_request m.content ≡ inl e → Breaks m w w
    unknown :
        {m : Message} {w : W} {request : TpProcessRequest}
        → codec.unmarshal_request m.content ≡ inr request
        → All (λ h. ¬ IsFor request.header h) handlers
        → Breaks m w w
    unwritten :
        {m : Message} {w t : W} {response : TpProcessResponse} {e : Error}
        → Handled m response w t
        → codec.marshal_response response ≡ inl e
        → Breaks m w t
    unsent :
        {m : Message} {w u t : W} {response : TpProcessResponse} {bytes : Bytes} {e : Error}
        → Handled m response w u
        → codec.marshal_response response ≡ inr bytes
        → conn.send_msg tp_process_response bytes m.correlation_id u ≡ (err e, t)
        → Breaks m w t

  -- A worker's run between two states: the messages are applied up to the end of the queue, or to
  -- one that breaks the loop, behind which the rest is left.
  pub data Ran : List Message → W → W → Type 0 where
    finished : {w : W} → Ran [] w w
    served :
        {m : Message} {ms : List Message} {w u t : W}
        → Applied m w u
        → Ran ms u t
        → Ran (m ∷ ms) w t
    broke : {m : Message} {ms : List Message} {w t : W} → Breaks m w t → Ran (m ∷ ms) w t

  or_break-ok : {A : Type 0} (r : Error ⊎ A) {a : A} → or_break r ≡ ok a → r ≡ inr a
  unfolding or_break
  or_break-ok (inl e) h = absurd (cc)
  or_break-ok (inr b) h = ap inr (ok-injective h)

  or_break-err : {A : Type 0} (r : Error ⊎ A) {e : Error} → or_break r ≡ err e → r ≡ inl e
  unfolding or_break
  or_break-err (inl x) h = cc
  or_break-err (inr b) h = absurd (cc)

  run_handler-Handled :
      (m : Message) (request : TpProcessRequest) (h : TransactionHandler W)
      (response : TpProcessResponse) (w t : W)
      → codec.unmarshal_request m.content ≡ inr request
      → find_handler handlers request.header ≡ inr h
      → run_handler conn states codec handlers h request w ≡ (ok response, t)
      → Handled m response w t
  unfolding run_handler
  run_handler-Handled m request h response w t reads finds runs =
      let (before, after, splits, fits, is_first) =
        find_handler-first request.header handlers h finds in
      let (answers, ends) = ended-eq runs in
      let ending = (h.apply request (as_store conn states request.context_id) w).0 in
      record {
        request = request;
        before = before;
        handler = h;
        after = after;
        ending = ending;
        reads = reads;
        splits = splits;
        fits = fits;
        is_first = is_first;
        applies = ap (λ x. (ending, x)) ends;
        answers = response_of-AnsweredBy _ response answers;
      }

  process-Applied :
      (m : Message) (w t : W) → process conn states codec handlers m w ≡ (ok tt, t) → Applied m w t
  unfolding process
  process-Applied m w t done =
      let (request, reads, found) =
        lift-ok (or_break (codec.unmarshal_request m.content)) _ w done in
      let (h, finds, ran) = lift-ok (or_break (find_handler handlers request.header)) _ w found in
      let (response, u, runs, rest) =
        >>=-eq-ok (run_handler conn states codec handlers h request) _ w ran in
      let (bytes, writes, sends) = lift-ok (or_break (codec.marshal_response response)) _ u rest in
      let handled =
        run_handler-Handled m request h response w u (or_break-ok _ reads) (or_break-ok _ finds)
          runs in
      (response, u, bytes, handled, or_break-ok _ writes, sends)

  respond-Breaks :
      (m : Message) (response : TpProcessResponse) (w u t : W) (e : Error)
      → Handled m response w u
      → (lift (or_break (codec.marshal_response response)) >>= λ bytes.
            conn.send_msg tp_process_response bytes m.correlation_id)
          u
        ≡ (err e, t)
      → Breaks m w t
  respond-Breaks m response w u t e handled fails =
      elim (lift-err (or_break (codec.marshal_response response)) _ u fails) [
        | inl (fail, at) ↦ rw (← at) (unwritten handled (or_break-err _ fail))
        | inr (bytes, writes, sends) ↦ unsent handled (or_break-ok _ writes) sends
      ]

  process-Breaks :
      (m : Message) (w t : W) (e : Error)
      → process conn states codec handlers m w ≡ (err e, t)
      → Breaks m w t
  unfolding process run_handler
  process-Breaks m w t e fails =
      elim (lift-err (or_break (codec.unmarshal_request m.content)) _ w fails) [
        | inl (fail, at) ↦ rw (← at) (unread (or_break-err _ fail))
        | inr (request, reads, found) ↦
            elim (lift-err (or_break (find_handler handlers request.header)) _ w found) [
              | inl (fail, at) ↦ rw (← at) (
                  unknown (or_break-ok _ reads)
                    (find_handler-none request.header handlers (or_break-err _ fail)))
              | inr (h, finds, ran) ↦
                  elim (>>=-eq-err (run_handler conn states codec handlers h request) _ w ran) [
                    | inl never ↦ absurd (response_of-not_err _ (ended-eq never).0)
                    | inr (response, u, runs, rest) ↦
                        respond-Breaks m response w u t e
                          (run_handler-Handled m request h response w u (or_break-ok _ reads)
                            (or_break-ok _ finds) runs)
                          rest
                  ]
            ]
      ]

  -- A worker that ends without a panic has applied the first handler of its family and version to
  -- each request and has sent how that ended, up to the end of the queue or to a message that is not
  -- a request, that no handler is for, or whose response is not written or not sent.
  pub worker-Ran :
      (ms : List Message) (w t : W)
      → worker conn states codec handlers ms w ≡ (ok tt, t)
      → Ran ms w t
  unfolding worker
  worker-Ran [] w t done = rw (ended-eq done).1 finished
  worker-Ran (m ∷ ms) w t done =
      go (λ u. worker-Ran ms u t) (process conn states codec handlers m w) refl done
    where
      go :
          ((u : W) → worker conn states codec handlers ms u ≡ (ok tt, t) → Ran ms u t)
          → (r : Outcome (Unit {0}) × W) → process conn states codec handlers m w ≡ r
          → (elim r.0 [
            | ok u ↦ worker conn states codec handlers ms r.1
            | err e ↦ (ok tt, r.1)
            | panic ↦ (panic, r.1)
          ])
            ≡ (ok tt, t)
          → Ran (m ∷ ms) w t
      go later (ok x, u) is rest = served (process-Applied m w u is) (later u rest)
      go later (err e, u) is rest = broke (process-Breaks m w t e (rw (← (ended-eq rest).1) is))
      go later (panic, u) is rest = absurd (let no = (ended-eq rest).0 in cc)
