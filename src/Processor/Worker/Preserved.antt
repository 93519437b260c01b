-- ===== src/Processor/Worker/Preserved.antt =====
-- What the handlers of a worker preserve, a worker preserves.
use sawtooth_sdk_go.Base.{refl, inr, ◌≡◌, ◌≢◌, Bytes, All, List, [], ◌∷◌, ◌++◌}
use sawtooth_sdk_go.Processor.Errors.{Error, Outcome, ok, err, panic, ended-eq}
use sawtooth_sdk_go.Processor.Request.{TpProcessRequest}
use sawtooth_sdk_go.Processor.Context.{StateCodec, as_store}
use sawtooth_sdk_go.Processor.Worker.{TransactionHandler, ProcessCodec, TpProcessResponse, worker}
use sawtooth_sdk_go.Processor.Worker.Answers.{AnsweredBy}
use sawtooth_sdk_go.Processor.Worker.Applied.{
  Handled, Breaks, unread, unknown, unwritten, unsent, Ran, finished, served, broke, worker-Ran,
}
use sawtooth_sdk_go.Messaging.Message.{Connection, Message, tp_process_response}

All-at :
    {A : Type 0} (Q : A → Type 0) (before : List A) (x : A) (after : List A)
    → All Q (before ++ x ∷ after)
    → Q x
All-at Q [] x after (q, qs) = q
All-at Q (y ∷ before) x after (q, qs) = All-at Q before x after qs

no_answer : {r : TpProcessResponse} → ¬ AnsweredBy panic r
no_answer = elim [ ]

-- A message is as assumed: if it holds a request, that request is.
abbrev pub Holds : ProcessCodec → (TpProcessRequest → Type 0) → Message → Type 0
Holds codec R m =
    (request : TpProcessRequest) → codec.unmarshal_request m.content ≡ inr request → R request

module _ {W : Type 0} (conn : Connection W) (states : StateCodec) (codec : ProcessCodec)
    (R : TpProcessRequest → Type 0) (P : W → Type 0) where
  -- A handler's `Apply` preserves what is assumed of the state, on a request that is as assumed and
  -- the store of its context, if it returns.
  abbrev Preserves : TransactionHandler W → Type 0
  Preserves h =
      (request : TpProcessRequest) (o : Outcome (Unit {0})) (w t : W)
      → R request
      → h.apply request (as_store conn states request.context_id) w ≡ (o, t)
      → o ≢ panic
      → P w
      → P t

  module _ (handlers : List (TransactionHandler W)) (all : All Preserves handlers)
      (sends : (bytes corr_id : Bytes) (w : W)
        → P w
        → P (conn.send_msg tp_process_response bytes corr_id w).1) where
    Handled-preserves :
        (m : Message) (response : TpProcessResponse) (w t : W)
        → Holds codec R m
        → Handled conn states codec handlers m response w t
        → P w
        → P t
    Handled-preserves m response w t r h p =
        All-at Preserves h.before h.handler h.after (rw h.splits at all) h.request h.ending w t
          (r h.request h.reads) h.applies (λ e. no_answer {r = response} (rw e at (h.answers))) p

    sent-preserves :
        (bytes corr_id : Bytes) (w t : W) {o : Outcome (Unit {0})}
        → conn.send_msg tp_process_response bytes corr_id w ≡ (o, t)
        → P w
        → P t
    sent-preserves bytes corr_id w t is p = rw (← (ended-eq is).1) (sends bytes corr_id w p)

    Breaks-preserves :
        (m : Message) (w t : W)
        → Holds codec R m
        → Breaks conn states codec handlers m w t
        → P w
        → P t
    Breaks-preserves m w t r (unread _) p = p
    Breaks-preserves m w t r (unknown _ _) p = p
    Breaks-preserves m w t r (unwritten handled _) p = Handled-preserves m _ w t r handled p
    Breaks-preserves m w t r (unsent handled _ sent) p =
        sent-preserves _ _ _ t sent (Handled-preserves m _ w _ r handled p)

    Ran-preserves :
        (ms : List Message) (w t : W)
        → All (Holds codec R) ms
        → Ran conn states codec handlers ms w t
        → P w
        → P t
    Ran-preserves [] w t rs finished p = p
    Ran-preserves (m ∷ ms) w t (r, rs) (served (response, u, bytes, handled, writes, sent) ran) p =
        Ran-preserves ms _ t rs ran
          (sent-preserves _ _ _ _ sent (Handled-preserves m _ w _ r handled p))
    Ran-preserves (m ∷ ms) w t (r, rs) (broke b) p = Breaks-preserves m w t r b p

    -- A worker that ends preserves what each of its handlers preserves when it returns, if sending
    -- a response preserves it.
    worker_preserves :
        (ms : List Message) (w t : W)
        → All (Holds codec R) ms
        → worker conn states codec handlers ms w ≡ (ok tt, t)
        → P w
        → P t
    worker_preserves ms w t rs done =
        Ran-preserves ms w t rs (worker-Ran conn states codec handlers ms w t done)

module _ {W : Type 0} (conn : Connection W) (states : StateCodec) (codec : ProcessCodec)
    (R : TpProcessRequest → Type 0) (held : W → Bytes → Bytes) (Q : (Bytes → Bytes) → Type 0) where
  -- A handler's `Apply` preserves a property of what is held on a request that is as assumed, if
  -- it succeeds, and changes nothing if it ends with an error.
  pub record Keeping (h : TransactionHandler W) : Type 0 where
    pub accepted :
        (request : TpProcessRequest) (w t : W)
        → R request
        → h.apply request (as_store conn states request.context_id) w ≡ (ok tt, t)
        → Q (held w)
        → Q (held t)
    pub refused :
        (request : TpProcessRequest) (w t : W) (e : Error) (b : Bytes)
        → h.apply request (as_store conn states request.context_id) w ≡ (err e, t)
        → held t b ≡ held w b

  Keeping-Preserves :
      (h : TransactionHandler W) → Keeping h → Preserves conn states codec R (λ w. Q (held w)) h
  Keeping-Preserves h k request (ok tt) w t r is returns q = k.accepted request w t r is q
  Keeping-Preserves h k request (err e) w t r is returns q =
      let same : held t ≡ held w = λ i b. k.refused request w t e b is i in rw same q
  Keeping-Preserves h k request panic w t r is returns q = absurd (returns refl)

  -- A worker with one handler that ends, all of whose requests are as assumed, preserves a property
  -- of what is held that the handler preserves when it succeeds, if the handler changes nothing
  -- when it ends with an error, and sending a response changes nothing.
  pub worker_keeps :
      (h : TransactionHandler W)
      → Keeping h
      → ((bytes corr_id : Bytes) (w : W) (b : Bytes)
          → held (conn.send_msg tp_process_response bytes corr_id w).1 b ≡ held w b)
      → (ms : List Message) (w t : W) → All (Holds codec R) ms
      → worker conn states codec (h ∷ []) ms w ≡ (ok tt, t)
      → Q (held w)
      → Q (held t)
  worker_keeps h k quiet ms w t =
      worker_preserves conn states codec R (λ u. Q (held u)) (h ∷ []) (Keeping-Preserves h k, tt)
        (λ bytes corr_id u q.
          let same : held (conn.send_msg tp_process_response bytes corr_id u).1 ≡ held u =
            λ i b. quiet bytes corr_id u b i in
          rw same q)
        ms w t

-- Of any requests nothing is assumed.
pub any_requests : (codec : ProcessCodec) (ms : List Message) → All (Holds codec (λ r. Unit)) ms
any_requests codec [] = tt
any_requests codec (m ∷ ms) = (λ r reads. tt, any_requests codec ms)
