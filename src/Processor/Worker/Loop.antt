-- ===== src/Processor/Worker/Loop.antt =====
-- The loop of `worker`: which requests it serves, and when it ends.
use sawtooth_sdk_go.Base.{◌≡◌, refl, List, [], ◌∷◌, ◌++◌, inl, inr}
use sawtooth_sdk_go.Processor.Errors.{Error, ok, err}
use sawtooth_sdk_go.Processor.Request.{TpProcessRequest}
use sawtooth_sdk_go.Processor.Context.{StateCodec}
use sawtooth_sdk_go.Processor.Worker.{
  TransactionHandler, ProcessCodec, find_handler, or_break, process, worker,
}
use sawtooth_sdk_go.Messaging.Message.{Connection, Message}

module _ {W : Type 0} (conn : Connection W) (states : StateCodec) (codec : ProcessCodec)
    (handlers : List (TransactionHandler W)) where
  -- The messages are processed one after another, each without an error, between two states.
  pub data Served : List Message → W → W → Type 0 where
    none_left : {w : W} → Served [] w w
    next :
        {m : Message} {ms : List Message} {w u t : W}
        → process conn states codec handlers m w ≡ (ok tt, u)
        → Served ms u t
        → Served (m ∷ ms) w t

  process_unknown_family :
      (m : Message) (w : W) (request : TpProcessRequest) (e : Error)
      → codec.unmarshal_request m.content ≡ inr request
      → find_handler handlers request.header ≡ inl e
      → process conn states codec handlers m w ≡ (err e, w)
  unfolding process or_break
  process_unknown_family m w request e reads unknown = rw (reads, unknown) refl

  -- A request of a family or a version that no handler is for ends the worker: the requests before
  -- it are served, if each is processed without an error, the request itself gets no response,
  -- since nothing is sent, and the rest of the queue is not looked at.
  pub worker_ends_at_unknown_family :
      (before : List Message) (m : Message) (rest : List Message) (w t : W)
      (request : TpProcessRequest) (e : Error)
      → Served before w t
      → codec.unmarshal_request m.content ≡ inr request
      → find_handler handlers request.header ≡ inl e
      → worker conn states codec handlers (before ++ m ∷ rest) w ≡ (ok tt, t)
  unfolding worker
  worker_ends_at_unknown_family [] m rest w t request e none_left reads unknown =
      let fails = process_unknown_family m w request e reads unknown in
      rw (fails, worker) (rw fails refl)
  worker_ends_at_unknown_family (b ∷ before) m rest w t request e (next {u} done served) reads
        unknown =
      rw (done, worker)
        (rw done (worker_ends_at_unknown_family before m rest u t request e served reads unknown))

  -- A worker whose requests are all processed without an error serves them all, and ends when the
  -- queue is closed.
  pub worker_serves :
      (ms : List Message) (w t : W)
      → Served ms w t
      → worker conn states codec handlers ms w ≡ (ok tt, t)
  unfolding worker
  worker_serves [] w t none_left = refl
  worker_serves (m ∷ ms) w t (next {u} done served) =
      rw (done, worker) (rw done (worker_serves ms u t served))
