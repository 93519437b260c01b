-- ===== src/Intkey/Handler/Served.antt =====
-- The intkey handler in a worker that talks to a validator.
use sawtooth_sdk_go.Base.{◌≡◌, Bytes, length, List, [], ◌∷◌}
use sawtooth_sdk_go.Processor.Errors.{ok}
use sawtooth_sdk_go.Processor.Context.{StateCodec, as_store}
use sawtooth_sdk_go.Processor.Context.Stored.{Honours, as_store-IsStore}
use sawtooth_sdk_go.Processor.Context.Atomic.{Atomic, as_store-FailsCleanly}
use sawtooth_sdk_go.Processor.Worker.{ProcessCodec, worker}
use sawtooth_sdk_go.Processor.Worker.Preserved.{Keeping, worker_keeps, any_requests}
use sawtooth_sdk_go.Intkey.Handler.{Cbor, new_intkey_handler}
use sawtooth_sdk_go.Intkey.Handler.Updates.{IsCbor}
use sawtooth_sdk_go.Intkey.Handler.Effects.{AllInBounds, apply-AllInBounds}
use sawtooth_sdk_go.Intkey.Handler.Refused.{intkey_refused}
use sawtooth_sdk_go.Messaging.Message.{Connection, Message, tp_process_response}

module _ {W : Type 0} (conn : Connection W) (states : StateCodec) (codec : ProcessCodec)
    (sha512 : Bytes → Bytes) (cbor : Cbor) (namespace : Bytes) (held : W → Bytes → Bytes)
    (codes : IsCbor cbor) (long : (name : Bytes) → length (sha512 name) ≡ 64)
    (honours : (c : Bytes) → Honours conn states c held)
    (atomic : (c : Bytes) → Atomic conn states c held) where
  new_intkey_handler-Keeping :
      Keeping conn states codec
        (λ r. Unit)
        held
        (AllInBounds sha512 cbor namespace)
        (new_intkey_handler sha512 cbor namespace)
  unfolding new_intkey_handler
  new_intkey_handler-Keeping = record {
    accepted = λ request w t any done before.
        apply-AllInBounds sha512 cbor namespace (as_store conn states request.context_id) held
          (as_store-IsStore conn states request.context_id held (honours request.context_id)) codes
          long request w t before done;
    refused = λ request w t e b.
        intkey_refused sha512 cbor namespace (as_store conn states request.context_id) held
          (as_store-FailsCleanly conn states request.context_id held (atomic request.context_id))
          request w t e b;
  }

  -- A worker with the intkey handler that ends, whatever the requests of its queue, leaves every
  -- stored value from 0 to 4294967295 if every one was before: over a validator that honours the
  -- state requests that it accepts, on which the others change nothing, and that changes no state
  -- when a response is sent, with a codec that reads back the maps it encodes and a digest of 64
  -- bytes.
  pub intkey_worker-AllInBounds :
      ((bytes corr_id : Bytes) (w : W) (b : Bytes)
        → held (conn.send_msg tp_process_response bytes corr_id w).1 b ≡ held w b)
      → (ms : List Message) (w t : W)
      → worker conn states codec (new_intkey_handler sha512 cbor namespace ∷ []) ms w ≡ (ok tt, t)
      → AllInBounds sha512 cbor namespace (held w)
      → AllInBounds sha512 cbor namespace (held t)
  intkey_worker-AllInBounds quiet ms w t =
      worker_keeps conn states codec (λ r. Unit) held (AllInBounds sha512 cbor namespace)
        (new_intkey_handler sha512 cbor namespace) new_intkey_handler-Keeping quiet ms w t
        (any_requests codec ms)
