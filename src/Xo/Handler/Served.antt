-- ===== src/Xo/Handler/Served.antt =====
-- The xo handler in a worker that talks to a validator.
use sawtooth_sdk_go.Base.{All, ◌≡◌, Bytes, List, [], ◌∷◌}
use sawtooth_sdk_go.Processor.Errors.{ok}
use sawtooth_sdk_go.Processor.Request.{TpProcessRequest}
use sawtooth_sdk_go.Processor.Context.{StateCodec, as_store}
use sawtooth_sdk_go.Processor.Context.Stored.{Honours, as_store-IsStore}
use sawtooth_sdk_go.Processor.Context.Atomic.{Atomic, as_store-FailsCleanly}
use sawtooth_sdk_go.Processor.Worker.{ProcessCodec, worker}
use sawtooth_sdk_go.Processor.Worker.Preserved.{Keeping, Holds, worker_keeps}
use sawtooth_sdk_go.Xo.Board.Plain.{Plain}
use sawtooth_sdk_go.Xo.Handler.{xo_handler}
use sawtooth_sdk_go.Xo.Handler.Fairness.{AllFair, apply-AllFair}
use sawtooth_sdk_go.Xo.Handler.Refused.{xo_refused}
use sawtooth_sdk_go.Messaging.Message.{Connection, Message, tp_process_response}

-- The signer's key is plain text.
abbrev pub PlainSigner : TpProcessRequest → Type 0
PlainSigner request = Plain request.header.signer_public_key

module _ {W : Type 0} (conn : Connection W) (states : StateCodec) (codec : ProcessCodec)
    (sha512 : Bytes → Bytes) (held : W → Bytes → Bytes)
    (honours : (c : Bytes) → Honours conn states c held)
    (atomic : (c : Bytes) → Atomic conn states c held) where
  xo_handler-Keeping : Keeping conn states codec PlainSigner held AllFair (xo_handler sha512)
  unfolding xo_handler
  xo_handler-Keeping = record {
    accepted = λ request w t plain done.
        apply-AllFair sha512 (as_store conn states request.context_id) held
          (as_store-IsStore conn states request.context_id held (honours request.context_id))
          request w t plain done;
    refused = λ request w t e b.
        xo_refused sha512 (as_store conn states request.context_id) held
          (as_store-FailsCleanly conn states request.context_id held (atomic request.context_id))
          request w t e b;
  }

  -- A worker with the xo handler that ends leaves every stored game fair if every one was before:
  -- if the signers of the requests in its queue have keys that are plain text (no comma, no bar),
  -- over a validator that honours the state requests that it accepts, on which the others change
  -- nothing, and that changes no state when a response is sent.
  -- A game is fair if it has nine cells, each X, O or blank, and its state agrees with the board: in
  -- a turn of player 1 there are as many X as O, in one of player 2 one X more, and there are a blank
  -- and no three in a row; a winner alone has three in a row, at the numbers of marks right after a
  -- turn of theirs; a tie has no three in a row and no blank. It does not say who made the marks.
  pub xo_worker-AllFair :
      ((bytes corr_id : Bytes) (w : W) (b : Bytes)
        → held (conn.send_msg tp_process_response bytes corr_id w).1 b ≡ held w b)
      → (ms : List Message) (w t : W) → All (Holds codec PlainSigner) ms
      → worker conn states codec (xo_handler sha512 ∷ []) ms w ≡ (ok tt, t)
      → AllFair (held w)
      → AllFair (held t)
  xo_worker-AllFair =
      worker_keeps conn states codec PlainSigner held AllFair (xo_handler sha512) xo_handler-Keeping
