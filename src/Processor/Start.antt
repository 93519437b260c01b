-- ===== src/Processor/Start.antt =====
-- processor/processor.go: the setters of a TransactionProcessor, and the registration of all its
-- handlers.
pub mod Registered
use sawtooth_sdk_go.Base.{ℕ, ◌%◌, ◌^◌, Bytes, text, List, [], ◌∷◌, ◌++◌, ◌⊎◌, inl, inr}
use sawtooth_sdk_go.Processor.Errors.{Error, other, error_text, Outcome, ok, err, panic}
use sawtooth_sdk_go.Processor.Context.{show_list}
use sawtooth_sdk_go.Processor.Worker.{TransactionHandler}
use sawtooth_sdk_go.Processor.Register.{RegisterCodec, Registrar, Registering, register}
use sawtooth_sdk_go.Messaging.Message.{Message}

-- The connection for shutdowns is the business of Processor/Shutdown; the map of ids that the
-- struct has is not used.
pub record TransactionProcessor (W : Type 0) : Type 0 where
  pub uri : Bytes
  pub handlers : List (TransactionHandler W)
  pub n_threads : ℕ
  pub max_queue : ℕ

abbrev pub default_max_work_queue_size : ℕ
default_max_work_queue_size = 100

module _ {W : Type 0} where
  -- the number of threads is that of the runtime
  unfoldable pub new_transaction_processor : ℕ → Bytes → TransactionProcessor W
  new_transaction_processor gomaxprocs uri = record {
    uri = uri;
    handlers = [];
    n_threads = gomaxprocs;
    max_queue = default_max_work_queue_size;
  }

  unfoldable pub add_handler :
      TransactionHandler W → TransactionProcessor W → TransactionProcessor W
  add_handler h p = record p { handlers = p.handlers ++ h ∷ [] }

  unfoldable pub set_thread_count : ℕ → TransactionProcessor W → TransactionProcessor W
  set_thread_count n p = record p { n_threads = n }

  unfoldable pub set_max_queue_size : ℕ → TransactionProcessor W → TransactionProcessor W
  set_max_queue_size n p = record p { max_queue = n }

abbrev pub registering_failed : {W : Type 0} → TransactionHandler W → Bytes → Error → Error
registering_failed h version e = other (
    text "Error registering handler ("
    ++ (h.family_name
        ++ (text ", "
            ++ (version
                ++ (text ", " ++ (show_list h.namespaces ++ (text "): " ++ error_text e)))))))

-- `uint32(self.maxQueue)`
abbrev pub max_occupancy : ℕ → ℕ
max_occupancy max_queue = max_queue % 2 ^ 32

module _ {W : Type 0} (net : Registrar W) (codec : RegisterCodec) (max_queue : ℕ) where
  -- goes on behind a registration that succeeded
  next_version :
      TransactionHandler W
      → Bytes
      → (List Message → W → Registering W)
      → Registering W
      → Registering W
  next_version h v rest (ok u, (queue, w)) = rest queue w
  next_version h v rest (err e, (queue, w)) = (err (registering_failed h v e), (queue, w))
  next_version h v rest (panic, (queue, w)) = (panic, (queue, w))

  next_handler : (List Message → W → Registering W) → Registering W → Registering W
  next_handler rest (ok u, (queue, w)) = rest queue w
  next_handler rest (err e, (queue, w)) = (err e, (queue, w))
  next_handler rest (panic, (queue, w)) = (panic, (queue, w))

  unfoldable pub register_versions :
      TransactionHandler W → List Bytes → List Message → W → Registering W
  unfolding next_version
  register_versions h [] queue w = (ok tt, (queue, w))
  register_versions h (v ∷ vs) queue w =
      next_version h v (register_versions h vs)
        (register net codec h v (max_occupancy max_queue) queue w)

  -- the loop of `start` over the handlers and their versions
  unfoldable pub register_handlers : List (TransactionHandler W) → List Message → W → Registering W
  unfolding next_handler
  register_handlers [] queue w = (ok tt, (queue, w))
  register_handlers (h ∷ hs) queue w =
      next_handler (register_handlers hs) (register_versions h h.family_versions queue w)
