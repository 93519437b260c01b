-- ===== src/Processor/Start/Registered.antt =====
-- Which registrations a processor that starts has sent, and which were confirmed.
use mathlib.Core.Path.{subst}
use sawtooth_sdk_go.Base.{◌≡◌, refl, ℕ, Bytes, List, [], ◌∷◌, ◌++◌, map}
use sawtooth_sdk_go.Processor.Errors.{ok, err, panic, ended-eq}
use sawtooth_sdk_go.Processor.Worker.{TransactionHandler}
use sawtooth_sdk_go.Processor.Register.{RegisterCodec, Registrar, Registering, register}
use sawtooth_sdk_go.Processor.Register.Confirmed.{Confirmed, register-Confirmed}
use sawtooth_sdk_go.Processor.Start.{
  max_occupancy, next_version, next_handler, register_versions, register_handlers,
}
use sawtooth_sdk_go.Messaging.Message.{Message}

-- the versions of handlers, in the order in which they are registered
abbrev pub all_versions :
    {W : Type 0} → List (TransactionHandler W) → List (TransactionHandler W × Bytes)
all_versions [] = []
all_versions (h ∷ hs) = map (λ v. (h, v)) h.family_versions ++ all_versions hs

module _ {W : Type 0} (net : Registrar W) (codec : RegisterCodec) (max_queue : ℕ) where
  -- each of some versions, one after another
  pub data Registered
      : List (TransactionHandler W × Bytes) → List Message → W → List Message → W → Type 0 where
    none_left : {queue : List Message} {w : W} → Registered [] queue w queue w
    confirmed :
        {h : TransactionHandler W} {v : Bytes} {rest : List (TransactionHandler W × Bytes)}
        {queue queue' queue'' : List Message} {w u t : W}
        → Confirmed net codec (max_occupancy max_queue) h v queue w queue' u
        → Registered rest queue' u queue'' t
        → Registered ((h, v) ∷ rest) queue w queue'' t

  Registered-append :
      {ps qs : List (TransactionHandler W × Bytes)} {queue queue' queue'' : List Message}
      {w u t : W}
      → Registered ps queue w queue' u
      → Registered qs queue' u queue'' t
      → Registered (ps ++ qs) queue w queue'' t
  Registered-append none_left more = more
  Registered-append (confirmed c rest) more = confirmed c (Registered-append rest more)

  register_versions-Registered :
      (h : TransactionHandler W) (vs : List Bytes) (queue queue' : List Message) (w t : W)
      → register_versions net codec max_queue h vs queue w ≡ (ok tt, (queue', t))
      → Registered (map (λ v. (h, v)) vs) queue w queue' t
  unfolding register_versions next_version
  register_versions-Registered h [] queue queue' w t k =
      subst (λ (x : List Message × W). Registered [] queue w (x.0) (x.1)) (ended-eq k).1 none_left
  register_versions-Registered h (v ∷ vs) queue queue' w t k =
      go (λ q u. register_versions-Registered h vs q queue' u t)
        (register net codec h v (max_occupancy max_queue) queue w) refl k
    where
      go :
          ((q : List Message) (u : W)
            → register_versions net codec max_queue h vs q u ≡ (ok tt, (queue', t))
            → Registered (map (λ v. (h, v)) vs) q u queue' t)
          → (r : Registering W) → register net codec h v (max_occupancy max_queue) queue w ≡ r
          → next_version net codec max_queue h v (register_versions net codec max_queue h vs) r
            ≡ (ok tt, (queue', t))
          → Registered ((h, v) ∷ map (λ v. (h, v)) vs) queue w queue' t
      go rest (err e, q) is j = absurd (cc)
      go rest (panic, q) is j = absurd (cc)
      go rest (ok done, (q, u)) is j =
          confirmed (register-Confirmed net codec (max_occupancy max_queue) h v queue q w u is)
            (rest q u j)

  -- If the registrations of some handlers succeed, then for every version of every handler, in order,
  -- a request was sent with its family, its version, its namespaces and the size of the queue as 32
  -- bits, and the first message that arrived after it was a response that says that it is
  -- registered; the response's correlation id may be another one, and then it is put on the queue.
  pub register_handlers-Registered :
      (hs : List (TransactionHandler W)) (queue queue' : List Message) (w t : W)
      → register_handlers net codec max_queue hs queue w ≡ (ok tt, (queue', t))
      → Registered (all_versions hs) queue w queue' t
  unfolding register_handlers next_handler
  register_handlers-Registered [] queue queue' w t k =
      subst (λ (x : List Message × W). Registered [] queue w (x.0) (x.1)) (ended-eq k).1 none_left
  register_handlers-Registered (h ∷ hs) queue queue' w t k =
      go (λ q u. register_handlers-Registered hs q queue' u t)
        (register_versions net codec max_queue h h.family_versions queue w) refl k
    where
      go :
          ((q : List Message) (u : W)
            → register_handlers net codec max_queue hs q u ≡ (ok tt, (queue', t))
            → Registered (all_versions hs) q u queue' t)
          → (r : Registering W)
          → register_versions net codec max_queue h h.family_versions queue w ≡ r
          → next_handler net codec max_queue (register_handlers net codec max_queue hs) r
            ≡ (ok tt, (queue', t))
          → Registered (all_versions (h ∷ hs)) queue w queue' t
      go rest (err e, q) is j = absurd (cc)
      go rest (panic, q) is j = absurd (cc)
      go rest (ok done, (q, u)) is j =
          Registered-append (register_versions-Registered h h.family_versions queue q w u is)
            (rest q u j)
