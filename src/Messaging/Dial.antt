-- ===== src/Messaging/Dial.antt =====
-- messaging/connection.go: `NewConnection`, `Monitor` and `Close`. ZeroMQ and the generator of ids
-- are parameters.
use sawtooth_sdk_go.Base.{ℕ, Bytes, text, Option, none, some, Bool, ◌++◌, if◌then◌else◌}
use sawtooth_sdk_go.Processor.Errors.{Error, other, error_text, Outcome, ok, err, panic, Call}

-- What is used of the package zmq4, on the state `W` of its sockets. A socket is a handle; a method
-- may be called on nil, `none`, and may then panic.
pub record Zmq (W : Type 0) : Type 0 where
  pub new_socket : (kind : ℕ) → W → (Option ℕ × Option Error) × W
  pub set_identity : Option ℕ → Bytes → W → W
  pub bind : Option ℕ → Bytes → Call W (Unit {0})
  pub connect : Option ℕ → Bytes → Call W (Unit {0})
  pub monitor : Option ℕ → Bytes → (events : ℕ) → Call W (Unit {0})
  pub close : Option ℕ → Call W (Unit {0})
  pub pair : ℕ

-- the fields that a connection gets when it is made, beside an empty map
pub record Dialed : Type 0 where
  pub identity : Bytes
  pub uri : Bytes
  pub socket : Option ℕ

-- `if err != nil { return nil, fmt.Errorf(t, err) }` behind a call
labelled_failure : {A W : Type 0} → Bytes → A → Outcome (Unit {0}) × W → Outcome A × W
labelled_failure t a (ok u, w) = (ok a, w)
labelled_failure t a (err e, w) = (err (other (t ++ error_text e)), w)
labelled_failure t a (panic, w) = (panic, w)

plain_failure : {A W : Type 0} → A → Outcome (Unit {0}) × W → Outcome A × W
plain_failure a (ok u, w) = (ok a, w)
plain_failure a (err e, w) = (err e, w)
plain_failure a (panic, w) = (panic, w)

module _ {W : Type 0} (zmq : Zmq W) (generate_id : W → Bytes × W) where
  establish : Bytes → Bool → Option ℕ → W → Outcome Dialed × W
  unfolding labelled_failure
  establish uri binds socket w =
      let (identity, u) = generate_id w in
      let v = zmq.set_identity socket identity u in
      labelled_failure (text "Failed to establish connection to " ++ (uri ++ text ": "))
        (record { identity = identity; uri = uri; socket = socket })
        (if binds then zmq.bind socket uri v else zmq.connect socket uri v)

  with_socket : Bytes → Bool → (Option ℕ × Option Error) × W → Outcome Dialed × W
  unfolding establish
  with_socket uri binds ((socket, some e), w) =
      (err (other (text "Failed to create ZMQ socket: " ++ error_text e)), w)
  with_socket uri binds ((socket, none), w) = establish uri binds socket w

  unfoldable pub new_connection : (kind : ℕ) → (uri : Bytes) → (binds : Bool) → Call W Dialed
  unfolding with_socket
  new_connection kind uri binds w = with_socket uri binds (zmq.new_socket kind w)

  -- The error of `NewSocket` is overwritten by that of `Connect`.
  connect_pair : Bytes → (Option ℕ × Option Error) × W → Outcome (Option ℕ) × W
  unfolding plain_failure
  connect_pair endpoint ((monitor, e), w) = plain_failure monitor (zmq.connect monitor endpoint w)

  monitoring : Bytes → Outcome (Unit {0}) × W → Outcome (Option ℕ) × W
  unfolding connect_pair
  monitoring endpoint (ok u, w) = connect_pair endpoint (zmq.new_socket zmq.pair w)
  monitoring endpoint (err e, w) = (err e, w)
  monitoring endpoint (panic, w) = (panic, w)

  unfoldable pub monitor : Dialed → (events : ℕ) → Call W (Option ℕ)
  unfolding monitoring
  monitor c events w =
      let endpoint = text "inproc://monitor." ++ c.identity in
      monitoring endpoint (zmq.monitor c.socket endpoint events w)

  unfoldable pub close : Dialed → Call W (Unit {0})
  close c = zmq.close c.socket
