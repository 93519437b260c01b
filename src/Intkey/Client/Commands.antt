-- ===== src/Intkey/Client/Commands.antt =====
-- sawtooth_intkey_client of intkey_go: how a client is made, and what the sub-commands run. Files,
-- the user and the signing context are parameters; the command line is parsed by go-flags.
use mathlib.Core.Option
use sawtooth_sdk_go.Base.{
  ℕ, ◌-◌, ◌^◌, Bytes, text, bytes_eq, true, false, join, atoi, ℤ, pos, negsuc, Dict, Option, none,
  some, List, [], ◌∷◌, ◌++◌, Bool, ◌⊎◌, inl, inr, if◌then◌else◌,
}
use sawtooth_sdk_go.Processor.Errors.{Error, Outcome, ok, err, panic, Call, lift, ◌>>=◌}
use sawtooth_sdk_go.Signing
use sawtooth_sdk_go.Signing.{Key, new_crypto_factory, new_signer}
use sawtooth_sdk_go.Signing.Secp256k1.{new_secp256k1_private_key}
use sawtooth_sdk_go.Intkey.Client.{ClientCodec, IntkeyClient, labelled}
use sawtooth_sdk_go.Intkey.Client.Requests.{Http, set, inc, dec}
use sawtooth_sdk_go.Intkey.Client.Queries.{show, list}

pub record User : Type 0 where
  pub home_dir : Bytes
  pub username : Bytes

-- `ioutil.ReadFile`, `user.Current`, and the error of `strconv.Atoi`
pub record Machine (W : Type 0) : Type 0 where
  pub read_file : Bytes → W → (Error ⊎ Bytes) × W
  pub current_user : W → (Error ⊎ User) × W
  pub num_error : Bytes → Error

abbrev pub default_url : Bytes
default_url = text "http://127.0.0.1:8008"

-- the arguments of `Set`, `Inc` and `Dec`
pub record ValueArgs : Type 0 where
  pub name : Bytes
  pub value : Bytes
  pub url : Bytes
  pub keyfile : Bytes
  pub wait : ℕ

-- `uint(value)` of an `int`
unfoldable pub uint_of : ℤ → ℕ
uint_of (pos n) = n
uint_of (negsuc k) = 2 ^ 64 - 1 - k

-- the line of `fmt.Println(k, ": ", v)`
unfoldable pub line_of : Bytes → Bytes → Bytes
line_of k v = k ++ (text " :  " ++ v)

lines_of : Dict Bytes → List Bytes
unfolding line_of
lines_of [] = []
lines_of ((k, v) ∷ m) = line_of k v ∷ lines_of m

unfoldable pub all_lines : List (Dict Bytes) → List Bytes
unfolding lines_of
all_lines [] = []
all_lines (m ∷ ms) = lines_of m ++ all_lines ms

module _ {W : Type 0} (context : Signing.Context (Unit {0})) (machine : Machine W) where
  keyfile_of : (Error ⊎ User) × W → Outcome Bytes × W
  keyfile_of (inl e, w) = (err e, w)
  keyfile_of (inr u, w) = (
    ok (join (u.home_dir ∷ text ".sawtooth" ∷ text "keys" ∷ (u.username ++ text ".priv") ∷ [])),
    w,
  )

  unfoldable pub get_keyfile : Bytes → Call W Bytes
  unfolding keyfile_of
  get_keyfile keyfile w =
      if bytes_eq keyfile [] then keyfile_of (machine.current_user w) else (ok keyfile, w)

  key_in : (Error ⊎ Bytes) × W → Outcome Key × W
  key_in (file, w) = elim (labelled (text "Failed to read private key: ") file) [
    | ok bytes ↦ (ok (new_secp256k1_private_key bytes), w)
    | err e ↦ (err e, w)
    | panic ↦ (panic, w)
  ]

  -- The bytes of the file are the key; without a file it is drawn by the context.
  unfoldable pub private_key : Bytes → Call W Key
  unfolding key_in
  private_key keyfile w =
      if bytes_eq keyfile []
      then ((context.new_random_private_key tt).0, w)
      else key_in (machine.read_file keyfile w)

  unfoldable pub new_intkey_client : Bytes → Bytes → Call W IntkeyClient
  new_intkey_client url keyfile = private_key keyfile >>= λ key.
      lift (ok (record { url = url; signer = new_signer (new_crypto_factory context) key }))

  unfoldable pub get_client : Bytes → Bytes → Bool → Call W IntkeyClient
  get_client url keyfile read_file =
      (if read_file then get_keyfile keyfile else lift (ok []))
      >>= new_intkey_client (if bytes_eq url [] then default_url else url)

  atoi_result : Bytes → Outcome ℤ
  atoi_result s = elim (atoi s) [ none ↦ err (machine.num_error s) | some v ↦ ok v ]

  module _ (sha512 : Bytes → Bytes) (http : Http W) (codec : ClientCodec) where
    -- what `Run` of `Set`, `Inc` and `Dec` have in common; `none` is out of fuel
    send_value :
        (IntkeyClient → Bytes → ℕ → ℕ → Call W (Option Bytes))
        → ValueArgs
        → Call W (Option (Unit {0}))
    unfolding atoi_result
    send_value send args = lift (atoi_result args.value) >>= λ v.
        get_client args.url args.keyfile true >>= λ client.
        send client args.name (uint_of v) args.wait >>= λ response.
        lift (ok (Option.map (λ _. tt) response))

    unfoldable pub run_set : ℕ → ValueArgs → Call W (Option (Unit {0}))
    unfolding send_value
    run_set fuel = send_value (λ client. set sha512 http codec client fuel)

    unfoldable pub run_inc : ℕ → ValueArgs → Call W (Option (Unit {0}))
    unfolding send_value
    run_inc fuel = send_value (λ client. inc sha512 http codec client fuel)

    unfoldable pub run_dec : ℕ → ValueArgs → Call W (Option (Unit {0}))
    unfolding send_value
    run_dec fuel = send_value (λ client. dec sha512 http codec client fuel)

    -- `Run` of `Show` and `List`, with the lines that they print
    unfoldable pub run_show : (name url : Bytes) → Call W (List Bytes)
    run_show name url = get_client url [] false >>= λ client.
        show sha512 http codec client name >>= λ value. lift (ok (line_of name value ∷ []))

    unfoldable pub run_list : (url : Bytes) → Call W (List Bytes)
    run_list url = get_client url [] false >>= λ client.
        list sha512 http codec client >>= λ pairs. lift (ok (all_lines pairs))
