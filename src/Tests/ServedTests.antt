-- ===== src/Tests/ServedTests.antt =====
-- Workers with the handlers of intkey and xo that serve a queue over a validator in memory.
use sawtooth_sdk_go.Base.{
  ◌≡◌, refl, arith, text, bytes_eq, hexdigest, lookup, insert, keys, [], ◌∷◌, inr, add_int,
}
use sawtooth_sdk_go.Processor.Errors.{ok}
use sawtooth_sdk_go.Processor.Request.{TpProcessRequest}
use sawtooth_sdk_go.Processor.Store.{data_at}
use sawtooth_sdk_go.Processor.Context.{get_state, set_state, exchange, state_reply, collect}
use sawtooth_sdk_go.Processor.Worker.{
  ProcessCodec, worker, process, or_break, run_handler, response_of, find_handler, has_version,
}
use sawtooth_sdk_go.Messaging.Message.{Message}
use sawtooth_sdk_go.Intkey.Value.{in_bounds, check_payload, new_value}
use sawtooth_sdk_go.Intkey.Handler.{
  update, last_64, put_value, encoded, written, apply, decode_cbor, decode_payload, collision_map,
  stored_in, new_intkey_handler,
}
use sawtooth_sdk_go.Intkey.Handler.Updates.{address_of}
use sawtooth_sdk_go.Intkey.Handler.Effects.{AllInBounds}
use sawtooth_sdk_go.Intkey.Handler.Served.{intkey_worker-AllInBounds}
use sawtooth_sdk_go.Intkey.Client.{get_prefix}
use sawtooth_sdk_go.Tests.Memory.{toy_digest}
use sawtooth_sdk_go.Tests.IntkeyCodec.{encode_map, decode_map, toy_cbor, toy_cbor-IsCbor}
use sawtooth_sdk_go.Tests.IntkeyTests.{
  prefix, seven, after, twelve, carrying, toy_digest-length, seven_in_bounds,
}
use sawtooth_sdk_go.Processor.Worker.Preserved.{Holds}
use sawtooth_sdk_go.Xo.Handler as XoHandler
use sawtooth_sdk_go.Xo.Handler.{xo_handler}
use sawtooth_sdk_go.Xo.Handler.Fairness.{AllFair}
use sawtooth_sdk_go.Xo.Handler.Served.{PlainSigner, xo_worker-AllFair}
use sawtooth_sdk_go.Tests.XoTests.{xo_run, request_create, alice, nothing_held}
use sawtooth_sdk_go.Tests.Validator.{
  Validator, validator, packed, pack, held_by, validator-Honours, validator-Atomic,
}

abbrev adds_5 : TpProcessRequest
adds_5 = record carrying {
  header = record {
    family_name = text "intkey";
    family_version = text "1.0";
    signer_public_key = [];
  };
}

-- every message holds the request to add 5
abbrev adding : ProcessCodec
adding = record { unmarshal_request = λ bytes. inr adds_5; marshal_response = λ response. inr [] }

abbrev one_request : Message
one_request = record { message_type = 5; correlation_id = 40 ∷ []; content = [] }

abbrev before_request : Validator
before_request = record { entries = seven; kind = 0; content = [] }

abbrev after_request : Validator
after_request = record {
  entries = after;
  kind = 10;
  content = pack (address_of toy_digest toy_cbor prefix (1 ∷ [])) twelve;
}

worker_adds :
    worker validator packed adding
      (new_intkey_handler toy_digest toy_cbor prefix ∷ [])
      (one_request ∷ [])
      before_request
    ≡ (ok tt, after_request)
unfolding worker process or_break run_handler response_of find_handler has_version
    new_intkey_handler get_state set_state exchange state_reply collect apply decode_payload
    collision_map lookup data_at bytes_eq stored_in encode_map decode_map insert hexdigest
    get_prefix decode_cbor check_payload update last_64 new_value put_value encoded written keys
    text in_bounds add_int
worker_adds = refl

intkey_worker-AllInBounds_example : AllInBounds toy_digest toy_cbor prefix (held_by after_request)
intkey_worker-AllInBounds_example =
    intkey_worker-AllInBounds validator packed adding toy_digest toy_cbor prefix held_by
      toy_cbor-IsCbor toy_digest-length validator-Honours validator-Atomic
      (λ bytes corr_id w b. refl) (one_request ∷ []) before_request after_request worker_adds
      seven_in_bounds

abbrev creates_g1 : TpProcessRequest
creates_g1 = record request_create {
  header = record {
    family_name = text "xo";
    family_version = text "1.0";
    signer_public_key = alice;
  };
}

-- every message holds the request to create a game
abbrev creating : ProcessCodec
creating = record {
  unmarshal_request = λ bytes. inr creates_g1;
  marshal_response = λ response. inr [];
}

abbrev no_games : Validator
no_games = record { entries = []; kind = 0; content = [] }

-- the second request is for the game that the first has created
abbrev one_game : Validator
one_game =
    (worker validator packed creating (xo_handler toy_digest ∷ []) (one_request ∷ one_request ∷ [])
      no_games).1

worker_creates :
    worker validator packed creating
      (xo_handler toy_digest ∷ [])
      (one_request ∷ one_request ∷ [])
      no_games
    ≡ (ok tt, one_game)
unfolding xo_run worker process or_break run_handler response_of find_handler has_version xo_handler
    XoHandler.family_name XoHandler.family_versions get_state set_state exchange state_reply collect
worker_creates = refl

alice-Plain : (m : Message) → Holds creating PlainSigner m
unfolding xo_run
alice-Plain m request reads = let same : creates_g1 ≡ request = cc in rw (← same) (ground arith)

xo_worker-AllFair_example : AllFair (held_by one_game)
xo_worker-AllFair_example =
    xo_worker-AllFair validator packed creating toy_digest held_by validator-Honours
      validator-Atomic (λ bytes corr_id w b. refl) (one_request ∷ one_request ∷ []) no_games
      one_game (alice-Plain one_request, (alice-Plain one_request, tt)) worker_creates nothing_held
