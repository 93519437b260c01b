-- ===== src/Processor/Worker/Answers.antt =====
-- How the response of a worker answers the ending of `Apply`.
use sawtooth_sdk_go.Base.{◌≡◌, ◌≢◌, refl, Bytes}
use sawtooth_sdk_go.Processor.Errors.{
  Error, invalid_transaction, internal_error, authorization_exception, consensus_error, other,
  kind_text, Outcome, ok, err, panic, ok-injective,
}
use sawtooth_sdk_go.Processor.Worker.{
  process_ok, process_invalid, process_internal_error, TpProcessResponse, failure_response,
  response_of,
}

-- the responses that answer an ending of `Apply`; none answers a panic
pub data AnsweredBy : Outcome (Unit {0}) → TpProcessResponse → Type 0 where
  succeeded : {r : TpProcessResponse} → r.status ≡ process_ok → AnsweredBy (ok tt) r
  was_invalid :
      {m d : Bytes} {r : TpProcessResponse}
      → r.status ≡ process_invalid
      → r.message ≡ m
      → r.extended_data ≡ d
      → AnsweredBy (err (invalid_transaction m d)) r
  was_internal :
      {m d : Bytes} {r : TpProcessResponse}
      → r.status ≡ process_internal_error
      → r.message ≡ m
      → r.extended_data ≡ d
      → AnsweredBy (err (internal_error m d)) r
  was_unauthorized :
      {m d : Bytes} {r : TpProcessResponse}
      → r.status ≡ process_invalid
      → r.message ≡ m
      → r.extended_data ≡ d
      → AnsweredBy (err (authorization_exception m d)) r
  of_consensus :
      {k : _} {m : Bytes} {r : TpProcessResponse}
      → r.status ≡ process_internal_error
      → r.message ≡ kind_text k m
      → AnsweredBy (err (consensus_error k m)) r
  was_other :
      {m : Bytes} {r : TpProcessResponse}
      → r.status ≡ process_internal_error
      → r.message ≡ m
      → AnsweredBy (err (other m)) r

pub response_of-AnsweredBy :
    (o : Outcome (Unit {0})) (r : TpProcessResponse) → response_of o ≡ ok r → AnsweredBy o r
unfolding response_of failure_response
response_of-AnsweredBy (ok tt) r e = rw (← ok-injective e) (succeeded refl)
response_of-AnsweredBy (err (invalid_transaction m d)) r e =
    rw (← ok-injective e) (was_invalid refl refl refl)
response_of-AnsweredBy (err (internal_error m d)) r e =
    rw (← ok-injective e) (was_internal refl refl refl)
response_of-AnsweredBy (err (authorization_exception m d)) r e =
    rw (← ok-injective e) (was_unauthorized refl refl refl)
response_of-AnsweredBy (err (consensus_error k m)) r e =
    rw (← ok-injective e) (of_consensus refl refl)
response_of-AnsweredBy (err (other m)) r e = rw (← ok-injective e) (was_other refl refl)
response_of-AnsweredBy panic r e = absurd (cc)

pub response_of-not_err : (o : Outcome (Unit {0})) {e : Error} → response_of o ≢ err e
unfolding response_of
response_of-not_err (ok u) h = absurd (cc)
response_of-not_err (err x) h = absurd (cc)
response_of-not_err panic h = absurd (cc)
