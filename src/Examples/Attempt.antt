-- ===== src/Examples/Attempt.antt =====
-- A worker stores the result of an attempt in the small database.
use webhook_delivery_platfor.Base.{◌-◌, ◌≡◌, refl, true, none, some, [], ◌∷◌, arith, find, save}
use webhook_delivery_platfor.Schema.{
  Endpoint, AttemptOutcome, delivering, retry_scheduled, Database, Delivery, DeliveryAttempt,
  find_delivery, find_attempt, find_endpoint,
}
use webhook_delivery_platfor.Errors.{ok}
use webhook_delivery_platfor.Deliveries.Claim.{ClaimedDelivery}
use webhook_delivery_platfor.Deliveries.Exchange.{Outcome}
use webhook_delivery_platfor.Deliveries.Finalize.{
  FinalizeInput, finalize_delivery, finalize_rows, judge, store_result, record_response,
  schedule_retry,
}
use webhook_delivery_platfor.Deliveries.Retry.{
  retry_delay, base_delay, jittered, time_delta, is_success, is_retryable,
}
use webhook_delivery_platfor.Deliveries.Finalize.Total.{finalize_delivery-total}
use webhook_delivery_platfor.Deliveries.Finalize.Effect.{
  finalize_delivery-effect, finalize_twice, status_after,
}
use webhook_delivery_platfor.Examples.Data.{
  sample_settings, sample_db, sample_delivery, ended_delivery, ended_attempt, sample_endpoint,
}

-- The delivery as it is while its first attempt runs.
abbrev live_delivery : Delivery
live_delivery = record sample_delivery {
  status = delivering;
  attempt_count = 1;
  lease_until = some 30000100;
}

abbrev live_endpoint : Endpoint
live_endpoint = record sample_endpoint { active_delivery_count = 1 }

abbrev live_attempt : DeliveryAttempt
live_attempt = record {
  id = 21;
  created_at = 100;
  organization_id = 7;
  delivery_id = 5;
  attempt_number = 1;
  started_at = 100;
  ended_at = none;
  outcome = AttemptOutcome.started;
  response_status = none;
  latency_ms = none;
  error_code = none;
  preview = none;
  retry_decision = none;
}

abbrev live_db : Database
live_db = record sample_db {
  deliveries = live_delivery ∷ ended_delivery ∷ [];
  endpoints = live_endpoint ∷ [];
  attempts = live_attempt ∷ ended_attempt ∷ [];
}

abbrev live_claim : ClaimedDelivery
live_claim = record {
  delivery_id = 5;
  attempt_id = 21;
  attempt_number = 1;
  event_id = 3;
  endpoint_id = 1;
  url = "https://example.com/hook";
  raw_body = 123 ∷ 125 ∷ [];
  secret = 65 ∷ 66 ∷ [];
}

abbrev pub finalize_input : FinalizeInput
finalize_input = record {
  now = 200;
  latency_ms = 3;
  encrypt = λ plain d a. record { ciphertext = plain; nonce = 1 ∷ []; key_version = 1 };
  jitter = λ base. 0;
}

-- The receiver is overloaded.
abbrev pub overloaded : Outcome
overloaded = record {
  response_status = some 503;
  response_preview = 79 ∷ 75 ∷ [];
  error_code = none;
  retry_after = some 60;
}

finalize_delivery-total_example :
    (db' : Database) × (finalize_delivery sample_settings finalize_input live_claim overloaded
        live_db
      ≡ ok db')
finalize_delivery-total_example =
    finalize_delivery-total sample_settings finalize_input live_claim overloaded live_db
      (omega arith) (omega arith, (omega arith, (omega arith, (omega arith, (omega arith, tt)))))

-- The same run, computed.
abbrev finished_db : Database
finished_db = record live_db {
  deliveries =
      record live_delivery {
        status = retry_scheduled;
        next_attempt_at = some 60000200;
        lease_until = none;
      }
      ∷ ended_delivery
      ∷ [];
  endpoints = sample_endpoint ∷ [];
  attempts =
      record live_attempt {
        ended_at = some 200;
        outcome = AttemptOutcome.failed;
        response_status = some 503;
        latency_ms = some 3;
        preview = some (record { ciphertext = 79 ∷ 75 ∷ []; nonce = 1 ∷ []; key_version = 1 });
        retry_decision = some (record { retry = true; reason = none; delay_seconds = some 60 });
      }
      ∷ ended_attempt
      ∷ [];
}

finishes :
    finalize_delivery sample_settings finalize_input live_claim overloaded live_db ≡ ok finished_db
unfolding finalize_delivery finalize_rows judge store_result record_response schedule_retry
    retry_delay base_delay jittered time_delta is_success is_retryable find save
finishes = refl

live_rows :
    (find_delivery 5 live_db.deliveries ≡ some live_delivery)
    × (find_endpoint 1 live_db.endpoints ≡ some live_endpoint)
    × (find_attempt 21 live_db.attempts ≡ some live_attempt)
unfolding find
live_rows = (refl, refl, refl)

finalize_delivery-effect_example :
    (d' : Delivery) × (find_delivery 5 finished_db.deliveries ≡ some d')
    × (d'.status ≡ status_after sample_settings overloaded 1)
    × (d'.lease_until ≡ none)
    × (d'.attempt_count ≡ 1)
    × (find_endpoint 1 finished_db.endpoints
        ≡ some (record live_endpoint { active_delivery_count = 1 - 1 }))
finalize_delivery-effect_example =
    finalize_delivery-effect sample_settings finalize_input live_claim overloaded live_db
      finished_db live_delivery live_endpoint live_attempt live_rows.0 live_rows.1 live_rows.2 refl
      finishes

finalize_twice_example :
    finalize_delivery sample_settings finalize_input live_claim
      (record overloaded { response_status = some 200 })
      finished_db
    ≡ ok finished_db
finalize_twice_example =
    finalize_twice sample_settings finalize_input finalize_input live_claim overloaded
      (record overloaded { response_status = some 200 }) live_db finished_db finishes
