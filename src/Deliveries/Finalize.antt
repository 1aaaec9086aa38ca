-- ===== src/Deliveries/Finalize.antt =====
-- src/webhook_platform/deliveries/infrastructure/processor.py, finalize_delivery: the transaction
-- in which a worker stores the result of its attempt.
pub mod Refines
pub mod Effect
pub mod Total
use webhook_delivery_platfor.Base.{
  ℕ, ◌+◌, ◌-◌, Bool, true, false, ◌&&◌, Option, none, some, [], ◌∷◌, leb, ltb, if◌then◌else◌,
}
use webhook_delivery_platfor.Schema.{
  Database, Settings, Endpoint, Delivery, DeliveryAttempt, Bytes, Preview, Reason, DeliveryStatus,
  retry_scheduled, dead_lettered, AttemptOutcome, ErrorCode, network_error, http_error, is_started,
  find_delivery, find_endpoint, find_attempt, save_delivery, save_endpoint, save_attempt, seconds,
  error, success, terminal_status,
}
use webhook_delivery_platfor.Errors.{Result, ok, err, overflow_error}
use webhook_delivery_platfor.Deliveries.Retry.{is_success, is_retryable, retry_delay}
use webhook_delivery_platfor.Deliveries.Claim.{ClaimedDelivery}
use webhook_delivery_platfor.Deliveries.Exchange.{Outcome}

-- What the transaction takes from outside: the database's time, the latency that the worker
-- measured, the third-party cipher (plaintext, delivery and attempt), and the jitter on floats.
pub record FinalizeInput : Type 0 where
  pub now : ℕ
  pub latency_ms : ℕ
  pub encrypt : Bytes → ℕ → ℕ → Preview
  pub jitter : ℕ → ℕ

-- error_code in {"network_error", "http_error"}
abbrev pub is_network_error : Option ErrorCode → Bool
is_network_error (some network_error) = true
is_network_error (some http_error) = true
is_network_error _ = false

-- error_code or "terminal_status"
abbrev pub final_reason : Option ErrorCode → Reason
final_reason none = terminal_status
final_reason (some code) = error code

-- A preview is stored if there is one.
abbrev pub stored_preview : FinalizeInput → ℕ → ℕ → Option Preview → Bytes → Option Preview
stored_preview i delivery_id attempt_id old [] = old
stored_preview i delivery_id attempt_id old (b ∷ bs) =
    some (i.encrypt (b ∷ bs) delivery_id attempt_id)

-- The result's columns of the attempt.
unfoldable pub record_response :
    FinalizeInput → Outcome → Delivery → DeliveryAttempt → DeliveryAttempt
record_response i o d a = record a {
  ended_at = some i.now;
  response_status = o.response_status;
  latency_ms = some i.latency_ms;
  error_code = o.error_code;
  preview = stored_preview i d.id a.id a.preview o.response_preview;
}

-- The last microsecond of the year 9999, since the epoch: no datetime is later (OverflowError).
abbrev pub last_time : ℕ
last_time = 253402300799999999

unfoldable pub schedule_retry :
    FinalizeInput → Delivery → DeliveryAttempt → Result ℕ → Result (Delivery × DeliveryAttempt)
schedule_retry i d a (err e) = err e
schedule_retry i d a (ok delay) =
    if leb (i.now + seconds delay) last_time
    then ok (
      record d { status = retry_scheduled; next_attempt_at = some (i.now + seconds delay) },
      record a {
        outcome = AttemptOutcome.failed;
        retry_decision = some (record { retry = true; reason = none; delay_seconds = some delay });
      },
    )
    else err overflow_error

-- The branch on the result: success, another attempt, or the end.
unfoldable pub judge :
    Settings
    → FinalizeInput
    → Outcome
    → Delivery
    → DeliveryAttempt
    → Result (Delivery × DeliveryAttempt)
unfolding schedule_retry
judge settings i o d a =
    if is_success o.response_status
    then ok (
      record d { status = DeliveryStatus.succeeded },
      record a {
        outcome = AttemptOutcome.succeeded;
        retry_decision =
            some (record { retry = false; reason = some success; delay_seconds = none });
      },
    )
    else (if is_retryable o.response_status (is_network_error o.error_code)
          && ltb d.attempt_count settings.max_delivery_attempts
        then schedule_retry i d a
            (retry_delay i.jitter d.attempt_count settings.retry_delays_seconds o.retry_after)
        else ok (
          record d { status = dead_lettered },
          record a {
            outcome = AttemptOutcome.failed;
            retry_decision = some (record {
              retry = false;
              reason = some (final_reason o.error_code);
              delay_seconds = none;
            });
          },
        ))

-- The end of the transaction: the lease and the endpoint's slot are given back.
unfoldable pub store_result :
    Endpoint → Database → Result (Delivery × DeliveryAttempt) → Result Database
store_result e db (err x) = err x
store_result e db (ok (d, a)) = ok (record db {
  deliveries = save_delivery (record d { lease_until = none }) db.deliveries;
  endpoints =
      save_endpoint (record e { active_delivery_count = e.active_delivery_count - 1 }) db.endpoints;
  attempts = save_attempt a db.attempts;
})

unfoldable pub finalize_rows :
    Settings
    → FinalizeInput
    → Outcome
    → Option Delivery
    → Option Endpoint
    → Option DeliveryAttempt
    → Database
    → Result Database
unfolding judge store_result record_response
finalize_rows settings i o (some d) (some e) (some a) db =
    if is_started a.outcome
    then store_result e db (judge settings i o d (record_response i o d a))
    else ok db
finalize_rows settings i o _ _ _ db = ok db

-- `err` is an exception in the transaction, which then has no effect.
unfoldable pub finalize_delivery :
    Settings → FinalizeInput → ClaimedDelivery → Outcome → Database → Result Database
unfolding finalize_rows
finalize_delivery settings i c o db =
    finalize_rows settings i o (find_delivery c.delivery_id db.deliveries)
      (find_endpoint c.endpoint_id db.endpoints) (find_attempt c.attempt_id db.attempts) db
