-- ===== src/Maintenance/Reconcile.antt =====
-- src/webhook_platform/maintenance/application/reconcile.py: schedule_due and reconcile_stale.
pub mod Refines
use webhook_delivery_platfor.Base.{
  ℕ, ◌-◌, not, Bool, true, false, ◌&&◌, ◌||◌, Option, none, some, List, [], ◌∷◌, leb, ltb, ◌==◌,
  if◌then◌else◌, query, first, select, order_by,
}
use webhook_delivery_platfor.Schema.{
  Database, Settings, Delivery, DeliveryAttempt, Endpoint, queued, retry_scheduled, dead_lettered,
  AttemptOutcome, stale_lease, is_retry_scheduled, is_delivering, is_started, delivery_key,
  find_endpoint, save_delivery, save_endpoint, save_attempt,
}
use webhook_delivery_platfor.Outbox.Messages.{execute_command}

-- A comparison with NULL is not true.
abbrev pub at_or_before : ℕ → Option ℕ → Bool
at_or_before now none = false
at_or_before now (some t) = leb t now

abbrev pub passed : ℕ → Option ℕ → Bool
passed now none = false
passed now (some t) = ltb t now

unfoldable pub is_due : ℕ → Delivery → Bool
is_due now d = is_retry_scheduled d.status && at_or_before now d.next_attempt_at

-- ORDER BY next_attempt_at, id (the rows in question have a time).
abbrev pub earlier : Option ℕ → Option ℕ → Bool
earlier (some s) (some t) = ltb s t
earlier _ _ = false

abbrev pub due_before : Delivery → Delivery → Bool
due_before d e =
    earlier d.next_attempt_at e.next_attempt_at
    || (not (earlier e.next_attempt_at d.next_attempt_at) && ltb d.id e.id)

-- The body of the first loop. `message_id` gives the key of the row that it adds.
unfoldable pub schedule_one : ℕ → (ℕ → ℕ) → Delivery → Database → Database
schedule_one now message_id d db =
    let d' = record d { status = queued; next_attempt_at = none } in
    record db {
      deliveries = save_delivery d' db.deliveries;
      outbox = execute_command (message_id d.id) now d' ∷ db.outbox;
    }

unfoldable pub schedule_all : ℕ → (ℕ → ℕ) → List Delivery → Database → Database
schedule_all now message_id [] db = db
schedule_all now message_id (d ∷ ds) db =
    schedule_all now message_id ds (schedule_one now message_id d db)

unfoldable pub schedule_due : Settings → ℕ → (ℕ → Bool) → (ℕ → ℕ) → Database → Database
unfolding is_due
schedule_due settings now locked message_id db =
    schedule_all now message_id
      (query delivery_key (is_due now) due_before locked settings.retry_batch_size db.deliveries) db

unfoldable pub is_stale : ℕ → Delivery → Bool
is_stale now d = is_delivering d.status && passed now d.lease_until

-- The started attempt of a delivery with the greatest number.
abbrev pub started_for : ℕ → DeliveryAttempt → Bool
started_for delivery_id a = a.delivery_id == delivery_id && is_started a.outcome

abbrev pub later_attempt : DeliveryAttempt → DeliveryAttempt → Bool
later_attempt a b = ltb b.attempt_number a.attempt_number

unfoldable pub latest_started : ℕ → List DeliveryAttempt → Option DeliveryAttempt
latest_started delivery_id t = first (order_by later_attempt (select (started_for delivery_id) t))

unfoldable pub abandon : Settings → ℕ → Delivery → DeliveryAttempt → DeliveryAttempt
abandon settings now d a = record a {
  outcome = AttemptOutcome.unknown;
  ended_at = some now;
  error_code = some stale_lease;
  retry_decision = some (record {
    retry = ltb d.attempt_count settings.max_delivery_attempts;
    reason = none;
    delay_seconds = none;
  });
}

abbrev pub abandon_found :
    Settings → ℕ → Delivery → Option DeliveryAttempt → List DeliveryAttempt → List DeliveryAttempt
abandon_found settings now d none t = t
abandon_found settings now d (some a) t = save_attempt (abandon settings now d a) t

-- max(0, active_delivery_count - 1) on the endpoint, if there is one.
abbrev pub release_slot : Option Endpoint → List Endpoint → List Endpoint
release_slot none t = t
release_slot (some e) t =
    save_endpoint (record e { active_delivery_count = e.active_delivery_count - 1 }) t

unfoldable pub requeue : Settings → ℕ → Delivery → Delivery
requeue settings now d =
    if ltb d.attempt_count settings.max_delivery_attempts
    then record d { lease_until = none; status = retry_scheduled; next_attempt_at = some now }
    else record d { lease_until = none; status = dead_lettered }

-- The body of the second loop.
unfoldable pub reconcile_one : Settings → ℕ → Delivery → Database → Database
unfolding requeue abandon
reconcile_one settings now d db = record db {
  attempts = abandon_found settings now d (latest_started d.id db.attempts) db.attempts;
  endpoints = release_slot (find_endpoint d.endpoint_id db.endpoints) db.endpoints;
  deliveries = save_delivery (requeue settings now d) db.deliveries;
}

unfoldable pub reconcile_all : Settings → ℕ → List Delivery → Database → Database
reconcile_all settings now [] db = db
reconcile_all settings now (d ∷ ds) db =
    reconcile_all settings now ds (reconcile_one settings now d db)

-- The query has no ORDER BY: `before` is the order in which the database happens to answer.
unfoldable pub reconcile_stale :
    Settings → ℕ → (Delivery → Delivery → Bool) → (ℕ → Bool) → Database → Database
unfolding is_stale
reconcile_stale settings now before locked db =
    reconcile_all settings now
      (query delivery_key (is_stale now) before locked settings.retry_batch_size db.deliveries) db
