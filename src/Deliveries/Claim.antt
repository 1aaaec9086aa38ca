-- ===== src/Deliveries/Claim.antt =====
-- src/webhook_platform/deliveries/infrastructure/processor.py, claim_delivery: the transaction in
-- which a worker takes a delivery. Each function below is the rest of the body after one more
-- row has been read.
pub mod Refines
pub mod Names
pub mod Outcome
use webhook_delivery_platfor.Base.{
  ℕ, ◌+◌, Bool, false, ◌&&◌, ◌||◌, not, Option, none, some, List, [], ◌∷◌, String, leb, ◌==◌,
  if◌then◌else◌,
}
use webhook_delivery_platfor.Schema.{
  Database, Settings, Endpoint, EndpointSecret, Event, Delivery, DeliveryAttempt, Bytes, delivering,
  retry_scheduled, cancelled, dead_lettered, AttemptOutcome, secret_unavailable, is_queued,
  is_active, find_delivery, find_endpoint, find_event, save_delivery, save_endpoint, seconds, error,
}

-- ClaimedDelivery
pub record ClaimedDelivery : Type 0 where
  pub delivery_id : ℕ
  pub attempt_id : ℕ
  pub attempt_number : ℕ
  pub event_id : ℕ
  pub endpoint_id : ℕ
  pub url : String
  pub raw_body : Bytes
  pub secret : Bytes

-- What the transaction takes from outside: the database's time, the key of a new row, and the
-- decryption of the third-party cipher (ciphertext, nonce, associated data), none where the tag
-- does not fit.
pub record ClaimInput : Type 0 where
  pub now : ℕ
  pub new_id : ℕ
  pub decrypt : Bytes → Bytes → ℕ → Option Bytes

abbrev pub put_delivery : Delivery → Database → Database
put_delivery d db = record db { deliveries = save_delivery d db.deliveries }

-- A row that DeliveryAttemptModel(...) makes for the delivery, with the columns' defaults.
unfoldable pub new_attempt : ClaimInput → Delivery → DeliveryAttempt
new_attempt i d = record {
  id = i.new_id;
  created_at = i.now;
  organization_id = d.organization_id;
  delivery_id = d.id;
  attempt_number = d.attempt_count;
  started_at = i.now;
  ended_at = none;
  outcome = AttemptOutcome.started;
  response_status = none;
  latency_ms = none;
  error_code = none;
  preview = none;
  retry_decision = none;
}

-- The secret is not there or cannot be read: the delivery is dead.
unfoldable pub refuse_secret : ClaimInput → Delivery → Database → Database
unfolding new_attempt
refuse_secret i d db =
    let d' = record d { attempt_count = d.attempt_count + 1; status = dead_lettered } in
    let attempt = record (new_attempt i d') {
      ended_at = some i.now;
      outcome = AttemptOutcome.failed;
      error_code = some secret_unavailable;
      retry_decision = some (record {
        retry = false;
        reason = some (error secret_unavailable);
        delay_seconds = none;
      });
    } in
    record db { deliveries = save_delivery d' db.deliveries; attempts = attempt ∷ db.attempts }

-- The delivery with its lease and one more attempt.
unfoldable pub lease : Settings → ClaimInput → Delivery → Delivery
lease settings i d = record d {
  attempt_count = d.attempt_count + 1;
  status = delivering;
  lease_until = some (i.now + seconds settings.delivery_lease_seconds);
}

unfoldable pub begin_attempt :
    Settings
    → ClaimInput
    → Delivery
    → Endpoint
    → Event
    → Bytes
    → Database
    → Database × Option ClaimedDelivery
unfolding lease new_attempt
begin_attempt settings i d e event secret db =
    let d' = lease settings i d in
    let e' = record e { active_delivery_count = e.active_delivery_count + 1 } in
    let attempt = new_attempt i d' in
    (
      record db {
        deliveries = save_delivery d' db.deliveries;
        endpoints = save_endpoint e' db.endpoints;
        attempts = attempt ∷ db.attempts;
      },
      some (record {
        delivery_id = d'.id;
        attempt_id = attempt.id;
        attempt_number = attempt.attempt_number;
        event_id = event.id;
        endpoint_id = e.id;
        url = e.url;
        raw_body = event.canonical_body;
        secret = secret;
      }),
    )

-- The secret of another key version, or one that the cipher refuses, is unavailable.
unfoldable pub read_secret : Settings → ClaimInput → Endpoint → EndpointSecret → Option Bytes
read_secret settings i e s =
    if s.key_version == settings.encryption_key_version
    then i.decrypt s.ciphertext s.nonce e.id
    else none

-- The active secret of an endpoint.
unfoldable pub active_secret : ℕ → List EndpointSecret → Option EndpointSecret
active_secret endpoint_id [] = none
active_secret endpoint_id (s ∷ t) =
    if s.endpoint_id == endpoint_id && s.active then some s else active_secret endpoint_id t

unfoldable pub claim_with_secret :
    Settings
    → ClaimInput
    → Delivery
    → Endpoint
    → Event
    → Option EndpointSecret
    → Database
    → Database × Option ClaimedDelivery
unfolding refuse_secret begin_attempt read_secret
claim_with_secret settings i d e event none db = (refuse_secret i d db, none)
claim_with_secret settings i d e event (some s) db = elim (read_secret settings i e s) [
  | none ↦ (refuse_secret i d db, none)
  | some secret ↦ begin_attempt settings i d e event secret db
]

-- Whether the table refuses the delivery's next attempt: CHECK attempt_count <= 6, and the unique
-- constraint on (delivery_id, attempt_number).
unfoldable pub has_number : ℕ → ℕ → List DeliveryAttempt → Bool
has_number delivery_id n [] = false
has_number delivery_id n (a ∷ t) =
    a.delivery_id == delivery_id && a.attempt_number == n || has_number delivery_id n t

unfoldable pub is_refused : Delivery → List DeliveryAttempt → Bool
unfolding has_number
is_refused d attempts = leb 6 d.attempt_count || has_number d.id (d.attempt_count + 1) attempts

-- Where the table refuses the attempt, the flush raises an IntegrityError: the transaction is rolled
-- back, and nothing is handed out.
unfoldable pub claim_with_event :
    Settings
    → ClaimInput
    → Delivery
    → Endpoint
    → Option Event
    → Database
    → Database × Option ClaimedDelivery
unfolding claim_with_secret active_secret is_refused
claim_with_event settings i d e none db =
    (put_delivery (record d { status = dead_lettered }) db, none)
claim_with_event settings i d e (some event) db =
    if is_refused d db.attempts
    then (db, none)
    else claim_with_secret settings i d e event (active_secret e.id db.secrets) db

unfoldable pub claim_with_endpoint :
    Settings
    → ClaimInput
    → Delivery
    → Option Endpoint
    → Database
    → Database × Option ClaimedDelivery
unfolding claim_with_event
claim_with_endpoint settings i d none db = (put_delivery (record d { status = cancelled }) db, none)
claim_with_endpoint settings i d (some e) db =
    if not (is_active e.status) || not e.enabled
    then (put_delivery (record d { status = cancelled }) db, none)
    else (if leb 3 e.active_delivery_count
        then (
          put_delivery
              (record d { status = retry_scheduled; next_attempt_at = some (i.now + seconds 1) })
              db,
          none,
        )
        else claim_with_event settings i d e (find_event d.event_id db.events) db)

unfoldable pub claim_with_delivery :
    Settings → ClaimInput → Option Delivery → Database → Database × Option ClaimedDelivery
unfolding claim_with_endpoint
claim_with_delivery settings i none db = (db, none)
claim_with_delivery settings i (some d) db =
    if is_queued d.status
    then claim_with_endpoint settings i d (find_endpoint d.endpoint_id db.endpoints) db
    else (db, none)

unfoldable pub claim_delivery :
    Settings → ClaimInput → ℕ → Database → Database × Option ClaimedDelivery
unfolding claim_with_delivery
claim_delivery settings i delivery_id db =
    claim_with_delivery settings i (find_delivery delivery_id db.deliveries) db
