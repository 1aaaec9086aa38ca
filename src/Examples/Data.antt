-- ===== src/Examples/Data.antt =====
-- A small database: one endpoint, one event, and two deliveries, of which one has ended.
use webhook_delivery_platfor.Base.{refl, true, false, none, some, [], ◌∷◌, arith, count, find}
use webhook_delivery_platfor.Schema.{
  Database, Settings, production, Endpoint, EndpointSecret, Event, Delivery, DeliveryAttempt,
  DeliveryStatus, EndpointStatus, AttemptOutcome, queued, owner,
}
use webhook_delivery_platfor.Access.{Request}
use webhook_delivery_platfor.Ledger.{IsBalanced}
use webhook_delivery_platfor.System.{Platform}
use webhook_delivery_platfor.System.Balance.{IsSound}
use webhook_delivery_platfor.Deliveries.Claim.{ClaimInput}

abbrev pub sample_settings : Settings
sample_settings = record {
  environment = production;
  allow_test_receiver = false;
  test_receiver_url = "http://test-receiver:8080/webhook";
  jwt_issuer = "webhook-platform";
  jwt_audience = "webhook-platform-api";
  access_ttl_seconds = 900;
  refresh_ttl_seconds = 2592000;
  api_key_digest_version = 1;
  accept_test_api_keys = true;
  encryption_key_version = 1;
  event_body_limit = 262144;
  event_json_depth_limit = 20;
  endpoint_limit = 20;
  backlog_limit = 10000;
  response_preview_limit = 4096;
  delivery_lease_seconds = 30;
  outbox_batch_size = 100;
  retry_batch_size = 100;
  max_delivery_attempts = 6;
  retry_delays_seconds = 30 ∷ 120 ∷ 600 ∷ 3600 ∷ 21600 ∷ [];
  metadata_retention_days = 30;
  preview_retention_days = 7;
  audit_retention_days = 90;
}

abbrev pub sample_endpoint : Endpoint
sample_endpoint = record {
  id = 1;
  created_at = 10;
  organization_id = 7;
  name = "orders";
  url = "https://example.com/hook";
  status = EndpointStatus.active;
  enabled = true;
  verification_hash = none;
  verification_expires_at = none;
  active_delivery_count = 0;
  deleted_at = none;
}

abbrev pub sample_secret : EndpointSecret
sample_secret = record {
  id = 2;
  organization_id = 7;
  endpoint_id = 1;
  ciphertext = 65 ∷ 66 ∷ [];
  nonce = 1 ∷ [];
  key_version = 1;
  active = true;
}

abbrev pub sample_event : Event
sample_event = record {
  id = 3;
  created_at = 20;
  organization_id = 7;
  api_key_id = 8;
  event_type = "order.created";
  version = 1;
  occurred_at = 15;
  canonical_body = 123 ∷ 125 ∷ [];
  idempotency_key = "0123456789abcdef";
  fingerprint = "f";
}

abbrev pub sample_delivery : Delivery
sample_delivery = record {
  id = 5;
  created_at = 20;
  organization_id = 7;
  event_id = 3;
  endpoint_id = 1;
  status = queued;
  attempt_count = 0;
  next_attempt_at = none;
  lease_until = none;
  replay_of = none;
  replay_idempotency_key = none;
}

abbrev pub ended_delivery : Delivery
ended_delivery = record sample_delivery {
  id = 6;
  status = DeliveryStatus.succeeded;
  attempt_count = 1;
}

abbrev pub ended_attempt : DeliveryAttempt
ended_attempt = record {
  id = 20;
  created_at = 21;
  organization_id = 7;
  delivery_id = 6;
  attempt_number = 1;
  started_at = 21;
  ended_at = some 22;
  outcome = AttemptOutcome.succeeded;
  response_status = some 200;
  latency_ms = some 12;
  error_code = none;
  preview = none;
  retry_decision = none;
}

abbrev pub sample_db : Database
sample_db = record {
  endpoints = sample_endpoint ∷ [];
  secrets = sample_secret ∷ [];
  subscriptions =
      record { id = 9; organization_id = 7; endpoint_id = 1; event_type = "order.created" } ∷ [];
  events = sample_event ∷ [];
  deliveries = sample_delivery ∷ ended_delivery ∷ [];
  attempts = ended_attempt ∷ [];
  outbox = [];
  memberships =
      record { id = 11; created_at = 1; organization_id = 7; user_id = 12; role = owner } ∷ [];
  audits = [];
  users = [];
  refresh_tokens = [];
  organizations = [];
  api_keys = [];
}

abbrev pub sample_request : Request
sample_request = record {
  user_id = 12;
  organization_id = 7;
  now = 1000;
  audit_id = 90;
  request_id = none;
}

abbrev pub sample_input : ClaimInput
sample_input = record { now = 100; new_id = 21; decrypt = λ ciphertext nonce id. some ciphertext }

abbrev pub sample_platform : Platform
sample_platform = record { db = sample_db; claims = [] }

pub sample-IsBalanced : IsBalanced 6 sample_db
unfolding find count
sample-IsBalanced = record {
  delivery_ids = (refl, (refl, tt));
  attempt_ids = (refl, tt);
  bounded = λ id d h. ground arith;
  room = λ id d h w. ground arith;
  counted = λ id. ground arith;
  capacity = λ id. ground arith;
  leased = λ id. ground arith;
}

pub sample-IsSound : IsSound sample_settings sample_platform
sample-IsSound = record { balanced = sample-IsBalanced; named = tt }
