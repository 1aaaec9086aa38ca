-- ===== src/Schema.antt =====
-- src/webhook_platform/shared/infrastructure/models.py: the tables of one database, and
-- src/webhook_platform/config/settings.py: the settings that the modelled code reads.
mod Status
mod Rows
pub use Status.*
pub use Rows.*
use webhook_delivery_platfor.Base.{ℕ, ◌*◌, Bool, String, Option, List, find, save}

pub record Database : Type 0 where
  pub endpoints : List Endpoint
  pub secrets : List EndpointSecret
  pub subscriptions : List EndpointSubscription
  pub events : List Event
  pub deliveries : List Delivery
  pub attempts : List DeliveryAttempt
  pub outbox : List OutboxMessage
  pub memberships : List Membership
  pub audits : List AuditEvent
  pub users : List User
  pub refresh_tokens : List RefreshToken
  pub organizations : List Organization
  pub api_keys : List ApiKey

-- The primary keys.
abbrev pub endpoint_key : Endpoint → ℕ
endpoint_key e = e.id

abbrev pub event_key : Event → ℕ
event_key e = e.id

abbrev pub delivery_key : Delivery → ℕ
delivery_key d = d.id

abbrev pub attempt_key : DeliveryAttempt → ℕ
attempt_key a = a.id

abbrev pub outbox_key : OutboxMessage → ℕ
outbox_key m = m.id

abbrev pub membership_key : Membership → ℕ
membership_key m = m.id

abbrev pub token_key : RefreshToken → ℕ
token_key t = t.id

abbrev pub user_key : User → ℕ
user_key u = u.id

abbrev pub organization_key : Organization → ℕ
organization_key o = o.id

abbrev pub api_key_key : ApiKey → ℕ
api_key_key k = k.id

abbrev pub audit_key : AuditEvent → ℕ
audit_key a = a.id

abbrev pub find_endpoint : ℕ → List Endpoint → Option Endpoint
find_endpoint = find endpoint_key

abbrev pub find_event : ℕ → List Event → Option Event
find_event = find event_key

abbrev pub find_delivery : ℕ → List Delivery → Option Delivery
find_delivery = find delivery_key

abbrev pub find_attempt : ℕ → List DeliveryAttempt → Option DeliveryAttempt
find_attempt = find attempt_key

abbrev pub find_message : ℕ → List OutboxMessage → Option OutboxMessage
find_message = find outbox_key

abbrev pub save_endpoint : Endpoint → List Endpoint → List Endpoint
save_endpoint = save endpoint_key

abbrev pub save_delivery : Delivery → List Delivery → List Delivery
save_delivery = save delivery_key

abbrev pub save_attempt : DeliveryAttempt → List DeliveryAttempt → List DeliveryAttempt
save_attempt = save attempt_key

abbrev pub save_message : OutboxMessage → List OutboxMessage → List OutboxMessage
save_message = save outbox_key

pub data Environment : Type 0 where
  development test production : Environment

-- Settings, as far as the modelled code reads them.
pub record Settings : Type 0 where
  pub environment : Environment
  pub allow_test_receiver : Bool
  pub test_receiver_url : String
  pub jwt_issuer : String
  pub jwt_audience : String
  pub access_ttl_seconds : ℕ
  pub refresh_ttl_seconds : ℕ
  pub api_key_digest_version : ℕ
  pub accept_test_api_keys : Bool
  pub encryption_key_version : ℕ
  pub event_body_limit : ℕ
  pub event_json_depth_limit : ℕ
  pub endpoint_limit : ℕ
  pub backlog_limit : ℕ
  pub response_preview_limit : ℕ
  pub delivery_lease_seconds : ℕ
  pub outbox_batch_size : ℕ
  pub retry_batch_size : ℕ
  pub max_delivery_attempts : ℕ
  pub retry_delays_seconds : List ℕ
  pub metadata_retention_days : ℕ
  pub preview_retention_days : ℕ
  pub audit_retention_days : ℕ

-- timedelta(seconds=n), in microseconds.
abbrev pub seconds : ℕ → ℕ
seconds n = n * 1000000
