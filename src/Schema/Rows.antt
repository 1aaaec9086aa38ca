-- ===== src/Schema/Rows.antt =====
-- src/webhook_platform/shared/infrastructure/models.py: the rows of the delivery tables.
-- An identifier is the 128-bit integer of its UUID, a time the microseconds since the epoch, and
-- bytes are numbers below 256.
use webhook_delivery_platfor.Base.{ℕ, String, Bool, Option, List}
use webhook_delivery_platfor.Schema.Status.{
  OrganizationStatus, DeliveryStatus, EndpointStatus, AttemptOutcome, OutboxStatus, Role, ErrorCode,
}

abbrev pub Bytes : Type 0
Bytes = List ℕ

-- WebhookEndpointModel
pub record Endpoint : Type 0 where
  pub id : ℕ
  pub created_at : ℕ
  pub organization_id : ℕ
  pub name : String
  pub url : String
  pub status : EndpointStatus
  pub enabled : Bool
  pub verification_hash : Option String
  pub verification_expires_at : Option ℕ
  pub active_delivery_count : ℕ
  pub deleted_at : Option ℕ

-- EndpointSecretModel
pub record EndpointSecret : Type 0 where
  pub id : ℕ
  pub organization_id : ℕ
  pub endpoint_id : ℕ
  pub ciphertext : Bytes
  pub nonce : Bytes
  pub key_version : ℕ
  pub active : Bool

-- EndpointSubscriptionModel
pub record EndpointSubscription : Type 0 where
  pub id : ℕ
  pub organization_id : ℕ
  pub endpoint_id : ℕ
  pub event_type : String

-- EventModel, less the column `data`: what its JSON holds is in `canonical_body`.
pub record Event : Type 0 where
  pub id : ℕ
  pub created_at : ℕ
  pub organization_id : ℕ
  pub api_key_id : ℕ
  pub event_type : String
  pub version : ℕ
  pub occurred_at : ℕ
  pub canonical_body : Bytes
  pub idempotency_key : String
  pub fingerprint : String

-- DeliveryModel
pub record Delivery : Type 0 where
  pub id : ℕ
  pub created_at : ℕ
  pub organization_id : ℕ
  pub event_id : ℕ
  pub endpoint_id : ℕ
  pub status : DeliveryStatus
  pub attempt_count : ℕ
  pub next_attempt_at : Option ℕ
  pub lease_until : Option ℕ
  pub replay_of : Option ℕ
  pub replay_idempotency_key : Option String

-- What retry_decision holds under "reason".
pub data Reason : Type 0 where
  success terminal_status : Reason
  error : ErrorCode → Reason

-- The JSON of the column retry_decision.
pub record RetryDecision : Type 0 where
  pub retry : Bool
  pub reason : Option Reason
  pub delay_seconds : Option ℕ

-- The columns preview_ciphertext, preview_nonce and preview_key_version, which are written together.
pub record Preview : Type 0 where
  pub ciphertext : Bytes
  pub nonce : Bytes
  pub key_version : ℕ

-- DeliveryAttemptModel
pub record DeliveryAttempt : Type 0 where
  pub id : ℕ
  pub created_at : ℕ
  pub organization_id : ℕ
  pub delivery_id : ℕ
  pub attempt_number : ℕ
  pub started_at : ℕ
  pub ended_at : Option ℕ
  pub outcome : AttemptOutcome
  pub response_status : Option ℕ
  pub latency_ms : Option ℕ
  pub error_code : Option ErrorCode
  pub preview : Option Preview
  pub retry_decision : Option RetryDecision

-- The JSON of the column payload.
pub record Payload : Type 0 where
  pub schema_version : ℕ
  pub delivery_id : ℕ
  pub correlation_id : ℕ

-- OutboxMessageModel
pub record OutboxMessage : Type 0 where
  pub id : ℕ
  pub created_at : ℕ
  pub topic : String
  pub aggregate_id : ℕ
  pub payload : Payload
  pub status : OutboxStatus
  pub available_at : ℕ
  pub lease_until : Option ℕ
  pub publish_attempts : ℕ
  pub published_at : Option ℕ
  pub last_error : Option String

-- UserModel
pub record User : Type 0 where
  pub id : ℕ
  pub created_at : ℕ
  pub email : String
  pub password_hash : String
  pub active : Bool

-- RefreshTokenModel
pub record RefreshToken : Type 0 where
  pub id : ℕ
  pub created_at : ℕ
  pub token_hash : String
  pub user_id : ℕ
  pub family_id : ℕ
  pub expires_at : ℕ
  pub revoked_at : Option ℕ
  pub replaced_by_id : Option ℕ

-- OrganizationModel
pub record Organization : Type 0 where
  pub id : ℕ
  pub created_at : ℕ
  pub name : String
  pub status : OrganizationStatus

-- ApiKeyModel
pub record ApiKey : Type 0 where
  pub id : ℕ
  pub created_at : ℕ
  pub organization_id : ℕ
  pub name : String
  pub prefix : String
  pub secret_digest : String
  pub digest_key_version : ℕ
  pub scopes : List String
  pub revoked_at : Option ℕ
  pub last_used_at : Option ℕ

-- MembershipModel
pub record Membership : Type 0 where
  pub id : ℕ
  pub created_at : ℕ
  pub organization_id : ℕ
  pub user_id : ℕ
  pub role : Role

-- AuditEventModel; `safe_metadata` is empty in every row that the program writes.
pub record AuditEvent : Type 0 where
  pub id : ℕ
  pub created_at : ℕ
  pub organization_id : ℕ
  pub actor_type : String
  pub actor_id : Option ℕ
  pub action : String
  pub resource_type : String
  pub resource_id : Option ℕ
  pub request_id : Option String
