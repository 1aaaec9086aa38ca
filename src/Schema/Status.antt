-- ===== src/Schema/Status.antt =====
-- src/webhook_platform/shared/infrastructure/models.py: the values that the check constraints
-- allow in the status columns, and the tests that the program makes on them.
use mathlib.Core.Bool.{Bool, true, false}

-- Constraint delivery_status.
pub data DeliveryStatus : Type 0 where
  pending queued delivering retry_scheduled succeeded dead_lettered cancelled : DeliveryStatus

-- Constraint endpoint_status.
pub data EndpointStatus : Type 0 where
  pending_verification active disabled deleted : EndpointStatus

-- Constraint attempt_outcome.
pub data AttemptOutcome : Type 0 where
  started succeeded failed unknown : AttemptOutcome

-- Constraint outbox_status.
pub data OutboxStatus : Type 0 where
  pending published : OutboxStatus

-- Constraint membership_role.
pub data Role : Type 0 where
  owner admin member : Role

-- Constraint organization_status.
pub data OrganizationStatus : Type 0 where
  active disabled : OrganizationStatus

-- The values that the worker and the reconciler store in error_code.
pub data ErrorCode : Type 0 where
  secret_unavailable unsafe_destination network_error http_error stale_lease : ErrorCode

-- status == "queued"
abbrev pub is_queued : DeliveryStatus → Bool
is_queued queued = true
is_queued _ = false

-- status == "delivering"
abbrev pub is_delivering : DeliveryStatus → Bool
is_delivering delivering = true
is_delivering _ = false

-- status == "retry_scheduled"
abbrev pub is_retry_scheduled : DeliveryStatus → Bool
is_retry_scheduled retry_scheduled = true
is_retry_scheduled _ = false

-- status.in_(["succeeded", "dead_lettered", "cancelled"])
abbrev pub is_terminal : DeliveryStatus → Bool
is_terminal DeliveryStatus.succeeded = true
is_terminal dead_lettered = true
is_terminal cancelled = true
is_terminal _ = false

-- status.in_(["pending", "queued", "retry_scheduled"])
abbrev pub is_waiting : DeliveryStatus → Bool
is_waiting DeliveryStatus.pending = true
is_waiting queued = true
is_waiting retry_scheduled = true
is_waiting _ = false

-- status == "active"
abbrev pub is_active : EndpointStatus → Bool
is_active active = true
is_active _ = false

-- status == "disabled"
abbrev pub is_disabled : EndpointStatus → Bool
is_disabled disabled = true
is_disabled _ = false

-- outcome == "started"
abbrev pub is_started : AttemptOutcome → Bool
is_started started = true
is_started _ = false

-- status == "pending"
abbrev pub is_pending : OutboxStatus → Bool
is_pending OutboxStatus.pending = true
is_pending published = false

-- role == "owner"
abbrev pub is_owner : Role → Bool
is_owner owner = true
is_owner _ = false

-- role in {"owner", "admin"}
abbrev pub is_manager : Role → Bool
is_manager member = false
is_manager _ = true
