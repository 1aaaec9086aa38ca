-- ===== src/Deliveries/Listings.antt =====
-- What a member sees of the deliveries: list, get and list_attempts of
-- src/webhook_platform/deliveries/application/use_cases.py, over the queries of
-- src/webhook_platform/deliveries/infrastructure/repository.py.
pub mod Previews
use webhook_delivery_platfor.Base.{
  ℕ, Bool, true, false, ◌&&◌, Option, none, some, List, String, ◌==◌, if◌then◌else◌, str_eq,
  is_empty, is_some, map,
}
use webhook_delivery_platfor.Schema.{
  Database, Settings, Bytes, Delivery, DeliveryStatus, pending, queued, delivering, retry_scheduled,
  succeeded, dead_lettered, cancelled, DeliveryAttempt, AttemptOutcome, ErrorCode, Preview,
  RetryDecision, Role, is_manager,
}
use webhook_delivery_platfor.Errors.{Result, ok, err, not_found_error, ◌>>=◌, ◌>>◌}
use webhook_delivery_platfor.Access.{Request, any_role, require_role}
use webhook_delivery_platfor.Paging.{Cursor, is_older, is_newer, page}
use webhook_delivery_platfor.Deliveries.Replay.{delivery}

-- The text in the column status.
abbrev status_text : DeliveryStatus → String
status_text pending = "pending"
status_text queued = "queued"
status_text delivering = "delivering"
status_text retry_scheduled = "retry_scheduled"
status_text succeeded = "succeeded"
status_text dead_lettered = "dead_lettered"
status_text cancelled = "cancelled"

abbrev is_wanted : Option ℕ → ℕ → Bool
is_wanted none id = true
is_wanted (some wanted) id = id == wanted

-- if status: query = query.where(status == status), where an empty text is no filter.
abbrev has_status : Option String → DeliveryStatus → Bool
has_status none s = true
has_status (some text) s = if is_empty text then true else str_eq (status_text s) text

-- The WHERE of repository.deliveries.
unfoldable pub wants : ℕ → Option ℕ → Option ℕ → Option String → Delivery → Bool
wants organization_id endpoint_id event_id status d =
    d.organization_id == organization_id
    && is_wanted endpoint_id d.endpoint_id
    && is_wanted event_id d.event_id
    && has_status status d.status

-- _view
pub record DeliveryView : Type 0 where
  pub id : ℕ
  pub event_id : ℕ
  pub endpoint_id : ℕ
  pub status : DeliveryStatus
  pub attempt_count : ℕ
  pub next_attempt_at : Option ℕ
  pub replay_of : Option ℕ
  pub created_at : ℕ

abbrev delivery_view : Delivery → DeliveryView
delivery_view d = record {
  id = d.id;
  event_id = d.event_id;
  endpoint_id = d.endpoint_id;
  status = d.status;
  attempt_count = d.attempt_count;
  next_attempt_at = d.next_attempt_at;
  replay_of = d.replay_of;
  created_at = d.created_at;
}

abbrev pub delivery_cursor : Delivery → Cursor
delivery_cursor d = record { created_at = d.created_at; id = d.id }

-- DeliveryUseCases.list
unfoldable pub list_deliveries :
    Request
    → Option ℕ
    → Option ℕ
    → Option String
    → Option Cursor
    → ℕ
    → Database
    → Result (List DeliveryView × Option Delivery)
unfolding wants
list_deliveries r endpoint_id event_id status cursor limit db = do
  role ← require_role any_role r db.memberships
  let found =
      page is_older delivery_cursor (wants r.organization_id endpoint_id event_id status) cursor
        limit db.deliveries
  ok (map delivery_view found.0, found.1)

unfoldable pub delivery_of : Option Delivery → Result Delivery
delivery_of none = err not_found_error
delivery_of (some d) = ok d

-- DeliveryUseCases.get
unfoldable pub get_delivery : Request → ℕ → Database → Result DeliveryView
get_delivery r delivery_id db = do
  role ← require_role any_role r db.memberships
  d ← delivery_of (delivery r.organization_id delivery_id db)
  ok (delivery_view d)

-- The keys response_preview and response_preview_error: the plaintext, which is shown in base64, or
-- "unavailable", or neither.
pub data PreviewView : Type 0 where
  absent unavailable : PreviewView
  plaintext : Bytes → PreviewView

-- A view of an attempt. The last key is missing where the reader is a member.
pub record AttemptView : Type 0 where
  pub id : ℕ
  pub attempt_number : ℕ
  pub started_at : ℕ
  pub ended_at : Option ℕ
  pub outcome : AttemptOutcome
  pub response_status : Option ℕ
  pub latency_ms : Option ℕ
  pub error_code : Option ErrorCode
  pub retry_decision : Option RetryDecision
  pub response_preview_available : Bool
  pub response_preview : Option PreviewView

-- AesGcmCipher.decrypt with the delivery and the attempt as associated data; none where it raises.
abbrev pub Decrypt : Type 0
Decrypt = Preview → ℕ → ℕ → Option Bytes

-- The try block for one attempt.
unfoldable pub open_preview : Decrypt → Settings → ℕ → ℕ → Preview → PreviewView
open_preview decrypt settings delivery_id attempt_id p =
    if p.key_version == settings.encryption_key_version
    then elim (decrypt p delivery_id attempt_id) [
      | none ↦ unavailable
      | some bytes ↦ plaintext bytes
    ]
    else unavailable

unfoldable pub preview_view : Decrypt → Settings → Role → ℕ → DeliveryAttempt → Option PreviewView
unfolding open_preview
preview_view decrypt settings role delivery_id a =
    if is_manager role
    then (elim a.preview [
      | none ↦ some absent
      | some p ↦ some (open_preview decrypt settings delivery_id a.id p)
    ])
    else none

unfoldable pub attempt_view : Decrypt → Settings → Role → ℕ → DeliveryAttempt → AttemptView
unfolding preview_view
attempt_view decrypt settings role delivery_id a = record {
  id = a.id;
  attempt_number = a.attempt_number;
  started_at = a.started_at;
  ended_at = a.ended_at;
  outcome = a.outcome;
  response_status = a.response_status;
  latency_ms = a.latency_ms;
  error_code = a.error_code;
  retry_decision = a.retry_decision;
  response_preview_available = is_manager role && is_some a.preview;
  response_preview = preview_view decrypt settings role delivery_id a;
}

abbrev pub attempt_cursor : DeliveryAttempt → Cursor
attempt_cursor a = record { created_at = a.created_at; id = a.id }

abbrev pub is_attempt_of : ℕ → ℕ → DeliveryAttempt → Bool
is_attempt_of organization_id delivery_id a =
    a.organization_id == organization_id && a.delivery_id == delivery_id

-- DeliveryUseCases.list_attempts, over repository.attempts: the oldest comes first.
unfoldable pub list_attempts :
    Decrypt
    → Settings
    → Request
    → ℕ
    → Option Cursor
    → ℕ
    → Database
    → Result (List AttemptView × Option DeliveryAttempt)
unfolding delivery_of attempt_view
list_attempts decrypt settings r delivery_id cursor limit db = do
  role ← require_role any_role r db.memberships
  d ← delivery_of (delivery r.organization_id delivery_id db)
  let found =
      page is_newer attempt_cursor (is_attempt_of r.organization_id delivery_id) cursor limit
        db.attempts
  ok (map (attempt_view decrypt settings role delivery_id) found.0, found.1)
