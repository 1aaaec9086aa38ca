-- ===== src/Events/Ingest.antt =====
-- src/webhook_platform/events/application/use_cases.py, EventUseCases.ingest.
pub mod Refines
pub mod Idempotent
use webhook_delivery_platfor.Base.{
  ℕ, ◌+◌, ◌*◌, Bool, true, false, not, ◌&&◌, ◌||◌, Option, none, some, List, [], ◌∷◌, String, leb,
  ltb, if◌then◌else◌, str_eq, length, codes,
}
use webhook_delivery_platfor.Schema.{Database, Settings, Event, Bytes, seconds}
use webhook_delivery_platfor.Errors.{Exception, Result, ok, err, app, app_error, ◌>>=◌, ◌>>◌}
use webhook_delivery_platfor.Events.EventType.{bad_event_type}
use webhook_delivery_platfor.Events.CanonicalJson.{
  Json, canonicalize, event_fingerprint, text, integer, object, end, field,
}
use webhook_delivery_platfor.Events.Repository.{
  NewIds, projected_backlog, existing_idempotency, create_event_graph,
}

-- The principal and the body of POST /events; `occurred_at` is none where it has no time zone.
pub record EventInput : Type 0 where
  pub organization_id : ℕ
  pub api_key_id : ℕ
  pub idempotency_key : String
  pub event_type : String
  pub version : ℕ
  pub occurred_at : Option ℕ
  pub payload : Json

-- json.dumps, datetime.isoformat with Z, the text of an identifier, and SHA-256.
pub record Encoders : Type 0 where
  pub dumps : Json → Option Bytes
  pub isoformat : ℕ → String
  pub id_text : ℕ → Bytes
  pub sha256 : Bytes → String

unfoldable pub all_visible : List ℕ → Bool
all_visible [] = true
all_visible (c ∷ cs) = not (ltb c 33 || ltb 126 c) && all_visible cs

unfoldable pub bad_key : String → Bool
unfolding codes all_visible
bad_key key =
    not (leb 16 (length (codes key)) && leb (length (codes key)) 128)
    || not (all_visible (codes key))

abbrev pub require : Bool → Exception → Result (Unit {0})
require true e = ok tt
require false e = err e

unfoldable pub check_occurred_at : ℕ → Option ℕ → Result ℕ
check_occurred_at now none =
    err (app_error "invalid_occurred_at" "occurred_at must include timezone" 422)
check_occurred_at now (some t) =
    if ltb (now + seconds (5 * 60)) t
    then err (app_error "invalid_occurred_at" "occurred_at is too far in the future" 422)
    else ok t

unfoldable pub document : Encoders → EventInput → ℕ → Json
document enc i occurred_at = object (
    field "data" i.payload (
      field "occurred_at" (text (enc.isoformat occurred_at))
        (field "type" (text i.event_type) (field "version" (integer i.version) end))))

-- The part of `ingest` that does not read the database: the event row that would be stored.
unfoldable pub prepare : Settings → Encoders → ℕ → ℕ → EventInput → Result Event
unfolding bad_key check_occurred_at document
prepare settings enc now event_id i = do
  require (not (bad_key i.idempotency_key))
      (app_error "invalid_idempotency_key" "Idempotency-Key is invalid" 422)
  require (not (bad_event_type i.event_type))
      (app_error "invalid_event_type" "Event type is invalid" 422)
  require (leb 1 i.version && leb i.version 32767)
      (app_error "invalid_event_version" "Event version is invalid" 422)
  occurred_at ← check_occurred_at now i.occurred_at
  body ←
      canonicalize enc.dumps settings.event_body_limit settings.event_json_depth_limit
        (document enc i occurred_at)
  ok (record {
    id = event_id;
    created_at = now;
    organization_id = i.organization_id;
    api_key_id = i.api_key_id;
    event_type = i.event_type;
    version = i.version;
    occurred_at = occurred_at;
    canonical_body = body;
    idempotency_key = i.idempotency_key;
    fingerprint = event_fingerprint enc.id_text enc.sha256 i.organization_id i.api_key_id body;
  })

pub record Accepted : Type 0 where
  pub event_id : ℕ
  pub delivery_count : ℕ
  pub created_at : ℕ
  pub replayed : Bool

-- _idempotent_result
unfoldable pub idempotent_result : String → Event × ℕ → Result Accepted
idempotent_result fingerprint (e, deliveries) =
    if str_eq e.fingerprint fingerprint
    then ok (record {
      event_id = e.id;
      delivery_count = deliveries;
      created_at = e.created_at;
      replayed = true;
    })
    else err (
        app_error "idempotency_conflict" "Idempotency key was used with different event content"
          409)

abbrev pub backlog_error : Exception
backlog_error = app (record {
  code = "backlog_limit_exceeded";
  message = "Organization delivery backlog limit exceeded";
  status_code = 429;
  retry_after = some 30;
})

abbrev pub with_database : Database → Result Accepted → Result (Database × Accepted)
with_database db (ok a) = ok (db, a)
with_database db (err e) = err e

unfoldable pub create : NewIds → Event → Database → Result (Database × Accepted)
unfolding create_event_graph
create ids event db =
    let (db', deliveries) = create_event_graph event.created_at ids event db in
    ok (
      db',
      record {
        event_id = event.id;
        delivery_count = deliveries;
        created_at = event.created_at;
        replayed = false;
      },
    )

-- After the first look for the key: the organization is locked, the backlog is checked, and the
-- event is written. Another ingestion may have committed the key since that first look; then the
-- unique constraint fails the write, which is rolled back, and the key is looked up again.
unfoldable pub write : Settings → NewIds → Event → Database → Result (Database × Accepted)
unfolding projected_backlog existing_idempotency idempotent_result create
write settings ids event db =
    if ltb settings.backlog_limit (projected_backlog event.organization_id event.event_type db)
    then err backlog_error
    else elim (existing_idempotency event.organization_id event.api_key_id event.idempotency_key
        db) [
          | none ↦ create ids event db
          | some found ↦ with_database db (idempotent_result event.fingerprint found)
        ]

-- `seen` is the database at the first look for the key, and `db` the one at the lock.
unfoldable pub ingest_event :
    Settings → NewIds → Event → Database → Database → Result (Database × Accepted)
unfolding write existing_idempotency idempotent_result
ingest_event settings ids event seen db =
    elim (existing_idempotency event.organization_id event.api_key_id event.idempotency_key seen) [
      | none ↦ write settings ids event db
      | some found ↦ with_database db (idempotent_result event.fingerprint found)
    ]

unfoldable pub ingest :
    Settings
    → Encoders
    → ℕ
    → NewIds
    → EventInput
    → Database
    → Database
    → Result (Database × Accepted)
unfolding prepare ingest_event
ingest settings enc now ids i seen db =
    prepare settings enc now ids.event_id i >>= λ event. ingest_event settings ids event seen db
