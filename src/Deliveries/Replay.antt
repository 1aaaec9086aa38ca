-- ===== src/Deliveries/Replay.antt =====
-- src/webhook_platform/deliveries/application/use_cases.py, DeliveryUseCases.replay, over
-- src/webhook_platform/deliveries/infrastructure/repository.py.
pub mod Refines
use webhook_delivery_platfor.Base.{
  ℕ, Bool, true, false, not, ◌&&◌, Option, none, some, List, [], ◌∷◌, String, leb, ◌==◌,
  if◌then◌else◌, str_eq, length, codes,
}
use webhook_delivery_platfor.Schema.{
  Database, Delivery, queued, is_terminal, is_manager, find_delivery,
}
use webhook_delivery_platfor.Errors.{
  Exception, Result, ok, err, app_error, not_found_error, ◌>>=◌, ◌>>◌,
}
use webhook_delivery_platfor.Access.{Request, require_role, audit}
use webhook_delivery_platfor.Outbox.Messages.{execute_command}

-- repository.delivery
unfoldable pub owned_delivery : ℕ → Option Delivery → Option Delivery
owned_delivery organization_id none = none
owned_delivery organization_id (some d) =
    if d.organization_id == organization_id then some d else none

unfoldable pub delivery : ℕ → ℕ → Database → Option Delivery
unfolding owned_delivery
delivery organization_id delivery_id db =
    owned_delivery organization_id (find_delivery delivery_id db.deliveries)

abbrev is_id : ℕ → Option ℕ → Bool
is_id id none = false
is_id id (some k) = k == id

abbrev is_text : String → Option String → Bool
is_text s none = false
is_text s (some t) = str_eq t s

unfoldable pub is_replay : ℕ → ℕ → String → Delivery → Bool
is_replay organization_id source_id idempotency_key d =
    d.organization_id == organization_id
    && is_id source_id d.replay_of
    && is_text idempotency_key d.replay_idempotency_key

-- repository.existing_replay
unfoldable pub existing_replay : ℕ → ℕ → String → List Delivery → Option Delivery
unfolding is_replay
existing_replay organization_id source_id idempotency_key [] = none
existing_replay organization_id source_id idempotency_key (d ∷ t) =
    if is_replay organization_id source_id idempotency_key d
    then some d
    else existing_replay organization_id source_id idempotency_key t

-- The keys of the rows that a replay adds.
pub record ReplayIds : Type 0 where
  pub delivery_id : ℕ
  pub message_id : ℕ

unfoldable pub replay_of_source : Request → ReplayIds → Delivery → String → Delivery
replay_of_source r ids source idempotency_key = record {
  id = ids.delivery_id;
  created_at = r.now;
  organization_id = source.organization_id;
  event_id = source.event_id;
  endpoint_id = source.endpoint_id;
  status = queued;
  attempt_count = 0;
  next_attempt_at = none;
  lease_until = none;
  replay_of = some source.id;
  replay_idempotency_key = some idempotency_key;
}

-- repository.create_replay and the audit row.
unfoldable pub create_replay : Request → ReplayIds → Delivery → String → Database → Database
unfolding replay_of_source
create_replay r ids source idempotency_key db =
    let d = replay_of_source r ids source idempotency_key in
    record db {
      deliveries = d ∷ db.deliveries;
      outbox = execute_command ids.message_id r.now d ∷ db.outbox;
      audits = audit r "delivery.replayed" "delivery" d.id ∷ db.audits;
    }

abbrev pub key_error : Exception
key_error = app_error "invalid_idempotency_key" "Idempotency-Key is invalid" 422

abbrev not_terminal_error : Exception
not_terminal_error =
    app_error "delivery_not_terminal" "Only terminal deliveries can be replayed" 409

abbrev pub require : Bool → Exception → Result (Unit {0})
require true e = ok tt
require false e = err e

unfoldable pub source_of : Option Delivery → Result Delivery
source_of none = err not_found_error
source_of (some d) = if is_terminal d.status then ok d else err not_terminal_error

-- The unique index on the replays of a source fails the insertion of a second one with the same
-- key; the first one is then the result. The Boolean says whether the replay was there before.
unfoldable pub insert_replay :
    Request → ReplayIds → ℕ → String → Delivery → Database → Database × Delivery × Bool
unfolding create_replay existing_replay replay_of_source
insert_replay r ids delivery_id idempotency_key source db =
    elim (existing_replay r.organization_id delivery_id idempotency_key db.deliveries) [
      | some d ↦ (db, d, true)
      | none ↦ (
        create_replay r ids source idempotency_key db,
        replay_of_source r ids source idempotency_key,
        false,
      )
    ]

-- After the first look for the replay: the source is locked and read.
unfoldable pub replay_new :
    Request → ReplayIds → ℕ → String → Database → Result (Database × Delivery × Bool)
unfolding delivery source_of insert_replay
replay_new r ids delivery_id idempotency_key db = do
  source ← source_of (delivery r.organization_id delivery_id db)
  ok (insert_replay r ids delivery_id idempotency_key source db)

unfoldable pub replay_after :
    Request
    → ReplayIds
    → ℕ
    → String
    → Option Delivery
    → Database
    → Result (Database × Delivery × Bool)
unfolding replay_new
replay_after r ids delivery_id idempotency_key (some d) db = ok (db, d, true)
replay_after r ids delivery_id idempotency_key none db =
    replay_new r ids delivery_id idempotency_key db

-- `seen` is the database at the first look, and `db` the one at the lock of the source.
unfoldable pub replay :
    Request → ReplayIds → ℕ → String → Database → Database → Result (Database × Delivery × Bool)
unfolding replay_after existing_replay codes
replay r ids delivery_id idempotency_key seen db = do
  role ← require_role is_manager r seen.memberships
  require (leb 16 (length (codes idempotency_key)) && leb (length (codes idempotency_key)) 128)
      key_error
  replay_after r ids delivery_id idempotency_key
      (existing_replay r.organization_id delivery_id idempotency_key seen.deliveries) db
