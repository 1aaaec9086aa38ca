-- ===== src/Events/Listings.antt =====
-- What a producer sees of its events: list_events and get_event of
-- src/webhook_platform/events/application/use_cases.py, over the queries of
-- src/webhook_platform/events/infrastructure/repository.py.
use webhook_delivery_platfor.Base.{
  ℕ, Bool, true, false, ◌&&◌, Option, none, some, List, String, leb, ◌==◌, if◌then◌else◌, str_eq,
  is_empty, map, count, select, first,
}
use webhook_delivery_platfor.Schema.{
  Database, Bytes, Event, Delivery, DeliveryStatus, pending, queued, delivering, retry_scheduled,
  succeeded, dead_lettered, cancelled,
}
use webhook_delivery_platfor.Errors.{Result, ok, err, not_found_error}
use webhook_delivery_platfor.Paging.{Cursor, is_older, page}

-- if event_type: query = query.where(...), where an empty text is no filter.
abbrev of_type : Option String → String → Bool
of_type none t = true
of_type (some wanted) t = if is_empty wanted then true else str_eq t wanted

abbrev from_time : Option ℕ → ℕ → Bool
from_time none t = true
from_time (some least) t = leb least t

abbrev to_time : Option ℕ → ℕ → Bool
to_time none t = true
to_time (some most) t = leb t most

-- The WHERE of repository.events.
unfoldable pub is_wanted_event : ℕ → Option String → Option ℕ → Option ℕ → Event → Bool
is_wanted_event organization_id event_type occurred_from occurred_to e =
    e.organization_id == organization_id
    && of_type event_type e.event_type
    && from_time occurred_from e.occurred_at
    && to_time occurred_to e.occurred_at

-- _view, with the stored body in the place of its data.
pub record EventView : Type 0 where
  pub id : ℕ
  pub event_type : String
  pub version : ℕ
  pub occurred_at : ℕ
  pub canonical_body : Bytes
  pub created_at : ℕ

abbrev event_view : Event → EventView
event_view e = record {
  id = e.id;
  event_type = e.event_type;
  version = e.version;
  occurred_at = e.occurred_at;
  canonical_body = e.canonical_body;
  created_at = e.created_at;
}

abbrev pub event_cursor : Event → Cursor
event_cursor e = record { created_at = e.created_at; id = e.id }

-- EventUseCases.list_events
unfoldable pub list_events :
    ℕ
    → Option String
    → Option ℕ
    → Option ℕ
    → Option Cursor
    → ℕ
    → Database
    → List EventView × Option Event
unfolding is_wanted_event
list_events organization_id event_type occurred_from occurred_to cursor limit db =
    let (rows, next) =
      page is_older event_cursor
        (is_wanted_event organization_id event_type occurred_from occurred_to) cursor limit
        db.events in
    (map event_view rows, next)

abbrev same_status : DeliveryStatus → DeliveryStatus → Bool
same_status pending pending = true
same_status queued queued = true
same_status delivering delivering = true
same_status retry_scheduled retry_scheduled = true
same_status succeeded succeeded = true
same_status dead_lettered dead_lettered = true
same_status cancelled cancelled = true
same_status s t = false

-- repository.delivery_summary: the Counter of the statuses, 0 where it has no key.
unfoldable pub delivery_summary : ℕ → ℕ → Database → DeliveryStatus → ℕ
delivery_summary organization_id event_id db s =
    count
      (λ (d : Delivery).
        d.organization_id == organization_id && d.event_id == event_id && same_status d.status s)
      db.deliveries

-- EventUseCases.get_event
unfoldable pub get_event : ℕ → ℕ → Database → Result (EventView × (DeliveryStatus → ℕ))
unfolding delivery_summary
get_event organization_id event_id db =
    elim (first (
      select (λ (e : Event). e.organization_id == organization_id && e.id == event_id) db.events)) [
        | none ↦ err not_found_error
        | some e ↦ ok (event_view e, delivery_summary organization_id event_id db)
      ]
