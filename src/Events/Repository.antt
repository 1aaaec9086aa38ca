-- ===== src/Events/Repository.antt =====
-- src/webhook_platform/events/infrastructure/repository.py: the queries and the writes of the
-- ingestion.
pub mod FanOut
use webhook_delivery_platfor.Base.{
  ℕ, zero, suc, ◌+◌, Bool, true, false, not, ◌&&◌, ◌||◌, Option, none, some, List, [], ◌∷◌, String,
  ◌==◌, if◌then◌else◌, str_eq, count, select, length, is_some,
}
use webhook_delivery_platfor.Schema.{
  Database, Delivery, Endpoint, EndpointSubscription, Event, OutboxMessage, Bytes, queued,
  is_terminal, is_active,
}
use webhook_delivery_platfor.Outbox.Messages.{execute_command}

-- A delivery of the organization that is not over.
unfoldable pub is_backlog : ℕ → Delivery → Bool
is_backlog organization_id d = d.organization_id == organization_id && not (is_terminal d.status)

-- The constraint on (endpoint_id, event_type) lets one subscription at most join an endpoint.
unfoldable pub subscribed : String → ℕ → List EndpointSubscription → Bool
subscribed event_type endpoint_id [] = false
subscribed event_type endpoint_id (s ∷ t) =
    (s.endpoint_id == endpoint_id && str_eq s.event_type event_type)
    || subscribed event_type endpoint_id t

unfoldable pub subscribed_in : ℕ → String → ℕ → List EndpointSubscription → Bool
subscribed_in organization_id event_type endpoint_id [] = false
subscribed_in organization_id event_type endpoint_id (s ∷ t) =
    (s.endpoint_id == endpoint_id
      && s.organization_id == organization_id
      && str_eq s.event_type event_type)
    || subscribed_in organization_id event_type endpoint_id t

unfoldable pub is_open : ℕ → Endpoint → Bool
is_open organization_id e =
    e.organization_id == organization_id
    && is_active e.status
    && e.enabled
    && not (is_some e.deleted_at)

-- The endpoints that an event goes to.
unfoldable pub receives : ℕ → String → List EndpointSubscription → Endpoint → Bool
unfolding is_open subscribed
receives organization_id event_type subscriptions e =
    is_open organization_id e && subscribed event_type e.id subscriptions

-- The same query with the organization of the subscription too, as projected_backlog has it.
unfoldable pub receives_in : ℕ → String → List EndpointSubscription → Endpoint → Bool
unfolding is_open subscribed_in
receives_in organization_id event_type subscriptions e =
    is_open organization_id e && subscribed_in organization_id event_type e.id subscriptions

unfoldable pub projected_backlog : ℕ → String → Database → ℕ
unfolding is_backlog receives_in
projected_backlog organization_id event_type db =
    count (is_backlog organization_id) db.deliveries
    + count (receives_in organization_id event_type db.subscriptions) db.endpoints

unfoldable pub has_key : ℕ → ℕ → String → Event → Bool
has_key organization_id api_key_id idempotency_key e =
    e.organization_id == organization_id
    && e.api_key_id == api_key_id
    && str_eq e.idempotency_key idempotency_key

unfoldable pub first_with_key : ℕ → ℕ → String → List Event → Option Event
unfolding has_key
first_with_key organization_id api_key_id idempotency_key [] = none
first_with_key organization_id api_key_id idempotency_key (e ∷ t) =
    if has_key organization_id api_key_id idempotency_key e
    then some e
    else first_with_key organization_id api_key_id idempotency_key t

abbrev pub of_event : ℕ → Delivery → Bool
of_event event_id d = d.event_id == event_id

-- existing_idempotency: the event with its number of deliveries.
unfoldable pub existing_idempotency : ℕ → ℕ → String → Database → Option (Event × ℕ)
unfolding first_with_key
existing_idempotency organization_id api_key_id idempotency_key db =
    elim (first_with_key organization_id api_key_id idempotency_key db.events) [
      | none ↦ none
      | some e ↦ some (e, count (of_event e.id) db.deliveries)
    ]

-- The keys of the rows that one ingestion adds.
pub record NewIds : Type 0 where
  pub event_id : ℕ
  pub delivery_id : ℕ → ℕ
  pub message_id : ℕ → ℕ

unfoldable pub queued_delivery : ℕ → ℕ → ℕ → Event → Delivery
queued_delivery now id endpoint_id event = record {
  id = id;
  created_at = now;
  organization_id = event.organization_id;
  event_id = event.id;
  endpoint_id = endpoint_id;
  status = queued;
  attempt_count = 0;
  next_attempt_at = none;
  lease_until = none;
  replay_of = none;
  replay_idempotency_key = none;
}

unfoldable pub add_delivery : ℕ → NewIds → ℕ → Event → Endpoint → Database → Database
unfolding queued_delivery
add_delivery now ids n event e db =
    let d = queued_delivery now (ids.delivery_id n) e.id event in
    record db {
      deliveries = d ∷ db.deliveries;
      outbox = execute_command (ids.message_id n) now d ∷ db.outbox;
    }

-- The loop over the endpoints; `n` is the number of the first one.
unfoldable pub add_deliveries : ℕ → NewIds → ℕ → Event → List Endpoint → Database → Database
unfolding add_delivery
add_deliveries now ids n event [] db = db
add_deliveries now ids n event (e ∷ es) db =
    add_deliveries now ids (suc n) event es (add_delivery now ids n event e db)

unfoldable pub receivers : ℕ → String → Database → List Endpoint
unfolding receives
receivers organization_id event_type db =
    select (receives organization_id event_type db.subscriptions) db.endpoints

-- create_event_graph, where the flush of the event row has not failed.
unfoldable pub create_event_graph : ℕ → NewIds → Event → Database → Database × ℕ
unfolding add_deliveries receivers
create_event_graph now ids event db =
    let endpoints = receivers event.organization_id event.event_type db in
    (
      add_deliveries now ids 0 event endpoints (record db { events = event ∷ db.events }),
      length endpoints,
    )
