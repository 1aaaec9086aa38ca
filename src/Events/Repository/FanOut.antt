-- ===== src/Events/Repository/FanOut.antt =====
-- src/webhook_platform/events/infrastructure/repository.py, create_event_graph: the deliveries and
-- commands of one event.
use webhook_delivery_platfor.Base.{
  ℕ, suc, ◌+◌, ◌≡◌, refl, Bool, ◌&&◌, ◌==◌, select, List, [], ◌∷◌, arith, count, eq_self,
  length-select,
}
use webhook_delivery_platfor.Schema.{
  Database, Event, Endpoint, Delivery, OutboxMessage, is_queued, is_pending,
}
use webhook_delivery_platfor.Outbox.Messages.{execute_command}
use webhook_delivery_platfor.Events.Repository.{
  NewIds, add_delivery, add_deliveries, queued_delivery, receivers, receives, create_event_graph,
}

-- A queued delivery of the event and its organization, to an endpoint that `p` holds of.
abbrev pub delivery_to : Event → (ℕ → Bool) → Delivery → Bool
delivery_to event p d =
    d.event_id == event.id
    && d.organization_id == event.organization_id
    && is_queued d.status
    && p d.endpoint_id

-- A pending message of the event that names a delivery, as its aggregate and in its payload, that `p`
-- holds of.
abbrev pub command_of : Event → (ℕ → Bool) → OutboxMessage → Bool
command_of event p m =
    m.payload.correlation_id == event.id
    && is_pending m.status
    && p m.aggregate_id
    && p m.payload.delivery_id

-- A delivery of the event with an identifier that `p` holds of.
abbrev pub delivery_of : Event → (ℕ → Bool) → Delivery → Bool
delivery_of event p d = d.event_id == event.id && p d.id

module _ (now : ℕ) (ids : NewIds) (event : Event) (p : ℕ → Bool) where
  add_deliveries-to :
      (n : ℕ) (es : List Endpoint) (db : Database)
      → count (delivery_to event p) (add_deliveries now ids n event es db).deliveries
        ≡ count (delivery_to event p) db.deliveries + count (λ e. p e.id) es
  unfolding add_deliveries add_delivery queued_delivery count
  add_deliveries-to n [] db = omega arith
  add_deliveries-to n (e ∷ es) db = ground (
    arith,
    add_deliveries-to (suc n) es (add_delivery now ids n event e db),
    eq_self event.id,
    eq_self event.organization_id,
  )

  add_deliveries-commands :
      (n : ℕ) (es : List Endpoint) (db : Database)
      → count (command_of event p) (add_deliveries now ids n event es db).outbox
          + count (delivery_of event p) db.deliveries
        ≡ count (command_of event p) db.outbox
          + count (delivery_of event p) (add_deliveries now ids n event es db).deliveries
  unfolding add_deliveries add_delivery queued_delivery execute_command count
  add_deliveries-commands n [] db = omega arith
  add_deliveries-commands n (e ∷ es) db = ground (
    arith,
    add_deliveries-commands (suc n) es (add_delivery now ids n event e db),
    eq_self event.id,
  )

count-of_select :
    (r p : Endpoint → Bool) (es : List Endpoint)
    → count p (select r es) ≡ count (λ e. r e && p e) es
unfolding count select
count-of_select r p [] = refl
count-of_select r p (e ∷ es) = ground (arith, count-of_select r p es)

pub add_deliveries-events :
    (now : ℕ) (ids : NewIds) (n : ℕ) (event : Event) (es : List Endpoint) (db : Database)
    → (add_deliveries now ids n event es db).events ≡ db.events
unfolding add_deliveries add_delivery
add_deliveries-events now ids n event [] db = refl
add_deliveries-events now ids n event (e ∷ es) db =
    add_deliveries-events now ids (suc n) event es (add_delivery now ids n event e db)

-- The event is stored, and the number of endpoints that receive it is reported. For every set of
-- endpoints: as many queued deliveries of the event to them are added as of them receive it. And for
-- every set of identifiers: as many pending commands for deliveries with these identifiers are added as
-- such deliveries of the event. So each endpoint that receives the event gets one delivery, and each
-- delivery one command that names it.
pub create_event_graph-fan_out :
    (now : ℕ) (ids : NewIds) (event : Event) (db : Database) (p : ℕ → Bool)
    → ((create_event_graph now ids event db).0.events ≡ event ∷ db.events)
      × ((create_event_graph now ids event db).1
          ≡ count (receives event.organization_id event.event_type db.subscriptions) db.endpoints)
      × (count (delivery_to event p) (create_event_graph now ids event db).0.deliveries
          ≡ count (delivery_to event p) db.deliveries
            + count
                (λ e. receives event.organization_id event.event_type db.subscriptions e && p e.id)
                db.endpoints)
      × (count (command_of event p) (create_event_graph now ids event db).0.outbox
            + count (delivery_of event p) db.deliveries
          ≡ count (command_of event p) db.outbox
            + count (delivery_of event p) (create_event_graph now ids event db).0.deliveries)
unfolding create_event_graph receivers
create_event_graph-fan_out now ids event db p =
    let rows = receivers event.organization_id event.event_type db in
    let stored = record db { events = event ∷ db.events } in
    (
      add_deliveries-events now ids 0 event rows stored,
      length-select (receives event.organization_id event.event_type db.subscriptions) db.endpoints,
      omega (
        arith,
        add_deliveries-to now ids event p 0 rows stored,
        count-of_select (receives event.organization_id event.event_type db.subscriptions)
            (λ e. p e.id) db.endpoints,
      ),
      add_deliveries-commands now ids event p 0 rows stored,
    )
