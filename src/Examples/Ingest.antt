-- ===== src/Examples/Ingest.antt =====
-- One request to accept an event, and its repetition.
use webhook_delivery_platfor.Base.{◌≡◌, refl, ◌+◌, false, count, select}
use webhook_delivery_platfor.Schema.{Database, Event}
use webhook_delivery_platfor.Errors.{ok}
use webhook_delivery_platfor.Events.Repository.{
  NewIds, create_event_graph, existing_idempotency, first_with_key, has_key, projected_backlog,
  is_backlog, receives_in, subscribed_in, is_open, receivers, receives, subscribed, add_deliveries,
  add_delivery, queued_delivery,
}
use webhook_delivery_platfor.Events.Ingest.{Accepted, ingest_event, write, create}
use webhook_delivery_platfor.Examples.Data.{sample_settings, sample_db, sample_event}

abbrev second_event : Event
second_event = record sample_event { id = 4; idempotency_key = "fedcba9876543210" }

abbrev second_ids : NewIds
second_ids = record { event_id = 4; delivery_id = λ n. n + 50; message_id = λ n. n + 60 }

-- The same content, prepared again later.
abbrev repeated_event : Event
repeated_event = record second_event { id = 70; created_at = 900 }

abbrev repeated_ids : NewIds
repeated_ids = record { event_id = 70; delivery_id = λ n. n + 80; message_id = λ n. n + 85 }

abbrev second_db : Database
second_db = (create_event_graph 20 second_ids second_event sample_db).0

abbrev second_answer : Accepted
second_answer = record { event_id = 4; delivery_count = 1; created_at = 20; replayed = false }

accepts :
    ingest_event sample_settings second_ids second_event sample_db sample_db
    ≡ ok (second_db, second_answer)
unfolding ingest_event write create existing_idempotency first_with_key has_key projected_backlog
    is_backlog receives_in subscribed_in is_open receivers receives subscribed create_event_graph
    add_deliveries add_delivery queued_delivery count select
accepts = refl
