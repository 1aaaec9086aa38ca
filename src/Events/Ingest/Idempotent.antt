-- ===== src/Events/Ingest/Idempotent.antt =====
-- src/webhook_platform/events/application/use_cases.py, ingest: the repetition of a request.
use webhook_delivery_platfor.Base.{ℕ, true}
use webhook_delivery_platfor.Schema.{Event}
use webhook_delivery_platfor.Events.Ingest.{Accepted}

-- The answer to a repetition that finds the event with `n` deliveries.
abbrev pub repeated : Event → ℕ → Accepted
repeated event n = record {
  event_id = event.id;
  delivery_count = n;
  created_at = event.created_at;
  replayed = true;
}
