-- ===== src/Events.antt =====
-- src/webhook_platform/events: the ingestion of events.
pub mod EventType
pub mod CanonicalJson
pub mod Repository
pub mod Ingest
pub mod Listings
