-- ===== src/Http.antt =====
-- src/webhook_platform/shared/infrastructure: what stands before the routes of the API.
pub mod BodyLimit
