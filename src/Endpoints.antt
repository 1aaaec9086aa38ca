-- ===== src/Endpoints.antt =====
-- src/webhook_platform/endpoints: the destinations of webhooks.
pub mod Network
pub mod Operations
pub mod Listings
pub mod Verification
pub mod Refines
pub mod Lifecycle
