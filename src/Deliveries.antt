-- ===== src/Deliveries.antt =====
-- src/webhook_platform/deliveries: the worker's side of a delivery.
pub mod Retry
pub mod Claim
pub mod Exchange
pub mod Finalize
pub mod Signature
pub mod Replay
pub mod Listings
