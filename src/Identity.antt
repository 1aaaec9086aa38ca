-- ===== src/Identity.antt =====
-- src/webhook_platform/identity: users, and the tokens that they sign in with.
mod Users
mod Sessions
pub mod Families
pub mod Requests
pub mod Reuse
pub mod AccessTokens
unfoldable pub use Users.*
unfoldable pub use Sessions.*
