-- ===== src/Outbox.antt =====
-- src/webhook_platform/outbox/infrastructure/repository.py and src/webhook_platform/outbox_dispatcher.py:
-- the transactional outbox and the dispatcher that publishes its messages.
pub mod Messages
pub mod Dispatcher
