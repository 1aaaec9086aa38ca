-- ===== src/Maintenance.antt =====
-- src/webhook_platform/maintenance/application: the scheduler's transactions; and
-- src/webhook_platform/scheduler.py, which runs them.
pub mod Reconcile
pub mod Cleanup
pub mod Scheduler
