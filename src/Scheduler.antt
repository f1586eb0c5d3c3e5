-- ===== src/Scheduler.antt =====
-- src/zero/app/scheduler_service.py: the ticks that claim handoffs, drain ready tasks and retry.
pub mod Backoff
pub mod Retries
pub mod Requeues
pub mod Budget
pub mod Drains
pub mod Handoffs
pub mod Ticks
pub mod Bounds
pub mod Fallback
