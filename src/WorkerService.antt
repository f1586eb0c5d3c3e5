-- ===== src/WorkerService.antt =====
-- src/zero/app/worker_service.py: the orchestrator of an approved plan's task graph.
pub mod Loops
pub mod Snapshots
pub mod Readiness
pub mod Completion
pub mod Leases
pub mod Transitions
pub mod Evidence
pub mod Operators
pub mod Recovery
pub mod Specs
pub mod Creation
pub mod Claiming
pub mod Proven
pub mod Ordered
pub mod Completing
pub mod Sorting
pub mod Counting
pub mod Relaxing
pub mod Acyclic
pub mod Cancelling
pub mod Held
pub mod CancelRounds
