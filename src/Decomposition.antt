-- ===== src/Decomposition.antt =====
-- src/zero/app/task_decomposition.py: the graph of tasks that a model proposes for a revision.
pub mod Payload
pub mod Validation
pub mod Entries
pub mod Agreement
pub mod Edges
pub mod Acceptance
pub mod Cycles
