-- ===== src/ApprovalGate.antt =====
-- src/zero/app/approval_gate.py: the gate that each call of a tool passes before it runs.
pub mod Triage
pub mod Store
pub mod Evaluation
pub mod Resolution
pub mod Policy
pub mod Keyed
pub mod Kept
pub mod Standing
pub mod Answers
pub mod Waiting
