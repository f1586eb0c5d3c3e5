-- ===== src/PlanService.antt =====
-- src/zero/app/plan_service.py: conversation intake, proposals, approval and rejection of plans.
pub mod Content
pub mod Intake
pub mod Proposals
pub mod Verdicts
pub mod Approvals
pub mod Rejections
pub mod Inversion
pub mod Provenance
pub mod Refusals
pub mod Proposing
pub mod Pairing
pub mod RejectionRace
pub mod Races
pub mod Replay
pub mod Approving
pub mod Interleaving
pub mod Atomicity
