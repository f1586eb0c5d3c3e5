-- ===== src/Domain.antt =====
-- The domain types of src/zero/domain: identifiers, records, state machines and typed failures.
pub mod Identity
pub mod Authorization
pub mod Audit
pub mod Plans
pub mod Execution
pub mod AgentTypes
pub mod Artifacts
pub mod Approvals
pub mod Errors
