-- ===== src/Repository.antt =====
-- The SQL repositories of src/zero/persistence/repositories: each SELECT, INSERT and UPDATE on the
-- rows of its table. Foreign keys are not modelled.
pub mod Identity
pub mod Audit
pub mod Plan
pub mod Execution
pub mod Attempts
