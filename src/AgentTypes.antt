-- ===== src/AgentTypes.antt =====
-- src/zero/app/agent_type_service.py and its repository: how many instances of a type run at once.
pub mod Store
pub mod Instances
pub mod Rows
pub mod Limits
pub mod Kept
pub mod Starting
pub mod Steps
pub mod Leaks
pub mod Edits
