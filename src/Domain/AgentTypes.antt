-- ===== src/Domain/AgentTypes.antt =====
-- src/zero/domain/agent_types.py: sub agent types and their instances. A limit below zero lets as few
-- instances run as the limit zero, which stands for it here; knowledge records are left out.
use zero_agent_dev_telegram.Common.{ℕ, Bool, true, false, Option, String, List}
use zero_agent_dev_telegram.Domain.Identity.{ProjectId}
use zero_agent_dev_telegram.Domain.Execution.{TaskId}

abbrev pub AgentTypeId : Type 0
AgentTypeId = ℕ

abbrev pub AgentInstanceId : Type 0
AgentInstanceId = ℕ

pub data AgentTypeState : Type 0 where
  active archived retired : AgentTypeState

pub data AgentInstanceState : Type 0 where
  idle running completed failed cancelled : AgentInstanceState

pub record AgentType : Type 0 where
  pub id : AgentTypeId
  pub project_id : ProjectId
  pub name : String
  pub responsibility : String
  pub memory_scope : String
  pub permitted_tools : List String
  pub context_budget_tokens : ℕ
  pub max_concurrent_instances : ℕ
  pub state : AgentTypeState
  pub version : ℕ

pub record AgentInstance : Type 0 where
  pub id : AgentInstanceId
  pub project_id : ProjectId
  pub agent_type_id : AgentTypeId
  pub task_id : Option TaskId
  pub state : AgentInstanceState

abbrev pub is_active_type : AgentTypeState → Bool
is_active_type AgentTypeState.active = true
is_active_type state = false

abbrev pub is_idle : AgentInstanceState → Bool
is_idle AgentInstanceState.idle = true
is_idle state = false

abbrev pub is_running_instance : AgentInstanceState → Bool
is_running_instance AgentInstanceState.running = true
is_running_instance state = false
