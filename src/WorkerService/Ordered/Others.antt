-- ===== src/WorkerService/Ordered/Others.antt =====
-- The operations of src/zero/app/worker_service.py that leave tasks and edges as they are.
use zero_agent_dev_telegram.Common.{◌≡◌, refl, arith, ℕ, Option, List, String, ◌∙◌}
use zero_agent_dev_telegram.Domain.Identity.{UserId, ProjectId}
use zero_agent_dev_telegram.Domain.Audit.{Source, Operation, Target, AuditResult}
use zero_agent_dev_telegram.Domain.Execution.{
  ExecutionId, TaskId, ExecutionState, TaskAttemptId, AttemptState, Task,
}
use zero_agent_dev_telegram.Database.{Db, World}
use zero_agent_dev_telegram.Exec.{Exec, ok, ◌>>=◌, >>=-eq-ok}
use zero_agent_dev_telegram.Repository.Audit.{record_audit}
use zero_agent_dev_telegram.Repository.Attempts.{Fence, update_attempt_state}
use zero_agent_dev_telegram.WorkerService.Completion.{
  advance, settle_blocked, maybe_complete_execution,
}
use zero_agent_dev_telegram.WorkerService.Ordered.{state_at}
use zero_agent_dev_telegram.Repository.Execution.{find_task, update_execution_state}
use zero_agent_dev_telegram.WorkerService.Snapshots.{snapshot}

pub record IsSameGraph (before after : Db) : Type 0 where
  pub tasks : after.tasks ≡ before.tasks
  pub edges : after.task_dependencies ≡ before.task_dependencies

pub state_at-same : (a b : Db) → IsSameGraph a b → (k : TaskId) → state_at k b ≡ state_at k a
unfolding state_at find_task
state_at-same a b same k = rw (same.tasks) refl

-- Whenever the operation returns, the graph is as before.
abbrev pub KeepsGraph : {A : Type 0} → Exec A → Type 0
KeepsGraph {A} m = (w w' : World) (a : A) → m w ≡ (ok a, w') → IsSameGraph w.db w'.db

module _ {A B : Type 0} where
  pub bind-KeepsGraph :
      (m : Exec A) (f : A → Exec B)
      → KeepsGraph m
      → ((a : A) → KeepsGraph (f a))
      → KeepsGraph (m >>= f)
  bind-KeepsGraph m f first_part second_part w w' b e =
      let (a, v, e1, e2) = >>=-eq-ok m f w w' e in
      let p = first_part w v a e1 in
      let q = second_part a v w' b e2 in
      record { tasks = q.tasks ∙ p.tasks; edges = q.edges ∙ p.edges }

pub update_attempt_state-KeepsGraph :
    (id : TaskAttemptId) (s : AttemptState) (message : Option String) (fence : Option Fence)
    → KeepsGraph (update_attempt_state id s message fence)
unfolding update_attempt_state
update_attempt_state-KeepsGraph id s message fence w w' a e = ground arith

pub update_execution_state-KeepsGraph :
    (id : ExecutionId) (s : ExecutionState) (reason : Option String)
    → KeepsGraph (update_execution_state id s reason)
unfolding update_execution_state
update_execution_state-KeepsGraph id s reason w w' a e = ground arith

pub record_audit-KeepsGraph :
    (project : ProjectId) (actor : UserId) (source : Source) (operation : Operation)
    (target : Target) (result : AuditResult) (correlation : Option ℕ)
    → KeepsGraph (record_audit project actor source operation target result correlation)
unfolding record_audit
record_audit-KeepsGraph project actor source operation target result correlation w w' a e =
    ground arith

pub snapshot-KeepsGraph : (id : ExecutionId) (reason : String) → KeepsGraph (snapshot id reason)
unfolding snapshot
snapshot-KeepsGraph id reason w w' a e = ground arith

advance-KeepsGraph :
    (id : ExecutionId) (s : ExecutionState) (reason : String) → KeepsGraph (advance id s reason)
unfolding advance
advance-KeepsGraph id s reason w w' a e = ground arith

settle_blocked-KeepsGraph :
    (n : ℕ) (id : ExecutionId) (tasks : List Task) → KeepsGraph (settle_blocked n id tasks)
unfolding settle_blocked
settle_blocked-KeepsGraph n id tasks w w' a e = ground arith

pub maybe_complete_execution-KeepsGraph :
    (n : ℕ) (id : ExecutionId) → KeepsGraph (maybe_complete_execution n id)
unfolding maybe_complete_execution
maybe_complete_execution-KeepsGraph n id w w' a e = ground (arith)
