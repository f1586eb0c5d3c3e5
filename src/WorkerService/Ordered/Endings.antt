-- ===== src/WorkerService/Ordered/Endings.antt =====
-- That whole calls of the methods of src/zero/app/worker_service.py which end or requeue a task keep
-- the order of work.
use zero_agent_dev_telegram.Common.{
  ◌≡◌, refl, sym, subst, arith, ℕ, Bool, true, false, some, none, List, String, all, truncate,
}
use zero_agent_dev_telegram.Domain.Authorization.{Permission}
use zero_agent_dev_telegram.Domain.Audit.{Operation, AuditResult}
use zero_agent_dev_telegram.Domain.Artifacts.{ArtifactId}
use zero_agent_dev_telegram.Domain.Execution.{
  TaskState, AttemptState, Execution, Task, task_state_eq,
}
use zero_agent_dev_telegram.Domain.Errors.{Error}
use zero_agent_dev_telegram.Database.{World}
use zero_agent_dev_telegram.Exec.{
  ok, pure, ◌>>◌, >>=-eq-ok, guard-eq-ok, transaction, transaction-eq-ok,
}
use zero_agent_dev_telegram.Authorization.Decision.{require_permission-refines-policy}
use zero_agent_dev_telegram.Repository.Execution.{find_task, get_task, get_execution}
use zero_agent_dev_telegram.WorkerService.Leases.{read_task, validate_attempt_identity}
use zero_agent_dev_telegram.WorkerService.Evidence.{validate_evidence_artifacts, member}
use zero_agent_dev_telegram.WorkerService.Proven.{validate_evidence_artifacts-proves}
use zero_agent_dev_telegram.WorkerService.Transitions.{
  TaskCall, settle_task, completed_before, fence_of, or_provided, commit_completion, complete_task,
  commit_failure, fail_task, commit_unknown, mark_provider_outcome_unknown, commit_cancellation,
  cancel_task,
}
use zero_agent_dev_telegram.WorkerService.Operators.{
  Request, open_request, commit_requeue, requeue_failed_task,
}
use zero_agent_dev_telegram.WorkerService.Completing.{
  completed_before-same, running_only, write_completion, check_running, check_labels,
  check_artifacts,
}
use zero_agent_dev_telegram.WorkerService.Ordered.{state_at, has_task_keys, IsGrowth}
use zero_agent_dev_telegram.WorkerService.Ordered.Settled.{
  settle_task-IsGrowth, settle_cancelled-IsGrowth,
}
use zero_agent_dev_telegram.WorkerService.Ordered.Started.{commit_requeue-IsGrowth}
use zero_agent_dev_telegram.WorkerService.Ordered.Calls.{
  GrowsIfRead, call-IsGrowth, pure-same, state_of_same, not_done_of_same, validated, get_task-same,
  failed_only, found-same_state,
}

module _ (n : ℕ) (c : TaskCall) (message : String) where
  commit_failure-GrowsIfRead : GrowsIfRead (commit_failure n c message)
  unfolding commit_failure
  commit_failure-GrowsIfRead execution task w w' keys live same e =
      let write =
        settle_task n c execution task AttemptState.failed (some (truncate 4096 message)) none
          TaskState.failed none none "after_task_fail" Operation.task_fail AuditResult.failure in
      let fence = validate_attempt_identity task c.attempt_id c.lease_owner false in
      let (runs, e1) =
        guard-eq-ok (task_state_eq task.state TaskState.running) Error.invalid_task_transition
          (transaction (fence >> write)) w w' e in
      settle_task-IsGrowth n c execution task "after_task_fail" Operation.task_fail
        AuditResult.failure AttemptState.failed (some (truncate 4096 message)) none TaskState.failed
        none none w w' keys
        (state_of_same TaskState.running (state_at task.id w.db) task running_only
          (running_only task.state runs) same)
        (validated task c.attempt_id c.lease_owner false write w w'
          (transaction-eq-ok (fence >> write) w w' e1))

  pub fail_task-IsGrowth :
      (w w' : World) (t : Task)
      → has_task_keys w.db.tasks ≡ true
      → fail_task n c message w ≡ (ok t, w')
      → IsGrowth w.db w'.db
  unfolding fail_task
  fail_task-IsGrowth w w' t keys e =
      call-IsGrowth Permission.execution_start c pure (commit_failure n c message) pure-same
        commit_failure-GrowsIfRead w w' t keys e

  commit_unknown-GrowsIfRead : GrowsIfRead (commit_unknown n c message)
  unfolding commit_unknown
  commit_unknown-GrowsIfRead execution task w w' keys live same e =
      let blocker = some "provider outcome unknown; reconciliation required" in
      let write =
        settle_task n c execution task AttemptState.unknown (some (truncate 4096 message))
          (fence_of c task) TaskState.blocked blocker none "after_provider_unknown"
          Operation.task_provider_unknown AuditResult.error in
      let fence = validate_attempt_identity task c.attempt_id c.lease_owner true in
      let (runs, e1) =
        guard-eq-ok (task_state_eq task.state TaskState.running) Error.invalid_task_transition
          (transaction (fence >> write)) w w' e in
      settle_task-IsGrowth n c execution task "after_provider_unknown"
        Operation.task_provider_unknown AuditResult.error AttemptState.unknown
        (some (truncate 4096 message)) (fence_of c task) TaskState.blocked blocker none w w' keys
        (state_of_same TaskState.running (state_at task.id w.db) task running_only
          (running_only task.state runs) same)
        (validated task c.attempt_id c.lease_owner true write w w'
          (transaction-eq-ok (fence >> write) w w' e1))

  pub mark_unknown-IsGrowth :
      (w w' : World) (t : Task)
      → has_task_keys w.db.tasks ≡ true
      → mark_provider_outcome_unknown n c message w ≡ (ok t, w')
      → IsGrowth w.db w'.db
  unfolding mark_provider_outcome_unknown
  mark_unknown-IsGrowth w w' t keys e =
      call-IsGrowth Permission.execution_start c pure (commit_unknown n c message) pure-same
        commit_unknown-GrowsIfRead w w' t keys e

  -- A cancellation does not ask for a running task.
  commit_cancellation-GrowsIfRead : GrowsIfRead (commit_cancellation n c message)
  unfolding commit_cancellation
  commit_cancellation-GrowsIfRead execution task w w' keys live same e =
      let write =
        settle_task n c execution task AttemptState.cancelled (some (truncate 4096 message)) none
          TaskState.cancelled none none "after_cancel" Operation.task_cancel AuditResult.success in
      let fence = validate_attempt_identity task c.attempt_id c.lease_owner false in
      settle_cancelled-IsGrowth n c execution task "after_cancel" Operation.task_cancel
        AuditResult.success AttemptState.cancelled (some (truncate 4096 message)) none
        TaskState.cancelled none none w w' refl keys
        (not_done_of_same (state_at task.id w.db) task live same)
        (validated task c.attempt_id c.lease_owner false write w w'
          (transaction-eq-ok (fence >> write) w w' e))

  pub cancel_task-IsGrowth :
      (w w' : World) (t : Task)
      → has_task_keys w.db.tasks ≡ true
      → cancel_task n c message w ≡ (ok t, w')
      → IsGrowth w.db w'.db
  unfolding cancel_task
  cancel_task-IsGrowth w w' t keys e =
      call-IsGrowth Permission.execution_stop c pure (commit_cancellation n c message) pure-same
        commit_cancellation-GrowsIfRead w w' t keys e

module _ (mentions : String → String → Bool) (n : ℕ) (c : TaskCall) (evidence : List String)
    (ids : List ArtifactId) where
  commit_completion-GrowsIfRead : GrowsIfRead (commit_completion mentions n c evidence ids)
  unfolding commit_completion
  commit_completion-GrowsIfRead execution task w w' keys live same e =
      let fence = validate_attempt_identity task c.attempt_id c.lease_owner true in
      let labels = check_labels mentions n c evidence ids execution task in
      let artifacts = check_artifacts mentions n c evidence ids execution task in
      let (durable, v, e1, e2) =
        >>=-eq-ok (validate_evidence_artifacts mentions task c.attempt_id ids) labels w w' (
          validated task c.attempt_id c.lease_owner true artifacts w w'
            (transaction-eq-ok (fence >> artifacts) w w' e)) in
      let (_, start, _) =
        validate_evidence_artifacts-proves mentions task c.attempt_id ids durable w v e1 in
      let (_, e3) =
        guard-eq-ok (all (λ label. member label evidence) task.expected_evidence)
          Error.missing_evidence (check_running mentions n c evidence ids execution task durable) v
          w' e2 in
      let write = write_completion mentions n c evidence ids execution task durable in
      let (runs, e4) =
        guard-eq-ok (task_state_eq task.state TaskState.running) Error.invalid_task_transition write
          v w' e3 in
      settle_task-IsGrowth n c execution task "after_task_complete" Operation.task_complete
        AuditResult.success AttemptState.succeeded none (fence_of c task) TaskState.completed none
        (some (or_provided durable evidence)) w w' keys
        (state_of_same TaskState.running (state_at task.id w.db) task running_only
          (running_only task.state runs) same)
        (subst (λ (x : World). write x ≡ (ok tt, w')) start e4)

  pub complete_task-IsGrowth :
      (w w' : World) (t : Task)
      → has_task_keys w.db.tasks ≡ true
      → complete_task mentions n c evidence ids w ≡ (ok t, w')
      → IsGrowth w.db w'.db
  unfolding complete_task
  complete_task-IsGrowth w w' t keys e =
      call-IsGrowth Permission.execution_start c (completed_before c)
        (commit_completion mentions n c evidence ids)
        (λ task x u v h. (completed_before-same c task x u v h).1) commit_completion-GrowsIfRead w
        w' t keys e

-- What the checks of a requeue have read.
pub record IsFailedRead (r : Request) (w w' : World) (task : Task) : Type 0 where
  pub found : find_task r.task_id (some r.project_id) w.db ≡ some task
  pub failed : task.state ≡ TaskState.failed
  pub same : w' ≡ w

pub open_request-IsFailedRead :
    (r : Request) (w w' : World) (execution : Execution) (task : Task)
    → open_request TaskState.failed r w ≡ (ok (execution, task), w')
    → IsFailedRead r w w' task
unfolding open_request read_task get_execution get_task
open_request-IsFailedRead r w w' execution task e = ground (
  arith,
  require_permission-refines-policy r.actor_id r.project_id Permission.execution_start r.source w,
  failed_only task.state,
)

pub requeue-IsGrowth :
    (r : Request) (w w' : World) (t : Task)
    → has_task_keys w.db.tasks ≡ true
    → requeue_failed_task r w ≡ (ok t, w')
    → IsGrowth w.db w'.db
unfolding requeue_failed_task
requeue-IsGrowth r w w' t keys e =
    let ((execution, task), u, e1, e2) =
      >>=-eq-ok (open_request TaskState.failed r)
        (λ x. commit_requeue r x >> get_task r.task_id (some r.project_id)) w w' e in
    let (_, v, e3, e4) =
      >>=-eq-ok (commit_requeue r (execution, task)) (λ _. get_task r.task_id (some r.project_id)) u
        w' e2 in
    let o = open_request-IsFailedRead r w u execution task e1 in
    subst (λ (x : World). IsGrowth w.db x.db) (sym (get_task-same r.task_id r.project_id v w' t e4))
      (commit_requeue-IsGrowth r execution task w v
        (state_of_same TaskState.failed (state_at task.id w.db) task failed_only o.failed
          (found-same_state r.task_id r.project_id w.db task keys o.found))
        (subst (λ (x : World). commit_requeue r (execution, task) x ≡ (ok tt, v)) o.same e3))
