-- ===== src/Repository/Attempts.antt =====
-- src/zero/persistence/repositories/execution_repository.py: attempts with their leases, and
-- snapshots. A claim numbers attempts upwards, so insertion order is ORDER BY attempt_number.
use zero_agent_dev_telegram.Common.{
  ℕ, ◌+◌, ◌*◌, Bool, true, false, not, ◌&&◌, ◌||◌, Option, none, some, List, [], ◌∷◌, ◌++◌, String,
  ◌==◌, ltb, text_eq, any, first, select, update, if◌then◌else◌,
}
use zero_agent_dev_telegram.Domain.Identity.{ProjectId}
use zero_agent_dev_telegram.Domain.Execution.{
  ExecutionId, TaskId, TaskAttemptId, AttemptState, TaskAttempt, LeaseText, ExecutionSnapshot,
  attempt_is_running,
}
use zero_agent_dev_telegram.Domain.Errors.{Error}
use zero_agent_dev_telegram.Database.{Db}
use zero_agent_dev_telegram.Exec.{Exec, or_raise, guard, ◌>>=◌, ◌>>◌, query, write, read_clock}

abbrev same_attempt : TaskAttempt → TaskAttempt → Bool
same_attempt a b = a.task_id == b.task_id && a.attempt_number == b.attempt_number

-- UNIQUE (task_id, attempt_number).
unfoldable pub insert_attempt : TaskAttempt → Exec Unit
insert_attempt attempt = do
  taken ← query (λ db. any (same_attempt attempt) db.task_attempts)
  guard (not taken) Error.duplicate_attempt
  write (λ db. record db { task_attempts = db.task_attempts ++ attempt ∷ [] })

unfoldable pub find_attempt : TaskAttemptId → Db → Option TaskAttempt
find_attempt attempt_id db = first (λ a. a.id == attempt_id) db.task_attempts

-- TaskNotFoundError is what the source raises for a missing attempt too.
unfoldable pub get_attempt : TaskAttemptId → Exec TaskAttempt
get_attempt attempt_id = do row ← query (find_attempt attempt_id); or_raise Error.task_not_found row

unfoldable pub list_attempts_for_task : TaskId → Db → List TaskAttempt
list_attempts_for_task task_id db = select (λ a. a.task_id == task_id) db.task_attempts

-- `lease_expires_at IS NOT NULL AND julianday(lease_expires_at) > julianday('now')`; the date of
-- malformed text is NULL.
abbrev pub is_live_lease : ℕ → Option LeaseText → Bool
is_live_lease now none = false
is_live_lease now (some (LeaseText.instant expires)) = ltb now expires
is_live_lease now (some LeaseText.malformed) = false

abbrev pub owned_by : String → Option String → Bool
owned_by owner none = false
owned_by owner (some stored) = text_eq stored owner

-- The identity that `require_active_lease` checks.
pub record Fence : Type 0 where
  pub task_id : TaskId
  pub project_id : ProjectId
  pub lease_owner : String

abbrev pub holds_lease : ℕ → TaskAttemptId → Fence → TaskAttempt → Bool
holds_lease now attempt_id fence a =
    (a.id == attempt_id && (a.task_id == fence.task_id && a.project_id == fence.project_id))
    && (attempt_is_running a.state
        && (owned_by fence.lease_owner a.lease_owner && is_live_lease now a.lease_expires_at))

-- The WHERE clause of `update_attempt_state`, fenced or by id alone.
abbrev pub fenced : ℕ → TaskAttemptId → Option Fence → TaskAttempt → Bool
fenced now attempt_id none a = a.id == attempt_id
fenced now attempt_id (some fence) a = holds_lease now attempt_id fence a

abbrev pub missing_row : Option Fence → Error
missing_row none = Error.task_not_found
missing_row (some fence) = Error.lease_ownership

abbrev pub attempt_with : ℕ → AttemptState → Option String → TaskAttempt → TaskAttempt
attempt_with now new_state error_message a = record a {
  state = new_state;
  error_message = error_message;
  completed_at = if attempt_is_running new_state then a.completed_at else some now;
}

abbrev is_fenced : Option Fence → Bool
is_fenced none = false
is_fenced (some fence) = true

unfoldable pub update_attempt_state :
    TaskAttemptId → AttemptState → (error_message : Option String) → Option Fence → Exec Unit
update_attempt_state attempt_id new_state error_message fence = do
  guard (not (is_fenced fence && attempt_is_running new_state)) Error.invalid_task_transition
  at ← read_clock
  hit ← query (λ db. any (fenced at attempt_id fence) db.task_attempts)
  guard hit (missing_row fence)
  write (λ db. record db {
    task_attempts =
        update (fenced at attempt_id fence) (attempt_with at new_state error_message)
          db.task_attempts;
  })

abbrev pub is_lease_duration : ℕ → Bool
is_lease_duration seconds = not (ltb seconds 1 || ltb 86400 seconds)

-- The clock counts microseconds, the precision of the stored text.
abbrev pub lease_until : ℕ → ℕ → Option LeaseText
lease_until now seconds = some (LeaseText.instant (now + seconds * 1000000))

unfoldable pub renew_attempt_lease : TaskAttemptId → Fence → (seconds : ℕ) → Exec Unit
renew_attempt_lease attempt_id fence seconds = do
  guard (is_lease_duration seconds) Error.lease_ownership
  at ← read_clock
  hit ← query (λ db. any (holds_lease at attempt_id fence) db.task_attempts)
  guard hit Error.lease_ownership
  write (λ db. record db {
    task_attempts =
        update (holds_lease at attempt_id fence)
          (λ a. record a { lease_expires_at = lease_until at seconds }) db.task_attempts;
  })

abbrev same_version : ExecutionSnapshot → ExecutionSnapshot → Bool
same_version s t = s.execution_id == t.execution_id && s.snapshot_version == t.snapshot_version

-- UNIQUE (execution_id, snapshot_version).
unfoldable pub insert_snapshot : ExecutionSnapshot → Exec Unit
insert_snapshot snapshot = do
  taken ← query (λ db. any (same_version snapshot) db.execution_snapshots)
  guard (not taken) Error.integrity_error
  write (λ db. record db { execution_snapshots = db.execution_snapshots ++ snapshot ∷ [] })

abbrev later : ExecutionSnapshot → Option ExecutionSnapshot → Option ExecutionSnapshot
later s none = some s
later s (some t) = if ltb s.snapshot_version t.snapshot_version then some t else some s

latest : List ExecutionSnapshot → Option ExecutionSnapshot
latest [] = none
latest (s ∷ rest) = later s (latest rest)

-- ORDER BY snapshot_version DESC LIMIT 1.
unfoldable pub get_latest_snapshot : ExecutionId → Db → Option ExecutionSnapshot
unfolding latest
get_latest_snapshot execution_id db =
    latest (select (λ s. s.execution_id == execution_id) db.execution_snapshots)
