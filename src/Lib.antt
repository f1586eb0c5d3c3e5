-- ===== src/Lib.antt =====
-- Zero Develop, a control plane for planned work by agents: humans propose and approve plans, and an
-- approved plan becomes a task graph that workers claim and settle.
--
-- The program's core is layered, and so is this library.
--
--   * Domain models src/zero/domain: identities and roles (Domain/Identity), the permission matrix
--     (Domain/Authorization), audit events (Domain/Audit), plans with their state machine
--     (Domain/Plans), executions, tasks, attempts and their state machines (Domain/Execution),
--     artifacts (Domain/Artifacts) and the raised errors (Domain/Errors).
--   * Database is the state: one list of rows for each table of src/zero/persistence, in insertion
--     order, with a clock and a source of fresh identifiers. Exec is a service method: it reads and
--     writes the world and may raise; `transaction` is Database.transaction of
--     src/zero/persistence/connection.py, which rolls the tables back on any raise.
--   * Repository models src/zero/persistence/repositories: identity, audit, plan and execution
--     repositories (Repository/Attempts has attempts, leases and snapshots), with the UNIQUE
--     constraints that an insert meets and the WHERE clause of each update.
--   * Authorization models src/zero/app/authorization_service.py, the one decision path of every
--     protected method: `authorize`, `require_permission` and the audited denial.
--   * PlanService models src/zero/app/plan_service.py. Each method is split where its transaction
--     starts: `prepare_…` is what it reads and checks before, `commit_…` is the transaction, and the
--     method (`propose_revision`, `approve_revision`, `reject_revision`) is the two in sequence.
--   * WorkerService models src/zero/app/worker_service.py in the same way: Specs and Creation
--     (`create_execution_from_handoff`, `_validate_specs`, `_detect_cycles`), Readiness
--     (`_recompute_readiness`), Completion (`_maybe_complete_execution`), Leases (`claim_task`,
--     `renew_task_lease`, `_validate_attempt_identity`), Evidence (`_validate_evidence_artifacts`),
--     Transitions (`complete_task`, `fail_task`, `mark_provider_outcome_unknown`, `cancel_task`),
--     Operators (`cancel_execution`, `requeue_failed_task`, `reconcile_blocked_task`,
--     `schedule_task_retry`) and Recovery (`recover_after_restart`, `reconcile_expired_leases`).
--   * Decomposition models the validator of src/zero/app/task_decomposition.py: Payload reads the
--     entries of a model's answer and Validation its edges (`validate_decomposition`, `_has_cycle`).
--   * Scheduler models a tick of src/zero/app/scheduler_service.py: Handoffs (which graph a revision
--     gets), Drains (how many ready tasks are run), Retries (the pass over failed tasks), Ticks
--     (`run_once` up to the retry pass), and Backoff is src/zero/app/retry_backoff.py.
--   * ApprovalGate models src/zero/app/approval_gate.py with a state of its own, since a gate keeps
--     its mode, its time to live and the grants of the session beside its table: Triage
--     (`_is_safe_readonly`), Evaluation (`evaluate`) and Resolution (`resolve`, `set_mode`).
--   * AgentTypes models the instances of src/zero/app/agent_type_service.py: Store is the repository
--     (`lease_instance_for_task` and the releases), Instances the methods (`create_instance`,
--     `assign_instance_to_task`, `complete_instance`) and Edits `update_type`. Its two tables stand
--     beside the world, and `in_world` runs the methods of the other services.
--
-- The proofs stand in child modules named for what they show: PlanService.Interleaving has the
-- threads of the control plane as steps between which anything else may commit, and
-- WorkerService.Ordered the order of work in a graph: Ordered/Reachable has the interleaved steps,
-- with the calls of Ordered/Endings, and Ordered/Overtaken what a requeue that comes too late does.
-- WorkerService.Acyclic has what the search for cycles finds, and ApprovalGate.Standing the steps at
-- the gate. AgentTypes.Steps has the histories of instances. The scheduler calls the worker service
-- and the plan service, and takes graphs that the decomposer makes. Common has the shared row
-- operations and their laws, and JSON values. Samples and Examples run the definitions on small
-- worlds.
--
-- Choices. An identifier is an opaque token: a number stands for it. Timestamps are left out but for
-- leases and terminal instants, in microseconds; rows ordered by `created_at` come in insertion
-- order; the clock stands still during one method. Summaries for display are left out. The loop of
-- `_detect_cycles` takes as much fuel as there are keys; an in-degree that the source takes below
-- zero stays at zero, which no test of the loop tells apart. The primary key of a table is a
-- hypothesis where a property needs it. The text search of evidence labels and the redaction of
-- conversation text are regular expressions, and parameters here. A method whose project or actor may
-- be missing is modelled with both given; `require_project_scope` has the refusal.
--
-- Parameters stand for what the language, a regular expression or a random source does: the reading
-- and printing of instants, the hint in an error text and the jitter of the backoff, the hardline
-- patterns and the hash of a call's arguments, `str` of a JSON value and `isalnum` of a key. The
-- runtime that runs ready tasks is one too: of it a property needs only that it keeps the budget of
-- a call. Of rows of one instant, the newest is the first. The gate's instants are whole seconds in
-- its table and microseconds on its clock, the statements of one evaluation run as one step, and its
-- process has one offset from UTC. `_has_cycle` takes as much fuel as there are keys.
--
-- Not modelled: process-local cancellation signals, metrics, logging, foreign keys and lineage
-- triggers, the optional agent type repository, JSON documents of snapshots, failures of the database
-- itself, the notifier and the listing of the gate, the integration and delivery phases of a tick, the
-- provider calls and repairs of the decomposer, knowledge records and the topology of agent types,
-- and the services around the core (providers, runtime, worktrees, integration, interfaces), whose
-- work is calls of models, git, HTTP and processes.
pub mod Common
pub mod Domain
pub mod Database
pub mod Exec
pub mod Repository
pub mod Authorization
pub mod PlanService
pub mod WorkerService
pub mod Decomposition
pub mod Scheduler
pub mod ApprovalGate
pub mod AgentTypes
pub mod Samples
pub mod Examples
