-- ===== src/PlanService/Refusals.antt =====
-- Verdicts and deliveries that src/zero/app/plan_service.py turns down.
use zero_agent_dev_telegram.Common.{
  suc, ◌≡◌, ◌≢◌, arith, true, false, some, none, String, any-append, [], ◌∷◌, is_blank, eq_iff,
}
use zero_agent_dev_telegram.Domain.Identity.{UserId, ProjectId}
use zero_agent_dev_telegram.Domain.Authorization.{Permission}
use zero_agent_dev_telegram.Domain.Audit.{Source}
use zero_agent_dev_telegram.Domain.Plans.{Plan, EventOriginKind, ConversationEvent}
use zero_agent_dev_telegram.Domain.Errors.{Error}
use zero_agent_dev_telegram.Database.{World}
use zero_agent_dev_telegram.Exec.{ok, err}
use zero_agent_dev_telegram.Authorization.Decision.{permitted, require_permission-refines-policy}
use zero_agent_dev_telegram.Repository.Plan.{find_plan, same_delivery}
use zero_agent_dev_telegram.PlanService.Intake.{ingest_conversation_event}
use zero_agent_dev_telegram.PlanService.Verdicts.{Verdict}
use zero_agent_dev_telegram.PlanService.Approvals.{
  prepare_approval, commit_approval, approve_revision,
}
use zero_agent_dev_telegram.PlanService.Rejections.{
  prepare_rejection, commit_rejection, reject_revision,
}

-- A verdict of someone who may give it, on a plan of the project that has another revision by now,
-- is refused as stale with both revision numbers, and nothing at all is written.
pub stale_verdict :
    (r : Verdict) (plan : Plan) (w : World)
    → permitted r.actor_id r.project_id Permission.plan_approve w.db ≡ true
    → permitted r.actor_id r.project_id Permission.plan_reject w.db ≡ true
    → find_plan r.plan_id (some r.project_id) w.db ≡ some plan
    → r.expected_revision_number ≢ plan.current_revision_number
    → (approve_revision r w
        ≡ (err (Error.stale_revision r.expected_revision_number plan.current_revision_number), w))
      × (reject_revision r w
          ≡ (err (Error.stale_revision r.expected_revision_number plan.current_revision_number), w))
unfolding approve_revision prepare_approval commit_approval reject_revision prepare_rejection
    commit_rejection
stale_verdict r plan w allowed allowed' found other = (
  ground (
    arith,
    require_permission-refines-policy r.actor_id r.project_id Permission.plan_approve r.source w,
  ),
  ground (
    arith,
    require_permission-refines-policy r.actor_id r.project_id Permission.plan_reject r.source w,
  ),
)

-- A verdict on a plan that another project owns finds no plan, whatever the revision, and nothing at
-- all is written.
pub foreign_verdict :
    (r : Verdict) (w : World)
    → permitted r.actor_id r.project_id Permission.plan_approve w.db ≡ true
    → permitted r.actor_id r.project_id Permission.plan_reject w.db ≡ true
    → find_plan r.plan_id (some r.project_id) w.db ≡ none
    → (approve_revision r w ≡ (err Error.plan_not_found, w))
      × (reject_revision r w ≡ (err Error.plan_not_found, w))
unfolding approve_revision prepare_approval commit_approval reject_revision prepare_rejection
    commit_rejection
foreign_verdict r w allowed allowed' missing = (
  ground (
    arith,
    require_permission-refines-policy r.actor_id r.project_id Permission.plan_approve r.source w,
  ),
  ground (
    arith,
    require_permission-refines-policy r.actor_id r.project_id Permission.plan_reject r.source w,
  ),
)

-- An event with a transport identity, once ingested, is not ingested again, whatever its project,
-- actor, kind and content: the second delivery is refused as a duplicate and stores nothing.
pub ingest_twice :
    (redact : String → String) (project project' : ProjectId) (actor actor' : UserId)
    (source : Source) (kind kind' : EventOriginKind) (content content' external : String)
    (w w' : World) (event : ConversationEvent)
    → ingest_conversation_event redact project actor source kind content (some external) w
      ≡ (ok event, w')
    → is_blank content' ≡ false
    → permitted actor' project' Permission.project_view w'.db ≡ true
    → ingest_conversation_event redact project' actor' source kind' content' (some external) w'
      ≡ (err Error.duplicate_conversation_event, record w' { next_token = suc w'.next_token })
unfolding ingest_conversation_event
ingest_twice redact project project' actor actor' source kind kind' content content' external w w'
      event h readable allowed =
    ground (
      arith,
      require_permission-refines-policy actor project Permission.project_view source w,
      require_permission-refines-policy actor' project' Permission.project_view source w',
      eq_iff external external,
      any-append (same_delivery event) w.db.conversation_events (event ∷ []),
    )
