-- ===== src/Examples/Plans.antt =====
-- The plan lifecycle of src/zero/app/plan_service.py on the sample plan.
use zero_agent_dev_telegram.Common.{
  ◌≡◌, ◌↔◌, ◌⊎◌, refl, arith, none, some, suc, [], true, first, select, is_blank, strip,
}
use zero_agent_dev_telegram.Domain.Authorization.{Permission, role_has_permission}
use zero_agent_dev_telegram.Domain.Audit.{Source}
use zero_agent_dev_telegram.Domain.Plans.{
  PlanState, RevisionState, Plan, PlanRevision, PlanApproval, is_valid_transition, EventOriginKind,
  ConversationEvent, ApprovalResult,
}
use zero_agent_dev_telegram.Domain.Errors.{Error}
use zero_agent_dev_telegram.Database.{World}
use zero_agent_dev_telegram.Exec.{ok, err}
use zero_agent_dev_telegram.Authorization.{require_permission, authorize}
use zero_agent_dev_telegram.Authorization.Decision.{policy, permitted}
use zero_agent_dev_telegram.Repository.Identity.{find_user, resolve_scope}
use zero_agent_dev_telegram.Repository.Plan.{
  find_plan, find_revision, get_approval_for_revision, get_handoff_for_revision,
}
use zero_agent_dev_telegram.PlanService.Content.{content_errors}
use zero_agent_dev_telegram.PlanService.Provenance.{IsValidContent, content_errors-nil_iff}
use zero_agent_dev_telegram.PlanService.Intake.{ingest_conversation_event}
use zero_agent_dev_telegram.PlanService.Verdicts.{Verdict}
use zero_agent_dev_telegram.PlanService.Proposals.{propose_revision}
use zero_agent_dev_telegram.PlanService.Proposing.{propose_revision-effect}
use zero_agent_dev_telegram.PlanService.Approvals.{
  ApprovalClaim, prepare_approval, commit_approval, approve_revision,
}
use zero_agent_dev_telegram.PlanService.Rejections.{
  RejectionClaim, prepare_rejection, commit_rejection, reject_revision,
}
use zero_agent_dev_telegram.PlanService.Pairing.{IsPaired}
use zero_agent_dev_telegram.PlanService.Inversion.{IsCurrent, HasPlanKey}
use zero_agent_dev_telegram.PlanService.Approving.{
  approved_by, handoff_for, claimed, after_approval, approve_revision-effect,
}
use zero_agent_dev_telegram.PlanService.Replay.{approve_revision_twice}
use zero_agent_dev_telegram.PlanService.Refusals.{stale_verdict, ingest_twice}
use zero_agent_dev_telegram.PlanService.Races.{approval_over_proposal}
use zero_agent_dev_telegram.PlanService.RejectionRace.{rejection_over_approval}
use zero_agent_dev_telegram.PlanService.Interleaving.{
  check_approval, store_approval, here, next, Reach-IsPaired,
}
use zero_agent_dev_telegram.Samples.{plan, revision, content, db, world, verdict, proposal}
use zero_agent_dev_telegram.PlanService.Proposals.{prepare_proposal}
use zero_agent_dev_telegram.PlanService.Content.{event_errors}
use zero_agent_dev_telegram.PlanService.Proposals.{commit_proposal}

db-IsPaired : IsPaired db
unfolding select
db-IsPaired = record { paired = λ rid. refl; single = λ rid. ground arith }

verdict-IsCurrent : IsCurrent verdict db plan revision
unfolding find_plan find_revision first
verdict-IsCurrent = record { scoped = refl; keyed = refl; at_revision = refl; expected = refl }

may_approve : permitted 1 10 Permission.plan_approve db ≡ true
unfolding policy find_user first resolve_scope role_has_permission
may_approve = refl

may_reject : permitted 1 10 Permission.plan_reject db ≡ true
unfolding policy find_user first resolve_scope role_has_permission
may_reject = refl

unapproved : get_approval_for_revision 101 ApprovalResult.approved db ≡ none
unfolding get_approval_for_revision first
unapproved = refl

abbrev approval : PlanApproval
approval = approved_by verdict plan revision world

abbrev fresh : ApprovalClaim
fresh = ApprovalClaim.fresh plan revision approval (handoff_for verdict plan revision world)

fresh_is_prepared : prepare_approval verdict world ≡ (ok fresh, claimed verdict plan revision world)
unfolding prepare_approval require_permission authorize first find_plan find_revision
    is_valid_transition
fresh_is_prepared = refl

approve_revision-effect_example : approve_revision verdict world ≡ (
  ok (approval, handoff_for verdict plan revision world),
  after_approval verdict plan revision approval
      (handoff_for verdict plan revision world)
      (claimed verdict plan revision world),
)
approve_revision-effect_example =
    approve_revision-effect verdict plan revision world verdict-IsCurrent may_approve unapproved
      refl (ground arith) db-IsPaired

Reach-IsPaired_example :
    IsPaired (commit_approval verdict fresh (prepare_approval verdict world).1).1.db
Reach-IsPaired_example = Reach-IsPaired db-IsPaired (
    next (next here (check_approval verdict))
      (store_approval verdict fresh world (claimed verdict plan revision world) fresh_is_prepared))

still_may_approve :
    permitted 1 10 Permission.plan_approve (approve_revision verdict world).1.db ≡ true
unfolding approve_revision policy find_user first prepare_approval require_permission authorize
    find_plan find_revision is_valid_transition commit_approval
still_may_approve = refl

approve_revision_twice_example :
    approve_revision
      (record verdict { idempotency_key = "press-2" })
      (approve_revision verdict world).1
    ≡ approve_revision verdict world
approve_revision_twice_example =
    approve_revision_twice verdict (record verdict { idempotency_key = "press-2" }) plan revision
      world verdict-IsCurrent may_approve unapproved refl (ground arith) db-IsPaired refl refl refl
      still_may_approve

content_errors-nil_iff_example : (content_errors db 10 content ≡ []) ↔ IsValidContent db 10 content
content_errors-nil_iff_example = content_errors-nil_iff db 10 content

abbrev old_verdict : Verdict
old_verdict = record verdict { expected_revision_number = 0 }

stale_verdict_example :
    (approve_revision old_verdict world ≡ (err (Error.stale_revision 0 1), world))
    × (reject_revision old_verdict world ≡ (err (Error.stale_revision 0 1), world))
stale_verdict_example =
    stale_verdict old_verdict plan world may_approve may_reject verdict-IsCurrent.scoped
      (ground arith)

abbrev delivered : ConversationEvent
delivered = record {
  id = 900;
  project_id = 10;
  actor_id = 1;
  source = Source.telegram;
  external_event_id = some "update-2";
  origin_kind = EventOriginKind.authenticated_human;
  content = "hello";
}

abbrev after_delivery : World
after_delivery =
    (ingest_conversation_event (λ s. s) 10 1 Source.telegram EventOriginKind.authenticated_human
      "hello" (some "update-2") world).1

ingest_succeeds :
    ingest_conversation_event
      (λ s. s)
      10
      1
      Source.telegram
      EventOriginKind.authenticated_human
      "hello"
      (some "update-2")
      world
    ≡ (ok delivered, after_delivery)
unfolding ingest_conversation_event is_blank require_permission authorize first strip
ingest_succeeds = refl

may_view : permitted 2 10 Permission.project_view after_delivery.db ≡ true
unfolding ingest_conversation_event policy find_user first is_blank require_permission authorize
may_view = refl

ingest_twice_example :
    ingest_conversation_event
      (λ s. s)
      10
      2
      Source.telegram
      EventOriginKind.tool_result
      "again"
      (some "update-2")
      after_delivery
    ≡ (
      err Error.duplicate_conversation_event,
      record after_delivery { next_token = suc after_delivery.next_token },
    )
unfolding is_blank
ingest_twice_example =
    ingest_twice (λ s. s) 10 10 1 2 Source.telegram EventOriginKind.authenticated_human
      EventOriginKind.tool_result "hello" "again" "update-2" world after_delivery delivered
      ingest_succeeds refl may_view

abbrev second_revision : PlanRevision
second_revision = record {
  id = 900;
  plan_id = 100;
  project_id = 10;
  revision_number = 2;
  content = content;
  proposed_by = 1;
  state = RevisionState.proposed;
}

abbrev after_proposal : World
after_proposal = (propose_revision proposal world).1

proposal_succeeds : propose_revision proposal world ≡ (ok second_revision, after_proposal)
unfolding propose_revision prepare_proposal require_permission authorize first find_plan
    content_errors is_blank event_errors commit_proposal
proposal_succeeds = refl

propose_revision-effect_example :
    (p : Plan) × (find_plan 100 (some 10) db ≡ some p)
    × (permitted 1 10 Permission.plan_propose db ≡ true)
    × IsValidContent db p.project_id content
    × ((p.current_state ≡ PlanState.draft) ⊎ (p.current_state ≡ PlanState.proposed))
    × (content ≡ content)
    × (2 ≡ suc p.current_revision_number)
    × (find_plan 100 (some 10) after_proposal.db
        ≡ some (record p { current_state = PlanState.proposed; current_revision_number = 2 }))
    × (find_revision 100 2 none after_proposal.db ≡ some second_revision)
propose_revision-effect_example =
    propose_revision-effect proposal world after_proposal second_revision proposal_succeeds

-- A proposal that comes between the checks of an approval and its transaction.
abbrev between : World
between = claimed verdict plan revision world

abbrev overtaking : PlanRevision
overtaking = record second_revision { id = 902 }

overtaking_succeeds :
    propose_revision proposal between ≡ (ok overtaking, (propose_revision proposal between).1)
unfolding propose_revision prepare_proposal require_permission authorize first find_plan
    content_errors is_blank event_errors commit_proposal
overtaking_succeeds = refl

keyed : HasPlanKey verdict db
unfolding find_plan first
keyed p e = e

approval_over_proposal_example :
    ((commit_approval verdict fresh (propose_revision proposal between).1).0
      ≡ ok (approval, handoff_for verdict plan revision world))
    × (approval.revision_id ≡ 101)
    × ((handoff_for verdict plan revision world).revision_id ≡ 101)
    × (2 ≡ suc 1)
    × (find_plan 100 none (commit_approval verdict fresh (propose_revision proposal between).1).1.db
        ≡ some (record plan { current_state = PlanState.approved; current_revision_number = 2 }))
approval_over_proposal_example =
    approval_over_proposal verdict proposal world between (propose_revision proposal between).1 plan
      revision overtaking approval (handoff_for verdict plan revision world) keyed db-IsPaired
      fresh_is_prepared refl refl overtaking_succeeds

abbrev rejection : PlanApproval
rejection = record approval { result = ApprovalResult.rejected }

abbrev after_rejection_checks : World
after_rejection_checks = (prepare_rejection verdict world).1

rejection_is_prepared :
    prepare_rejection verdict world
    ≡ (ok (RejectionClaim.fresh plan revision rejection), after_rejection_checks)
unfolding prepare_rejection require_permission authorize first find_plan find_revision
    is_valid_transition
rejection_is_prepared = refl

rejection_over_approval_example :
    ((approve_revision verdict after_rejection_checks).0
      ≡ ok (
        approved_by verdict plan revision after_rejection_checks,
        handoff_for verdict plan revision after_rejection_checks,
      ))
    × ((commit_rejection verdict
          (RejectionClaim.fresh plan revision rejection)
          (approve_revision verdict after_rejection_checks).1).0
        ≡ ok rejection)
    × (find_plan 100 none
          (commit_rejection verdict
            (RejectionClaim.fresh plan revision rejection)
            (approve_revision verdict after_rejection_checks).1).1.db
        ≡ some (record plan { current_state = PlanState.rejected }))
    × (get_handoff_for_revision 101 none
          (commit_rejection verdict
            (RejectionClaim.fresh plan revision rejection)
            (approve_revision verdict after_rejection_checks).1).1.db
        ≡ some (handoff_for verdict plan revision after_rejection_checks))
rejection_over_approval_example =
    rejection_over_approval verdict verdict world after_rejection_checks plan revision rejection
      verdict-IsCurrent db-IsPaired (ground arith) unapproved rejection_is_prepared refl refl refl
      may_approve
