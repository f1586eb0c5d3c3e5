-- ===== src/PlanService/Interleaving.antt =====
-- The threads of the control plane as interleaved steps: the checks of a method of
-- src/zero/app/plan_service.py run outside its transaction, and the transaction is one step.
use zero_agent_dev_telegram.Common.{ℕ, ◌≡◌, Option, String, arith}
use zero_agent_dev_telegram.Domain.Identity.{UserId, ProjectId}
use zero_agent_dev_telegram.Domain.Authorization.{Permission}
use zero_agent_dev_telegram.Domain.Audit.{Source}
use zero_agent_dev_telegram.Domain.Plans.{EventOriginKind, PlanRevision}
use zero_agent_dev_telegram.Database.{Db, World}
use zero_agent_dev_telegram.Exec.{ok}
use zero_agent_dev_telegram.Authorization.Decision.{require_permission-refines-policy}
use zero_agent_dev_telegram.PlanService.Intake.{ingest_conversation_event, create_plan}
use zero_agent_dev_telegram.PlanService.Proposals.{Proposal, prepare_proposal, commit_proposal}
use zero_agent_dev_telegram.PlanService.Verdicts.{Verdict}
use zero_agent_dev_telegram.PlanService.Approvals.{ApprovalClaim, prepare_approval, commit_approval}
use zero_agent_dev_telegram.PlanService.Rejections.{
  RejectionClaim, prepare_rejection, commit_rejection,
}
use zero_agent_dev_telegram.PlanService.Atomicity.{
  SameButAudit, prepare_proposal-SameButAudit, prepare_approval-SameButAudit,
  prepare_rejection-SameButAudit,
}
use zero_agent_dev_telegram.PlanService.Pairing.{
  IsPaired, prepare_approval-IsClaim, prepare_rejection-IsRejection, commit_approval-IsPaired,
  commit_rejection-IsPaired,
}

-- One step of some thread. What a transaction stores was prepared in an earlier world, `v`.
pub data Step (w : World) : World → Type 0 where
  ingest :
      (redact : String → String) (project : ProjectId) (actor : UserId) (source : Source)
      (kind : EventOriginKind) (content : String) (external : Option String)
      → Step w (ingest_conversation_event redact project actor source kind content external w).1
  create :
      (project : ProjectId) (actor : UserId) (source : Source)
      → Step w (create_plan project actor source w).1
  check_proposal : (r : Proposal) → Step w (prepare_proposal r w).1
  store_proposal :
      (r : Proposal) (revision : PlanRevision) → Step w (commit_proposal r revision w).1
  check_approval : (r : Verdict) → Step w (prepare_approval r w).1
  store_approval :
      (r : Verdict) (c : ApprovalClaim) (v v' : World)
      → prepare_approval r v ≡ (ok c, v')
      → Step w (commit_approval r c w).1
  check_rejection : (r : Verdict) → Step w (prepare_rejection r w).1
  store_rejection :
      (r : Verdict) (c : RejectionClaim) (v v' : World)
      → prepare_rejection r v ≡ (ok c, v')
      → Step w (commit_rejection r c w).1
  tick : (now : ℕ) → Step w (record w { now = now })

pub data Reach (w : World) : World → Type 0 where
  here : Reach w w
  next : {u v : World} → Reach w u → Step u v → Reach w v

IsPaired-of_same : {d d' : Db} → SameButAudit d d' → IsPaired d → IsPaired d'
IsPaired-of_same {d} {d'} same p = record {
  paired = λ rid. ground (arith, p.paired rid);
  single = λ rid. ground (arith, p.single rid);
}

-- The tables of a world in which neither approvals nor handoffs have changed.
abbrev SamePairs : Db → Db → Type 0
SamePairs d d' = (d'.plan_approvals ≡ d.plan_approvals) × (d'.plan_handoffs ≡ d.plan_handoffs)

IsPaired-of_pairs : {d d' : Db} → SamePairs d d' → IsPaired d → IsPaired d'
IsPaired-of_pairs {d} {d'} same p = record {
  paired = λ rid. rw same.0 (rw same.1 (p.paired rid));
  single = λ rid. rw same.1 (p.single rid);
}

ingest-SamePairs :
    (redact : String → String) (project : ProjectId) (actor : UserId) (source : Source)
    (kind : EventOriginKind) (content : String) (external : Option String) (w : World)
    → SamePairs w.db
        (ingest_conversation_event redact project actor source kind content external w).1.db
unfolding ingest_conversation_event
ingest-SamePairs redact project actor source kind content external w =
    ground (arith, require_permission-refines-policy actor project Permission.project_view source w)

create-SamePairs :
    (project : ProjectId) (actor : UserId) (source : Source) (w : World)
    → SamePairs w.db (create_plan project actor source w).1.db
unfolding create_plan
create-SamePairs project actor source w =
    ground (arith, require_permission-refines-policy actor project Permission.plan_propose source w)

store-SamePairs :
    (r : Proposal) (revision : PlanRevision) (w : World)
    → SamePairs w.db (commit_proposal r revision w).1.db
unfolding commit_proposal
store-SamePairs r revision w = ground arith

Step-IsPaired : {w w' : World} → Step w w' → IsPaired w.db → IsPaired w'.db
Step-IsPaired {w} (ingest redact project actor source kind content external) p =
    IsPaired-of_pairs (ingest-SamePairs redact project actor source kind content external w) p
Step-IsPaired {w} (create project actor source) p =
    IsPaired-of_pairs (create-SamePairs project actor source w) p
Step-IsPaired {w} (check_proposal r) p = IsPaired-of_same (prepare_proposal-SameButAudit r w) p
Step-IsPaired {w} (store_proposal r revision) p = IsPaired-of_pairs (store-SamePairs r revision w) p
Step-IsPaired {w} (check_approval r) p = IsPaired-of_same (prepare_approval-SameButAudit r w) p
Step-IsPaired {w} (store_approval r c v v' e) p =
    commit_approval-IsPaired r c w (prepare_approval-IsClaim r v v' c e) p
Step-IsPaired {w} (check_rejection r) p = IsPaired-of_same (prepare_rejection-SameButAudit r w) p
Step-IsPaired {w} (store_rejection r c v v' e) p =
    commit_rejection-IsPaired r c w (prepare_rejection-IsRejection r v v' c e) p
Step-IsPaired (tick now) p = p

-- However the steps of the threads interleave, a revision has a handoff exactly when it has an
-- approval, and never two handoffs, if that held at the start.
pub Reach-IsPaired : {w w' : World} → IsPaired w.db → Reach w w' → IsPaired w'.db
Reach-IsPaired p here = p
Reach-IsPaired p (next r st) = Step-IsPaired st (Reach-IsPaired p r)
