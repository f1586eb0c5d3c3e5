-- ===== src/Authorization.antt =====
-- src/zero/app/authorization_service.py: the one decision path of every protected operation.
pub mod Matrix
pub mod Decision
use zero_agent_dev_telegram.Common.{ℕ, Bool, true, false, Option, none, some, if◌then◌else◌, first}
use zero_agent_dev_telegram.Domain.Identity.{UserId, ProjectId, ProjectRole, ProjectScope, User}
use zero_agent_dev_telegram.Domain.Authorization.{
  Permission, AuthorizationReason, AuthorizationDecision, allow, deny, role_has_permission,
}
use zero_agent_dev_telegram.Domain.Audit.{Source, Operation, Target, AuditResult, AuditEvent}
use zero_agent_dev_telegram.Domain.Errors.{Error}
use zero_agent_dev_telegram.Exec.{Exec, pure, raise, ◌>>=◌, ◌>>◌, query, generate_token}
use zero_agent_dev_telegram.Repository.Identity.{find_user, resolve_scope}
use zero_agent_dev_telegram.Repository.Audit.{insert_audit_event}

abbrev denial_event : ℕ → AuthorizationDecision → Source → AuditEvent
denial_event id decision source = record {
  id = id;
  project_id = some decision.project_id;
  actor_id = decision.actor_id;
  source = source;
  operation = Operation.authz decision.permission;
  target = Target.permission decision.permission;
  result = AuditResult.denied;
  correlation_id = none;
}

unfoldable pub audit_denial : AuthorizationDecision → Source → Exec Unit
unfolding generate_token insert_audit_event
audit_denial decision source = do
  id ← generate_token
  insert_audit_event (denial_event id decision source)

abbrev refuse : AuthorizationDecision → Source → Exec AuthorizationDecision
refuse decision source = do audit_denial decision source; pure decision

-- The checks that follow the lookup of the actor; a member's scope always has a role.
abbrev decide_in_scope :
    UserId → ProjectId → Permission → Source → Option ProjectRole → Exec AuthorizationDecision
decide_in_scope actor project permission source none =
    refuse (deny (some actor) project permission none AuthorizationReason.not_member) source
decide_in_scope actor project permission source (some role) =
    if role_has_permission role permission
    then pure (allow actor project permission role)
    else refuse
        (deny (some actor) project permission (some role) AuthorizationReason.permission_denied)
        source

abbrev decide_for_user :
    UserId → ProjectId → Permission → Source → Option User → Exec AuthorizationDecision
decide_for_user actor project permission source none =
    refuse (deny none project permission none AuthorizationReason.user_not_found) source
decide_for_user actor project permission source (some user) = do
  scope ← query (resolve_scope project actor)
  decide_in_scope actor project permission source scope.role

unfoldable pub authorize : UserId → ProjectId → Permission → Source → Exec AuthorizationDecision
unfolding audit_denial find_user resolve_scope role_has_permission
authorize actor project permission source = do
  user ← query (find_user actor)
  decide_for_user actor project permission source user

abbrev or_denied : AuthorizationDecision → Exec AuthorizationDecision
or_denied decision =
    if decision.allowed then pure decision else raise (Error.authorization decision)

unfoldable pub require_permission :
    UserId → ProjectId → Permission → Source → Exec AuthorizationDecision
require_permission actor project permission source = do
  decision ← authorize actor project permission source
  or_denied decision
