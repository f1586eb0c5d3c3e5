-- ===== src/Domain/Authorization.antt =====
-- src/zero/domain/authorization.py: permissions, the role matrix and decisions.
use zero_agent_dev_telegram.Common.{ℕ, Bool, true, false, Option, some, List, [], ◌∷◌, ◌==◌, any}
use zero_agent_dev_telegram.Domain.Identity.{UserId, ProjectId, ProjectRole}

pub data Permission : Type 0 where
  project_view : Permission
  plan_propose plan_edit plan_approve plan_reject : Permission
  execution_start execution_stop execution_view_diffs : Permission
  integration_authorize_merge agent_manage model_change : Permission
  tool_manage secret_manage member_manage cost_view audit_view : Permission

-- The place of a permission in ALL_PERMISSIONS, by which two are compared.
abbrev permission_index : Permission → ℕ
permission_index Permission.project_view = 0
permission_index Permission.plan_propose = 1
permission_index Permission.plan_edit = 2
permission_index Permission.plan_approve = 3
permission_index Permission.plan_reject = 4
permission_index Permission.execution_start = 5
permission_index Permission.execution_stop = 6
permission_index Permission.execution_view_diffs = 7
permission_index Permission.integration_authorize_merge = 8
permission_index Permission.agent_manage = 9
permission_index Permission.model_change = 10
permission_index Permission.tool_manage = 11
permission_index Permission.secret_manage = 12
permission_index Permission.member_manage = 13
permission_index Permission.cost_view = 14
permission_index Permission.audit_view = 15

abbrev pub permission_eq : Permission → Permission → Bool
permission_eq a b = permission_index a == permission_index b

abbrev pub all_permissions : List Permission
all_permissions =
    Permission.project_view ∷ Permission.plan_propose ∷ Permission.plan_edit
    ∷ Permission.plan_approve ∷ Permission.plan_reject ∷ Permission.execution_start
    ∷ Permission.execution_stop ∷ Permission.execution_view_diffs
    ∷ Permission.integration_authorize_merge ∷ Permission.agent_manage ∷ Permission.model_change
    ∷ Permission.tool_manage ∷ Permission.secret_manage ∷ Permission.member_manage
    ∷ Permission.cost_view ∷ Permission.audit_view ∷ []

-- ROLE_PERMISSIONS and `permissions_for_role`.
unfoldable pub permissions_for_role : ProjectRole → List Permission
permissions_for_role ProjectRole.owner = all_permissions
permissions_for_role ProjectRole.member =
    Permission.project_view ∷ Permission.plan_propose ∷ Permission.plan_edit
    ∷ Permission.plan_approve ∷ Permission.plan_reject ∷ Permission.execution_start
    ∷ Permission.execution_stop ∷ Permission.execution_view_diffs
    ∷ Permission.integration_authorize_merge ∷ Permission.agent_manage ∷ Permission.model_change
    ∷ Permission.cost_view ∷ []
permissions_for_role ProjectRole.viewer =
    Permission.project_view ∷ Permission.execution_view_diffs ∷ Permission.cost_view ∷ []

unfoldable pub role_has_permission : ProjectRole → Permission → Bool
unfolding permissions_for_role
role_has_permission role permission = any (permission_eq permission) (permissions_for_role role)

pub data AuthorizationReason : Type 0 where
  allowed not_member permission_denied suspended_user : AuthorizationReason
  deleted_user project_not_found user_not_found no_actor : AuthorizationReason

pub record AuthorizationDecision : Type 0 where
  pub allowed : Bool
  pub actor_id : Option UserId
  pub project_id : ProjectId
  pub permission : Permission
  pub role : Option ProjectRole
  pub reason : AuthorizationReason

abbrev pub allow : UserId → ProjectId → Permission → ProjectRole → AuthorizationDecision
allow actor project permission role = record {
  allowed = true;
  actor_id = some actor;
  project_id = project;
  permission = permission;
  role = some role;
  reason = AuthorizationReason.allowed;
}

-- The reason is never `allowed`: no caller passes it, and the source asserts it.
abbrev pub deny :
    Option UserId
    → ProjectId
    → Permission
    → Option ProjectRole
    → AuthorizationReason
    → AuthorizationDecision
deny actor project permission role reason = record {
  allowed = false;
  actor_id = actor;
  project_id = project;
  permission = permission;
  role = role;
  reason = reason;
}
