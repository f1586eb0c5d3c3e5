-- ===== src/Examples/Decisions.antt =====
-- Decisions of src/zero/app/authorization_service.py in the sample project.
use zero_agent_dev_telegram.Common.{◌≡◌, ◌≢◌, ◌↔◌, true, false, refl, first}
use zero_agent_dev_telegram.Domain.Identity.{ProjectRole}
use zero_agent_dev_telegram.Domain.Authorization.{Permission, role_has_permission}
use zero_agent_dev_telegram.Domain.Audit.{Source}
use zero_agent_dev_telegram.Authorization.{require_permission}
use zero_agent_dev_telegram.Authorization.Matrix.{role_matrix}
use zero_agent_dev_telegram.Authorization.Decision.{
  policy, verdict, permitted, require_permission-refines-policy,
}
use zero_agent_dev_telegram.Repository.Identity.{find_user, resolve_scope}
use zero_agent_dev_telegram.Samples.{db, world}

require_permission-refines-policy_example :
    require_permission 2 10 Permission.plan_approve Source.web world
    ≡ verdict (policy 2 10 Permission.plan_approve db) Source.web world
require_permission-refines-policy_example =
    require_permission-refines-policy 2 10 Permission.plan_approve Source.web world

role_matrix_example :
    (role_has_permission ProjectRole.owner Permission.secret_manage ≡ true)
    × ((role_has_permission ProjectRole.member Permission.secret_manage ≡ true) ↔ (
        (Permission.secret_manage ≢ Permission.tool_manage)
        × (Permission.secret_manage ≢ Permission.secret_manage)
        × (Permission.secret_manage ≢ Permission.member_manage)
        × (Permission.secret_manage ≢ Permission.audit_view)))
    × (role_has_permission ProjectRole.viewer Permission.secret_manage ≡ true
        → role_has_permission ProjectRole.member Permission.secret_manage ≡ true)
role_matrix_example = role_matrix Permission.secret_manage

-- A viewer may not approve, and the refusal is recorded.
viewer_is_refused : permitted 2 10 Permission.plan_approve db ≡ false
unfolding policy find_user first resolve_scope role_has_permission
viewer_is_refused = refl
