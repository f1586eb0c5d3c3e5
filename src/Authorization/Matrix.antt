-- ===== src/Authorization/Matrix.antt =====
-- The role matrix of src/zero/domain/authorization.py.
use zero_agent_dev_telegram.Common.{◌≡◌, ◌↔◌, ◌≢◌, true, arith}
use zero_agent_dev_telegram.Domain.Identity.{ProjectRole}
use zero_agent_dev_telegram.Domain.Authorization.{Permission, role_has_permission}

-- Roles grow: an owner holds every permission, a member holds every permission but the four that
-- manage tools, secrets, members and the audit log, and a viewer's permissions are among a member's.
pub role_matrix :
    (p : Permission)
    → (role_has_permission ProjectRole.owner p ≡ true)
      × ((role_has_permission ProjectRole.member p ≡ true) ↔ (
          (p ≢ Permission.tool_manage)
          × (p ≢ Permission.secret_manage)
          × (p ≢ Permission.member_manage)
          × (p ≢ Permission.audit_view)))
      × (role_has_permission ProjectRole.viewer p ≡ true
          → role_has_permission ProjectRole.member p ≡ true)
unfolding role_has_permission
role_matrix Permission.project_view = (
  ground arith,
  (λ h. (ground arith, ground arith, ground arith, ground arith), λ h. ground arith),
  λ h. ground arith,
)
role_matrix p = (
  ground arith,
  (λ h. (ground arith, ground arith, ground arith, ground arith), λ h. ground arith),
  λ h. ground arith,
)
