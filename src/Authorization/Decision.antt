-- ===== src/Authorization/Decision.antt =====
-- What the decision path of src/zero/app/authorization_service.py decides, and what it writes.
use zero_agent_dev_telegram.Common.{
  ◌≡◌, Bool, some, none, Option, [], ◌∷◌, ◌++◌, suc, arith, if◌then◌else◌,
}
use zero_agent_dev_telegram.Domain.Identity.{UserId, ProjectId, ProjectRole, User}
use zero_agent_dev_telegram.Domain.Authorization.{
  Permission, AuthorizationReason, AuthorizationDecision, allow, deny, role_has_permission,
}
use zero_agent_dev_telegram.Domain.Audit.{Source}
use zero_agent_dev_telegram.Domain.Errors.{Error}
use zero_agent_dev_telegram.Database.{Db, World}
use zero_agent_dev_telegram.Exec.{Result, ok, err}
use zero_agent_dev_telegram.Repository.Identity.{find_user, resolve_scope}
use zero_agent_dev_telegram.Authorization.{denial_event, authorize, require_permission}

-- The policy, as a function of the stored facts alone.
abbrev decision_in_scope :
    UserId → ProjectId → Permission → Option ProjectRole → AuthorizationDecision
decision_in_scope actor project permission none =
    deny (some actor) project permission none AuthorizationReason.not_member
decision_in_scope actor project permission (some role) =
    if role_has_permission role permission
    then allow actor project permission role
    else deny (some actor) project permission (some role) AuthorizationReason.permission_denied

abbrev decision_for_user :
    UserId → ProjectId → Permission → Db → Option User → AuthorizationDecision
decision_for_user actor project permission db none =
    deny none project permission none AuthorizationReason.user_not_found
decision_for_user actor project permission db (some user) =
    decision_in_scope actor project permission (resolve_scope project actor db).role

unfoldable pub policy : UserId → ProjectId → Permission → Db → AuthorizationDecision
policy actor project permission db =
    decision_for_user actor project permission db (find_user actor db)

-- The world after a refusal has one more audit event, and nothing else is new.
abbrev pub after_denial : AuthorizationDecision → Source → World → World
after_denial decision source w = record w {
  db = record w.db {
    audit_events = w.db.audit_events ++ denial_event w.next_token decision source ∷ [];
  };
  next_token = suc w.next_token;
}

abbrev pub verdict : AuthorizationDecision → Source → World → Result AuthorizationDecision × World
verdict d source w =
    if d.allowed then (ok d, w) else (err (Error.authorization d), after_denial d source w)

-- `require_permission` implements the policy: an allowed call returns the decision and writes
-- nothing, and a refused call raises the decision and appends the one event that records it.
pub require_permission-refines-policy :
    (actor : UserId) (project : ProjectId) (permission : Permission) (source : Source) (w : World)
    → require_permission actor project permission source w
      ≡ verdict (policy actor project permission w.db) source w
unfolding require_permission authorize policy
require_permission-refines-policy actor project permission source w = ground arith

abbrev pub permitted : UserId → ProjectId → Permission → Db → Bool
permitted actor project permission db = (policy actor project permission db).allowed
