-- ===== src/Repository/Identity.antt =====
-- src/zero/persistence/repositories/identity_repository.py: the reads that authorization makes.
use zero_agent_dev_telegram.Common.{Option, none, some, ◌==◌, ◌&&◌, first}
use zero_agent_dev_telegram.Domain.Identity.{
  UserId, ProjectId, User, ProjectMembership, ProjectScope, for_member, for_non_member,
}
use zero_agent_dev_telegram.Domain.Errors.{Error}
use zero_agent_dev_telegram.Database.{Db}
use zero_agent_dev_telegram.Exec.{Exec, or_raise, ◌>>=◌, query}

unfoldable pub find_user : UserId → Db → Option User
find_user user_id db = first (λ u. u.id == user_id) db.users

unfoldable pub get_user : UserId → Exec User
unfolding find_user
get_user user_id = do row ← query (find_user user_id); or_raise Error.user_not_found row

unfoldable pub get_membership : ProjectId → UserId → Db → Option ProjectMembership
get_membership project_id user_id db =
    first (λ m. m.project_id == project_id && m.user_id == user_id) db.project_memberships

abbrev pub scope_of : ProjectId → UserId → Option ProjectMembership → ProjectScope
scope_of project_id actor_id none = for_non_member project_id actor_id
scope_of project_id actor_id (some m) = for_member project_id actor_id m.role

unfoldable pub resolve_scope : ProjectId → UserId → Db → ProjectScope
unfolding get_membership
resolve_scope project_id actor_id db =
    scope_of project_id actor_id (get_membership project_id actor_id db)
