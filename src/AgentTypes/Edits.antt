-- ===== src/AgentTypes/Edits.antt =====
-- `update_type` of src/zero/app/agent_type_service.py. The model policy, an opaque mapping, and the
-- clock of a row are left out.
use zero_agent_dev_telegram.Common.{
  ◌≡◌, refl, arith, ℕ, suc, Bool, true, ◌&&◌, ◌==◌, Option, none, some, String, List, any, first,
  update, first-update, ap, ◌∙◌,
}
use zero_agent_dev_telegram.Domain.Identity.{ProjectId}
use zero_agent_dev_telegram.Domain.Authorization.{Permission, AuthorizationDecision}
use zero_agent_dev_telegram.Domain.Audit.{Operation, Target, AuditResult}
use zero_agent_dev_telegram.Domain.AgentTypes.{AgentTypeId, AgentType}
use zero_agent_dev_telegram.Domain.Errors.{Error}
use zero_agent_dev_telegram.Database.{World}
use zero_agent_dev_telegram.Exec.{Result, ok, err, generate_token}
use zero_agent_dev_telegram.Authorization.{require_permission}
use zero_agent_dev_telegram.Repository.Audit.{record_audit, insert_audit_event}
use zero_agent_dev_telegram.AgentTypes.Store.{
  Pool, PoolExec, in_world, ◌>>=◌, ◌>>◌, require, look, is_type, get_agent_type,
}
use zero_agent_dev_telegram.AgentTypes.Instances.{InstanceCall}

-- What is `none` is kept.
pub record TypeEdit : Type 0 where
  pub responsibility : Option String
  pub memory_scope : Option String
  pub permitted_tools : Option (List String)
  pub context_budget_tokens : Option ℕ
  pub max_concurrent_instances : Option ℕ

abbrev or_kept : {A : Type 0} → Option A → A → A
or_kept none old = old
or_kept (some new) old = new

abbrev pub edited : TypeEdit → AgentType → AgentType
edited e a = record a {
  responsibility = or_kept e.responsibility a.responsibility;
  memory_scope = or_kept e.memory_scope a.memory_scope;
  permitted_tools = or_kept e.permitted_tools a.permitted_tools;
  context_budget_tokens = or_kept e.context_budget_tokens a.context_budget_tokens;
  max_concurrent_instances = or_kept e.max_concurrent_instances a.max_concurrent_instances;
  version = suc a.version;
}

-- `UPDATE agent_types SET … WHERE id = ?`.
unfoldable pub update_agent_type : AgentTypeId → TypeEdit → PoolExec Unit
update_agent_type type_id e = do
  hit ← look (λ p. any (is_type type_id) p.agent_types)
  require hit Error.agent_type_not_found
  λ p. (ok tt, record p { agent_types = update (is_type type_id) (edited e) p.agent_types })

unfoldable pub update_type : InstanceCall → AgentTypeId → TypeEdit → PoolExec AgentType
unfolding update_agent_type get_agent_type require_permission record_audit
update_type c type_id e = do
  in_world (require_permission c.actor_id c.project_id Permission.agent_manage c.source)
  update_agent_type type_id e
  in_world (
      record_audit c.project_id c.actor_id c.source Operation.agent_type_update
        (Target.agent_type type_id) AuditResult.success none)
  get_agent_type c.project_id type_id

abbrev in_project : ProjectId → AgentTypeId → AgentType → Bool
in_project project_id type_id a = is_type type_id a && a.project_id == project_id

abbrev edit : InstanceCall → AgentTypeId → TypeEdit → PoolExec AgentType
edit c type_id e = do
  update_agent_type type_id e
  in_world (
      record_audit c.project_id c.actor_id c.source Operation.agent_type_update
        (Target.agent_type type_id) AuditResult.success none)
  get_agent_type c.project_id type_id

edit-foreign :
    (c : InstanceCall) (type_id : AgentTypeId) (e : TypeEdit) (p : Pool)
    → any (is_type type_id) p.agent_types ≡ true
    → first (in_project c.project_id type_id) p.agent_types ≡ none
    → ((edit c type_id e p).0 ≡ err Error.agent_type_not_found)
      × ((edit c type_id e p).1.agent_types ≡ update (is_type type_id) (edited e) p.agent_types)
unfolding update_agent_type get_agent_type record_audit insert_audit_event generate_token
edit-foreign c type_id e p hit foreign = ground (
  arith,
  first-update (in_project c.project_id type_id) (is_type type_id) (edited e) (λ a. refl)
      p.agent_types,
)

permitted-edit :
    (c : InstanceCall) (type_id : AgentTypeId) (e : TypeEdit) (p : Pool) (d : AuthorizationDecision)
    (v : World)
    → require_permission c.actor_id c.project_id Permission.agent_manage c.source p.world
      ≡ (ok d, v)
    → update_type c type_id e p ≡ edit c type_id e (record p { world = v })
unfolding update_type
permitted-edit c type_id e p d v permitted =
    ap (λ (x : Result AuthorizationDecision × World). (in_world (λ _. x) >> edit c type_id e) p)
      permitted

-- A caller who may manage the types of a project edits a type of another project: the call raises that
-- there is no such type, and the edit is stored.
pub update_type-foreign :
    (c : InstanceCall) (type_id : AgentTypeId) (e : TypeEdit) (p : Pool) (d : AuthorizationDecision)
    (v : World)
    → require_permission c.actor_id c.project_id Permission.agent_manage c.source p.world
      ≡ (ok d, v)
    → any (is_type type_id) p.agent_types ≡ true
    → first (in_project c.project_id type_id) p.agent_types ≡ none
    → ((update_type c type_id e p).0 ≡ err Error.agent_type_not_found)
      × ((update_type c type_id e p).1.agent_types
          ≡ update (is_type type_id) (edited e) p.agent_types)
update_type-foreign c type_id e p d v permitted hit foreign =
    let (raised, stored) = edit-foreign c type_id e (record p { world = v }) hit foreign in
    let same = permitted-edit c type_id e p d v permitted in
    (
      ap (λ (x : Result AgentType × Pool). x.0) same ∙ raised,
      ap (λ (x : Result AgentType × Pool). x.1.agent_types) same ∙ stored,
    )
