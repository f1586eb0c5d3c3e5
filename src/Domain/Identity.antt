-- ===== src/Domain/Identity.antt =====
-- src/zero/domain/identity.py. A server-issued identifier is an opaque token that the program only
-- compares for equality: a number stands for it, and a type synonym for the class that wraps it.
use zero_agent_dev_telegram.Common.{ℕ, Bool, Option, none, some, true, false}

abbrev pub UserId : Type 0
UserId = ℕ

abbrev pub ProjectId : Type 0
ProjectId = ℕ

pub data UserStatus : Type 0 where
  active suspended deleted : UserStatus

pub record User : Type 0 where
  pub id : UserId
  pub status : UserStatus

pub data ProjectRole : Type 0 where
  owner member viewer : ProjectRole

pub record ProjectMembership : Type 0 where
  pub project_id : ProjectId
  pub user_id : UserId
  pub role : ProjectRole

pub record ProjectScope : Type 0 where
  pub project_id : ProjectId
  pub actor_id : UserId
  pub role : Option ProjectRole
  pub is_member : Bool

abbrev pub for_member : ProjectId → UserId → ProjectRole → ProjectScope
for_member project actor role = record {
  project_id = project;
  actor_id = actor;
  role = some role;
  is_member = true;
}

abbrev pub for_non_member : ProjectId → UserId → ProjectScope
for_non_member project actor = record {
  project_id = project;
  actor_id = actor;
  role = none;
  is_member = false;
}
