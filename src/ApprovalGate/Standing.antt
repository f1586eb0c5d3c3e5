-- ===== src/ApprovalGate/Standing.antt =====
-- Decisions of src/zero/app/approval_gate.py for good: what a permanent denial or a standing allow
-- does to every later call, whatever the gate does in between.
use zero_agent_dev_telegram.Common.{
  ◌≡◌, refl, arith, ℕ, true, false, some, String, [], ◌∷◌, any, eq_iff, any-append, first-update,
  sym, subst,
}
use zero_agent_dev_telegram.Domain.Approvals.{
  ToolApprovalGrain, Decision, ToolApprovalRequest, ApprovalVerdictState, is_undecided,
}
use zero_agent_dev_telegram.Exec.{Result, ok, err}
use zero_agent_dev_telegram.ApprovalGate.Store.{
  Mode, Gate, is_off, is_deny_rule, get, has_id, resolved_as, utc_second,
}
use zero_agent_dev_telegram.ApprovalGate.Evaluation.{ToolCall, Patterns, evaluate}
use zero_agent_dev_telegram.ApprovalGate.Resolution.{
  Answer, resolve, follow_up, after_write, decision_of, grain_of, resolve_stored, add_wildcard,
  wildcard, stored_grain, set_mode, set_pending_ttl,
}
use zero_agent_dev_telegram.ApprovalGate.Policy.{
  hash, has_grant, has_deny_rule, evaluate-refines-policy,
}
use zero_agent_dev_telegram.ApprovalGate.Keyed.{is_keyed, ids_below-unnamed}
use zero_agent_dev_telegram.ApprovalGate.Kept.{
  IsKept, IsKept-trans, same-IsKept, evaluate-IsKept, resolve-IsKept, resolve_stored-IsKept,
}

-- What happens at the gate: calls are evaluated, answers come, the operator retunes it, time passes,
-- and the process restarts, which forgets the grants of the session.
pub data GateStep (p : Patterns) (g : Gate) : Gate → Type 0 where
  evaluates : (c : ToolCall) → GateStep p g (evaluate p c g).1
  resolves : (a : Answer) → GateStep p g (resolve a g).1
  sets_mode : (mode : String) → GateStep p g (set_mode mode g).1
  sets_pending_ttl : (ttl : ℕ) → GateStep p g (set_pending_ttl ttl g).1
  ticks : (n : ℕ) → GateStep p g (record g { now = n })
  restarts : (mode : Mode) → GateStep p g (record g { session_grants = []; mode = mode })

pub data GateReach (p : Patterns) (g : Gate) : Gate → Type 0 where
  start : GateReach p g g
  after : {h k : Gate} → GateReach p g h → GateStep p h k → GateReach p g k

GateStep-IsKept : (p : Patterns) {g h : Gate} → GateStep p g h → is_keyed g ≡ true → IsKept g h
unfolding set_mode set_pending_ttl
GateStep-IsKept p {g} (evaluates c) keyed = evaluate-IsKept p c g keyed
GateStep-IsKept p {g} (resolves a) keyed = resolve-IsKept a g keyed
GateStep-IsKept p {g} (sets_mode mode) keyed =
    same-IsKept g (set_mode mode g).1 keyed (ground arith) (ground arith)
GateStep-IsKept p {g} (sets_pending_ttl ttl) keyed =
    same-IsKept g (set_pending_ttl ttl g).1 keyed (ground arith) (ground arith)
GateStep-IsKept p {g} (ticks n) keyed = same-IsKept g (record g { now = n }) keyed refl refl
GateStep-IsKept p {g} (restarts mode) keyed =
    same-IsKept g (record g { session_grants = []; mode = mode }) keyed refl refl

pub GateReach-IsKept :
    (p : Patterns) {g h : Gate} → GateReach p g h → is_keyed g ≡ true → IsKept g h
GateReach-IsKept p {g} start keyed = same-IsKept g g keyed refl refl
GateReach-IsKept p {g} {h} (after {h = m} r s) keyed =
    let k = GateReach-IsKept p r keyed in IsKept-trans g m h k (GateStep-IsKept p s k.keyed)

-- An answer "deny, always" that returns.
abbrev pub deny_always : Answer → Answer
deny_always a = record a { decision = "deny"; grain = "always" }

abbrev pub allow_always : Answer → Answer
allow_always a = record a { decision = "allow"; grain = "always" }

wildcard-rule :
    (r : ToolApprovalRequest) (id : ℕ) (shape : String)
    → is_deny_rule r.project_id r.tool_name shape (wildcard r id) ≡ true
wildcard-rule r id shape = ground (arith, eq_iff r.tool_name r.tool_name)

-- A row that is written in its place is read again as written.
pub get-written :
    (r : ToolApprovalRequest) (decision : Decision) (grain : ToolApprovalGrain) (a : Answer)
    (g h : Gate)
    → get a.request_id g ≡ some r
    → resolve_stored r decision grain a g ≡ (ok tt, h)
    → get a.request_id h
      ≡ some (
          resolved_as
            (some decision)
            a.decided_by_user_id
            (stored_grain decision grain)
            a.reason
            (some (utc_second g))
            r)
unfolding resolve_stored get
get-written r decision grain a g h found e = ground (
  arith,
  first-update (has_id a.request_id) (has_id r.id)
      (resolved_as (some decision) a.decided_by_user_id (stored_grain decision grain) a.reason
        (some (utc_second g)))
      (λ s. refl) g.decisions,
)

add_wildcard-rule :
    (r : ToolApprovalRequest) (g : Gate) (shape : String)
    → is_keyed g ≡ true
    → any (is_deny_rule r.project_id r.tool_name shape) (add_wildcard r g).decisions ≡ true
unfolding add_wildcard
add_wildcard-rule r g shape keyed = ground (
  arith,
  ids_below-unnamed g.next_token g.next_token g.decisions,
  any-append (is_deny_rule r.project_id r.tool_name shape) g.decisions
      (wildcard r g.next_token ∷ []),
  wildcard-rule r g.next_token shape,
)

-- An answer to an open request that returns: the write in its place, and what follows it.
pub record IsAnswered (a : Answer) (d : Decision) (o : ToolApprovalGrain)
    (r r' : ToolApprovalRequest) (g g' : Gate) : Type 0 where
  pub written : Gate
  pub wrote : resolve_stored r d o a g ≡ (ok tt, written)
  pub row :
      r'
      ≡ resolved_as
          (some d)
          a.decided_by_user_id
          (stored_grain d o)
          a.reason
          (some (utc_second g))
          r
  pub then_done : follow_up d o r' written ≡ (ok r', g')

follow_up-returns :
    (d : Decision) (o : ToolApprovalGrain) (s r' : ToolApprovalRequest) (h g' : Gate)
    → follow_up d o s h ≡ (ok r', g')
    → s ≡ r'
follow_up-returns d o s r' h g' e = ground arith

pub resolve-IsAnswered :
    (a : Answer) (d : Decision) (o : ToolApprovalGrain) (g g' : Gate) (r r' : ToolApprovalRequest)
    → decision_of a.decision ≡ some d
    → grain_of a.grain ≡ some o
    → get a.request_id g ≡ some r
    → is_undecided r.decision ≡ true
    → resolve a g ≡ (ok r', g')
    → IsAnswered a d o r r' g g'
unfolding resolve
resolve-IsAnswered a d o g g' r r' is_d is_o found undecided e =
    answered (resolve_stored r d o a g) refl (ground arith)
  where
    answered :
        (x : Result {0} Unit × Gate)
        → resolve_stored r d o a g ≡ x
        → after_write a.request_id d o x ≡ (ok r', g')
        → IsAnswered a d o r r' g g'
    answered (err y, h) wrote e' = absurd (ground arith)
    answered (ok u, h) wrote e' =
        let s =
          resolved_as (some d) a.decided_by_user_id (stored_grain d o) a.reason
            (some (utc_second g)) r in
        let read : follow_up d o s h ≡ (ok r', g') = ground (arith, get-written r d o a g h) in
        let same = follow_up-returns d o s r' h g' read in
        record {
          written = h;
          wrote = wrote;
          row = sym same;
          then_done = subst (λ x. follow_up d o x h ≡ (ok r', g')) same read;
        }

deny_always-rule :
    (a : Answer) (g g' : Gate) (r r' : ToolApprovalRequest) (shape : String)
    → is_keyed g ≡ true
    → get a.request_id g ≡ some r
    → is_undecided r.decision ≡ true
    → resolve (deny_always a) g ≡ (ok r', g')
    → any (is_deny_rule r'.project_id r'.tool_name shape) g'.decisions ≡ true
deny_always-rule a g g' r r' shape keyed found undecided e =
    let t =
      resolve-IsAnswered (deny_always a) Decision.deny ToolApprovalGrain.always g g' r r' refl refl
        found undecided e in
    let k =
      resolve_stored-IsKept r Decision.deny ToolApprovalGrain.always (deny_always a) g keyed found
        undecided in
    ground (arith, add_wildcard-rule r' t.written shape, t.wrote, t.then_done, k.keyed)

-- A denial for good is for good: once an open request was answered "deny, always", then whatever
-- calls, answers, changes of mode and restarts follow, every later call of that tool in the project
-- is denied, with any arguments and in any execution, if the gate is not off and no grant of the
-- session lets the call through.
pub deny_always-IsPermanent :
    (p : Patterns) (a : Answer) (g g' h : Gate) (r r' : ToolApprovalRequest) (c : ToolCall)
    → is_keyed g ≡ true
    → get a.request_id g ≡ some r
    → is_undecided r.decision ≡ true
    → resolve (deny_always a) g ≡ (ok r', g')
    → GateReach p g' h
    → c.project_id ≡ r'.project_id
    → c.tool_name ≡ r'.tool_name
    → is_off h.mode ≡ false
    → has_grant p c h ≡ false
    → (evaluate p c h).0.state ≡ ApprovalVerdictState.denied
deny_always-IsPermanent p a g g' h r r' c keyed found undecided e reach project tool active
      ungranted =
    let shape = hash p c h in
    let keyed' =
      subst (λ (x : Result ToolApprovalRequest × Gate). is_keyed x.1 ≡ true) e
        (resolve-IsKept (deny_always a) g keyed).keyed in
    let rule : has_deny_rule p c h ≡ true =
      rw (project, tool)
        ((GateReach-IsKept p reach keyed').rows (is_deny_rule r'.project_id r'.tool_name shape)
          (λ s holds. ground arith) (deny_always-rule a g g' r r' shape keyed found undecided e)) in
    ground (arith, (evaluate-refines-policy p c h).0)
