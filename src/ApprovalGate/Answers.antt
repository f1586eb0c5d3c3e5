-- ===== src/ApprovalGate/Answers.antt =====
-- Answers of src/zero/app/approval_gate.py: what a second one, a standing allow and an allow for one
-- call do to what comes after them.
use zero_agent_dev_telegram.Common.{
  ◌≡◌, refl, ◌∙◌, arith, ℕ, Bool, true, false, some, List, [], ◌∷◌, any, eq_iff, update,
  first-append, any-of_first, sym, subst,
}
use zero_agent_dev_telegram.Domain.Approvals.{
  ToolApprovalGrain, Decision, ToolApprovalRequest, ApprovalVerdictState, is_undecided,
}
use zero_agent_dev_telegram.Domain.Errors.{Error}
use zero_agent_dev_telegram.Exec.{Result, ok, err}
use zero_agent_dev_telegram.ApprovalGate.Store.{
  Gate, is_deny_rule, is_standing, get, has_id, resolved_as, utc_second, clashes,
}
use zero_agent_dev_telegram.ApprovalGate.Evaluation.{ToolCall, Patterns, evaluate}
use zero_agent_dev_telegram.ApprovalGate.Resolution.{
  Answer, resolve, follow_up, decision_of, grain_of, resolve_stored, add_wildcard, add_grant,
  wildcard,
}
use zero_agent_dev_telegram.ApprovalGate.Policy.{
  hash, has_deny_rule, is_catastrophic, policy, evaluate-refines-policy,
}
use zero_agent_dev_telegram.ApprovalGate.Keyed.{is_keyed}
use zero_agent_dev_telegram.ApprovalGate.Kept.{resolve-IsKept}
use zero_agent_dev_telegram.ApprovalGate.Standing.{
  GateReach, GateReach-IsKept, allow_always, resolve-IsAnswered, get-written,
}

allow_always-standing :
    (a : Answer) (g g' : Gate) (r r' : ToolApprovalRequest)
    → get a.request_id g ≡ some r
    → is_undecided r.decision ≡ true
    → resolve (allow_always a) g ≡ (ok r', g')
    → any (is_standing r'.project_id r'.tool_name r'.args_hash) g'.decisions ≡ true
unfolding get
allow_always-standing a g g' r r' found undecided e =
    let t =
      resolve-IsAnswered (allow_always a) Decision.allow ToolApprovalGrain.always g g' r r' refl
        refl found undecided e in
    ground (
      arith,
      get-written r Decision.allow ToolApprovalGrain.always (allow_always a) g t.written found
          t.wrote,
      any-of_first (has_id a.request_id) (is_standing r'.project_id r'.tool_name r'.args_hash)
          g'.decisions r',
      eq_iff r'.tool_name r'.tool_name,
      eq_iff r'.args_hash r'.args_hash,
      t.row,
      t.then_done,
    )

-- A standing allow stands: once an open request was answered "allow, always", then whatever the gate
-- does next, restarts included, a later call of that tool in the project with arguments of the same
-- shape is allowed, if no hardline pattern matches it and no deny rule covers it by then.
pub allow_always-IsStanding :
    (p : Patterns) (a : Answer) (g g' h : Gate) (r r' : ToolApprovalRequest) (c : ToolCall)
    → is_keyed g ≡ true
    → get a.request_id g ≡ some r
    → is_undecided r.decision ≡ true
    → resolve (allow_always a) g ≡ (ok r', g')
    → GateReach p g' h
    → c.project_id ≡ r'.project_id
    → c.tool_name ≡ r'.tool_name
    → p.canonical_args_hash c.input_data ≡ r'.args_hash
    → is_catastrophic p c h ≡ false
    → has_deny_rule p c h ≡ false
    → (evaluate p c h).0.state ≡ ApprovalVerdictState.allowed
allow_always-IsStanding p a g g' h r r' c keyed found undecided e reach project tool shape calm
      unruled =
    let keyed' =
      subst (λ (x : Result ToolApprovalRequest × Gate). is_keyed x.1 ≡ true) e
        (resolve-IsKept (allow_always a) g keyed).keyed in
    let standing : any (is_standing c.project_id c.tool_name (hash p c h)) h.decisions ≡ true =
      rw (project, tool, shape)
        ((GateReach-IsKept p reach keyed').rows
          (is_standing r'.project_id r'.tool_name r'.args_hash) (λ s holds. ground arith)
          (allow_always-standing a g g' r r' found undecided e)) in
    ground (arith, (evaluate-refines-policy p c h).0)

follow_up-get :
    (id : ℕ) (d : Decision) (o : ToolApprovalGrain) (s r : ToolApprovalRequest) (g : Gate)
    → get id g ≡ some r
    → get id (follow_up d o s g).1 ≡ some r
unfolding get add_grant add_wildcard
follow_up-get id Decision.allow ToolApprovalGrain.session s r g e = ground arith
follow_up-get id Decision.deny ToolApprovalGrain.always s r g e =
    ground (arith, first-append (has_id id) g.decisions (wildcard s g.next_token ∷ []))
follow_up-get id d o s r g e = ground arith

-- What an answer leaves in the row, or what stood there.
answered-get :
    (a : Answer) (d : Decision) (o : ToolApprovalGrain) (g g' : Gate) (r r' : ToolApprovalRequest)
    → decision_of a.decision ≡ some d
    → grain_of a.grain ≡ some o
    → get a.request_id g ≡ some r
    → is_undecided r.decision ≡ true
    → resolve a g ≡ (ok r', g')
    → (get a.request_id g' ≡ some r') × (is_undecided r'.decision ≡ false)
answered-get a d o g g' r r' is_d is_o found undecided e =
    let t = resolve-IsAnswered a d o g g' r r' is_d is_o found undecided e in
    ground (
      arith,
      get-written r d o a g t.written found t.wrote,
      follow_up-get a.request_id d o r' r' t.written,
      t.row,
      t.then_done,
    )

-- The first answer stands: once an open request has been answered, any other answer to it, whatever
-- its decision, its grain and who gives it, returns the row as the first one left it and changes
-- nothing.
pub first_answer_stands :
    (a b : Answer) (d d' : Decision) (o o' : ToolApprovalGrain) (g g' : Gate)
    (r r' : ToolApprovalRequest)
    → decision_of a.decision ≡ some d
    → grain_of a.grain ≡ some o
    → decision_of b.decision ≡ some d'
    → grain_of b.grain ≡ some o'
    → b.request_id ≡ a.request_id
    → get a.request_id g ≡ some r
    → is_undecided r.decision ≡ true
    → resolve a g ≡ (ok r', g')
    → (is_undecided r'.decision ≡ false) × (resolve b g' ≡ (ok r', g'))
unfolding resolve
first_answer_stands a b d d' o o' g g' r r' is_d is_o is_d' is_o' same found undecided e =
    let (read, settled) = answered-get a d o g g' r r' is_d is_o found undecided e in
    (settled, ground arith)

-- The unique index on standing allows: an open request of a shape that another row allows for good
-- cannot be answered "allow, always". The answer is refused and nothing is written.
pub allow_always_clash :
    (a : Answer) (g : Gate) (r : ToolApprovalRequest)
    → get a.request_id g ≡ some r
    → is_undecided r.decision ≡ true
    → any (clashes r) g.decisions ≡ true
    → resolve (allow_always a) g ≡ (err Error.approval_write_failed, g)
unfolding resolve resolve_stored
allow_always_clash a g r found undecided clash = ground arith

abbrev pub allow_once : Answer → Answer
allow_once a = record a { decision = "allow"; grain = "once" }

any-update_never :
    (p q : ToolApprovalRequest → Bool) (f : ToolApprovalRequest → ToolApprovalRequest)
    → ((r : ToolApprovalRequest) → p (f r) ≡ false)
    → (rows : List ToolApprovalRequest) → any p rows ≡ false
    → any p (update q f rows) ≡ false
unfolding update
any-update_never p q f never [] e = e
any-update_never p q f never (r ∷ rs) e = ground (arith, never r, any-update_never p q f never rs)

allow_once-rows :
    (a : Answer) (q : ToolApprovalRequest → Bool) (g g' : Gate) (r r' : ToolApprovalRequest)
    → ((s : ToolApprovalRequest)
        → q (
            resolved_as
              (some Decision.allow)
              a.decided_by_user_id
              ToolApprovalGrain.once
              a.reason
              (some (utc_second g))
              s)
          ≡ false)
    → get a.request_id g ≡ some r
    → is_undecided r.decision ≡ true
    → resolve (allow_once a) g ≡ (ok r', g')
    → any q g.decisions ≡ false
    → any q g'.decisions ≡ false
unfolding resolve_stored
allow_once-rows a q g g' r r' never found undecided e none_before =
    let t =
      resolve-IsAnswered (allow_once a) Decision.allow ToolApprovalGrain.once g g' r r' refl refl
        found undecided e in
    ground (
      arith,
      any-update_never q (has_id r.id)
          (resolved_as (some Decision.allow) a.decided_by_user_id ToolApprovalGrain.once a.reason
            (some (utc_second g)))
          never g.decisions,
      t.wrote,
      t.then_done,
    )

-- What is the same about the gate but for its rows.
allow_once-rest :
    (a : Answer) (g g' : Gate) (r r' : ToolApprovalRequest)
    → get a.request_id g ≡ some r
    → is_undecided r.decision ≡ true
    → resolve (allow_once a) g ≡ (ok r', g')
    → (g'.mode ≡ g.mode) × (g'.session_grants ≡ g.session_grants)
unfolding resolve_stored
allow_once-rest a g g' r r' found undecided e =
    let t =
      resolve-IsAnswered (allow_once a) Decision.allow ToolApprovalGrain.once g g' r r' refl refl
        found undecided e in
    ground (arith, t.wrote, t.then_done)

-- What the policy leaves to an operator, no rule or standing allow decides.
policy-pending :
    (p : Patterns) (c : ToolCall) (g : Gate)
    → policy p c g ≡ ApprovalVerdictState.pending
    → (has_deny_rule p c g ≡ false)
      × (any (is_standing c.project_id c.tool_name (hash p c g)) g.decisions ≡ false)
      × (any (is_standing c.project_id c.tool_name "") g.decisions ≡ false)
policy-pending p c g e = ground arith

-- An allow for one call lets no call through: a call that waits for a decision still waits for one
-- after any open request, its own included, was answered "allow, once".
pub allow_once_asks_again :
    (p : Patterns) (c : ToolCall) (a : Answer) (g g' : Gate) (r r' : ToolApprovalRequest)
    → (evaluate p c g).0.state ≡ ApprovalVerdictState.pending
    → get a.request_id g ≡ some r
    → is_undecided r.decision ≡ true
    → resolve (allow_once a) g ≡ (ok r', g')
    → (evaluate p c g').0.state ≡ ApprovalVerdictState.pending
allow_once_asks_again p c a g g' r r' waits found undecided e =
    let before : policy p c g ≡ ApprovalVerdictState.pending =
      sym (evaluate-refines-policy p c g).0 ∙ waits in
    let (unruled, unshaped, unwild) = policy-pending p c g before in
    let (mode, session) = allow_once-rest a g g' r r' found undecided e in
    let unruled' =
      allow_once-rows a (is_deny_rule c.project_id c.tool_name (hash p c g)) g g' r r'
        (λ s. ground arith) found undecided e unruled in
    let unshaped' =
      allow_once-rows a (is_standing c.project_id c.tool_name (hash p c g)) g g' r r'
        (λ s. ground arith) found undecided e unshaped in
    let unwild' =
      allow_once-rows a (is_standing c.project_id c.tool_name "") g g' r r' (λ s. ground arith)
        found undecided e unwild in
    ground (arith, (evaluate-refines-policy p c g').0)
