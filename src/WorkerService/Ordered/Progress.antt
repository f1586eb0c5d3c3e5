-- ===== src/WorkerService/Ordered/Progress.antt =====
-- Progress in a task graph of src/zero/app/worker_service.py, step after step.
use zero_agent_dev_telegram.Common.{
  ◌≡◌, refl, arith, Bool, true, ◌&&◌, none, List, [], ◌∷◌, ◌==◌, all, first, select, ◌∙◌, subst,
}
use zero_agent_dev_telegram.Domain.Execution.{TaskId, Task}
use zero_agent_dev_telegram.Database.{Db}
use zero_agent_dev_telegram.Repository.Execution.{find_task, list_dependencies_for_task}
use zero_agent_dev_telegram.Repository.Plan.{in_scope}
use zero_agent_dev_telegram.WorkerService.Ordered.{
  state_of_row, state_at, is_engaged, is_met, dependencies_completed, IsOrdered, IsProgress,
  IsGrowth,
}

pub all-cong :
    {A : Type 0} (p q : A → Bool) (xs : List A) → ((x : A) → p x ≡ q x) → all p xs ≡ all q xs
all-cong p q [] h = refl
all-cong p q (x ∷ xs) h = rw (h x, all-cong p q xs h) refl

-- The edges and the completed tasks are all that dependencies are judged by.
pub dependencies_completed-progress :
    (before after : Db)
    → IsProgress before after
    → (k : TaskId) → dependencies_completed k after ≡ dependencies_completed k before
unfolding dependencies_completed list_dependencies_for_task state_at find_task
dependencies_completed-progress before after p k = rw (p.edges) (
    all-cong (is_met after) (is_met before) (select (λ d. d.task_id == k) before.task_dependencies)
      (λ d. p.done d.depends_on_task_id))

pub IsProgress-refl : (db : Db) → IsProgress db db
IsProgress-refl db = record {
  edges = refl;
  keys = λ h. h;
  done = λ k. refl;
  engaged = λ k h. rw h refl;
}

pub IsProgress-trans : (a b c : Db) → IsProgress a b → IsProgress b c → IsProgress a c
IsProgress-trans a b c p q = record {
  edges = q.edges ∙ p.edges;
  keys = λ h. q.keys (p.keys h);
  done = λ k. q.done k ∙ p.done k;
  engaged =
      λ k h. ground (arith, q.engaged k h, p.engaged k, dependencies_completed-progress a b p k);
}

-- Progress keeps the order of work.
pub IsProgress-IsOrdered :
    (before after : Db) → IsProgress before after → IsOrdered before → IsOrdered after
unfolding IsOrdered
IsProgress-IsOrdered before after p ordered k h =
    ground (arith, p.engaged k h, ordered k, dependencies_completed-progress before after p k)

pub all-imp :
    {A : Type 0} (p q : A → Bool) (xs : List A)
    → ((x : A) → p x ≡ true → q x ≡ true)
    → all p xs ≡ true
    → all q xs ≡ true
all-imp p q [] h a = refl
all-imp p q (x ∷ xs) h a = ground (arith, h x, all-imp p q xs h)

pub dependencies_completed-growth :
    (before after : Db)
    → IsGrowth before after
    → (k : TaskId) → dependencies_completed k before ≡ true
    → dependencies_completed k after ≡ true
unfolding dependencies_completed list_dependencies_for_task state_at find_task
dependencies_completed-growth before after g k h = rw (g.edges) (
    all-imp (is_met before) (is_met after) (select (λ d. d.task_id == k) before.task_dependencies)
      (λ d. g.done d.depends_on_task_id) h)

pub IsGrowth-trans : (a b c : Db) → IsGrowth a b → IsGrowth b c → IsGrowth a c
IsGrowth-trans a b c p q = record {
  edges = q.edges ∙ p.edges;
  keys = λ h. q.keys (p.keys h);
  done = λ k h. q.done k (p.done k h);
  engaged =
      λ k h. ground (arith, q.engaged k h, p.engaged k, dependencies_completed-growth b c q k);
}

pub IsProgress-IsGrowth : (a b : Db) → IsProgress a b → IsGrowth a b
IsProgress-IsGrowth a b p = record {
  edges = p.edges;
  keys = p.keys;
  done = λ k h. p.done k ∙ h;
  engaged = λ k h. ground (arith, p.engaged k h, dependencies_completed-progress a b p k);
}

-- A write to other tables leaves the graph as it is.
pub same-IsGrowth :
    (a b : Db) → b.tasks ≡ a.tasks → b.task_dependencies ≡ a.task_dependencies → IsGrowth a b
unfolding state_at find_task
same-IsGrowth a b same_tasks same_edges = record {
  edges = same_edges;
  keys = λ h. rw same_tasks h;
  done = λ k h. rw same_tasks h;
  engaged = λ k h. ground (
    arith,
    subst
        (λ (ts : List Task).
          is_engaged (state_of_row (first (λ t. t.id == k && in_scope none t.project_id) ts))
          ≡ true)
        same_tasks h,
  );
}

-- Growth keeps the order of work.
pub IsGrowth-IsOrdered :
    (before after : Db) → IsGrowth before after → IsOrdered before → IsOrdered after
unfolding IsOrdered
IsGrowth-IsOrdered before after g ordered k h =
    ground (arith, g.engaged k h, ordered k, dependencies_completed-growth before after g k)
