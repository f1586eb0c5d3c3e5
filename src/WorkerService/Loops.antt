-- ===== src/WorkerService/Loops.antt =====
-- `for` loops of src/zero/app/worker_service.py over rows that were read before.
use zero_agent_dev_telegram.Common.{List, [], ◌∷◌}
use zero_agent_dev_telegram.Exec.{Exec, pure, ◌>>=◌, ◌>>◌}

module _ {A : Type 0} where
  unfoldable pub for_each : (A → Exec Unit) → List A → Exec Unit
  for_each body [] = pure tt
  for_each body (x ∷ xs) = do body x; for_each body xs

module _ {A B : Type 0} where
  unfoldable pub collect : (A → Exec B) → List A → Exec (List B)
  collect f [] = pure []
  collect f (x ∷ xs) = do y ← f x; ys ← collect f xs; pure (y ∷ ys)
