-- ===== src/Lifecycle/Safety.antt =====
-- Kernels that `new` has made and commands have changed.
use ovca_core.Prelude.{◌+◌, ◌^◌, ◌<◌, String, true, ◌≡◌, List, ok}
use ovca_core.Collections.Order.{string_ord}
use ovca_core.Collections.BTreeSet.{contains}
use ovca_core.Goal.Ids.{RunId, TaskId}
use ovca_core.Goal.Task.{RetryBudget, Task, TaskLease}
use ovca_core.Lifecycle.State.{ExecutionLifecycleKernel}
use ovca_core.Lifecycle.Init.{new}
use ovca_core.Lifecycle.Commands.{Command, run_all}
use ovca_core.Lifecycle.Invariant.{Holds, IsValid}
use ovca_core.Lifecycle.Invariant.AfterNew.{new-IsValid}
use ovca_core.Lifecycle.Invariant.Runs.{InOrder, last_instant, run_all-IsValid, IsValid-exclusive}

-- A kernel that `new` makes from a retry budget below the largest u32 has the invariant after any
-- commands, successful or not, whose instants do not go back.
pub new-run_all-IsValid :
    (run_id : RunId) (tasks : List Task) (budget : RetryBudget) (k : ExecutionLifecycleKernel)
    (commands : List Command)
    → budget.max_attempts + 1 < 2 ^ 32
    → new run_id tasks budget ≡ ok k
    → InOrder 0 commands
    → IsValid (run_all k commands) (last_instant 0 commands)
new-run_all-IsValid run_id tasks budget k commands bound made order =
    run_all-IsValid k 0 commands (new-IsValid run_id tasks budget k bound made) order

-- In a kernel that `new` makes from a retry budget below the largest u32, after any commands whose
-- instants do not go back, two tasks that hold unexpired leases with a write key in common are the
-- same task.
pub run_all-exclusive :
    (run_id : RunId) (tasks : List Task) (budget : RetryBudget) (k : ExecutionLifecycleKernel)
    (commands : List Command) (i j : TaskId) (l m : TaskLease) (key : String)
    → budget.max_attempts + 1 < 2 ^ 32
    → new run_id tasks budget ≡ ok k
    → InOrder 0 commands
    → Holds (run_all k commands).state i l
    → Holds (run_all k commands).state j m
    → last_instant 0 commands < l.expires_at
    → last_instant 0 commands < m.expires_at
    → contains key l.write_keys ≡ true
    → contains key m.write_keys ≡ true
    → i ≡ j
run_all-exclusive run_id tasks budget k commands i j l m key bound made order hi hj li lj ci cj =
    IsValid-exclusive (run_all k commands) (last_instant 0 commands) i j l m key
      (new-run_all-IsValid run_id tasks budget k commands bound made order) hi hj li lj ci cj
