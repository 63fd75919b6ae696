-- ===== src/Lifecycle/Init.antt =====
-- `ExecutionLifecycleKernel::new`.
use Prim.Native.String.{◌++◌}
use ovca_core.Prelude.{
  ℕ, ◌+◌, Bool, true, false, not, Option, none, some, List, [], ◌∷◌, map, ok, err, ◌>>◌, reject_if,
  ltb, ◌==◌, if◌then◌else◌,
}
use ovca_core.Collections.Order.{◌=?◌, string_ord}
use ovca_core.Collections.BTreeMap.{BTreeMap, get, insert, collect_from, contains_key}
use ovca_core.Collections.BTreeSet.{collect}
use ovca_core.Goal.Ids.{GoalId, Role, RunId, TaskId}
use ovca_core.Goal.Task.{RetryBudget, Task, TaskStatus}
use ovca_core.Lifecycle.State.{
  Attempt, ExecutionLifecycleError, ExecutionLifecycleKernel, TaskExecutionSnapshot,
  validate_version,
}

-- `or_default()`
abbrev pub count_or_zero : Option ℕ → ℕ
count_or_zero none = 0
count_or_zero (some n) = n

-- The loop that counts how often each identifier occurs.
unfoldable pub count_from : BTreeMap TaskId ℕ → List Task → BTreeMap TaskId ℕ
count_from counts [] = counts
count_from counts (task ∷ tasks) =
    count_from (insert task.id (count_or_zero (get task.id counts) + 1) counts) tasks

-- `task_counts.iter().find_map(|(id, count)| (count > 1).then(…))`
unfoldable pub first_repeated : BTreeMap TaskId ℕ → Option TaskId
first_repeated [] = none
first_repeated ((id, n) ∷ counts) = if ltb 1 n then some id else first_repeated counts

unfoldable pub index_tasks : List Task → BTreeMap TaskId Task
index_tasks tasks = collect_from [] (map (λ t. (t.id, t)) tasks)

unfoldable pub is_worker_role : Role → Bool
is_worker_role Role.coordinator = false
is_worker_role _ = true

unfoldable pub is_initial_status : TaskStatus → Bool
is_initial_status TaskStatus.pending = true
is_initial_status TaskStatus.ready = true
is_initial_status _ = false

unfoldable pub check_definition : TaskId → Task → Attempt (Unit {0})
check_definition task_id task = do
  validate_version ("task:" ++ task_id) task.contract_version
  reject_if (not (is_worker_role task.assigned_role))
      (ExecutionLifecycleError.invalid_assigned_role task.id task.assigned_role)
  reject_if (not (is_initial_status task.status))
      (ExecutionLifecycleError.invalid_initial_task_status task.id task.status)

unfoldable pub check_definitions : BTreeMap TaskId Task → Attempt (Unit {0})
check_definitions [] = ok tt
check_definitions ((task_id, task) ∷ tasks) =
    check_definition task_id task >> check_definitions tasks

-- `task_map.first_key_value().map(|(_, task)| task.goal_id)`
unfoldable pub first_goal : BTreeMap TaskId Task → Option GoalId
first_goal [] = none
first_goal ((task_id, task) ∷ tasks) = some task.goal_id

unfoldable pub check_goals : GoalId → BTreeMap TaskId Task → Attempt (Unit {0})
check_goals expected [] = ok tt
check_goals expected ((task_id, task) ∷ tasks) =
    if not (task.goal_id =? expected)
    then err (ExecutionLifecycleError.goal_mismatch task_id expected task.goal_id)
    else check_goals expected tasks

unfoldable pub check_goal : Option GoalId → BTreeMap TaskId Task → Attempt (Unit {0})
check_goal none tasks = ok tt
check_goal (some expected) tasks = check_goals expected tasks

unfoldable pub check_known : TaskId → BTreeMap TaskId Task → List TaskId → Attempt (Unit {0})
check_known task_id tasks [] = ok tt
check_known task_id tasks (dependency_id ∷ rest) =
    if not (contains_key dependency_id tasks)
    then err (ExecutionLifecycleError.unknown_dependency task_id dependency_id)
    else check_known task_id tasks rest

-- The loop over `task_map.values()`; `tasks` is the whole map.
unfoldable pub check_known_dependencies :
    BTreeMap TaskId Task → BTreeMap TaskId Task → Attempt (Unit {0})
check_known_dependencies tasks [] = ok tt
check_known_dependencies tasks ((task_id, task) ∷ rest) =
    check_known task.id tasks (collect task.dependencies) >> check_known_dependencies tasks rest

abbrev pub initial_snapshot : Task → TaskExecutionSnapshot
initial_snapshot task = record {
  status = task.status;
  attempts = 0;
  current_lease = none;
  terminal_record = none;
  last_failure_reason = none;
}

unfoldable pub initial_state : BTreeMap TaskId Task → BTreeMap TaskId TaskExecutionSnapshot
initial_state [] = []
initial_state ((id, task) ∷ tasks) = (id, initial_snapshot task) ∷ initial_state tasks

abbrev reject_repeated : Option TaskId → Attempt (Unit {0})
reject_repeated none = ok tt
reject_repeated (some task_id) = err (ExecutionLifecycleError.duplicate_task_id task_id)

unfoldable pub new : RunId → List Task → RetryBudget → Attempt ExecutionLifecycleKernel
new run_id tasks retry_budget = do
  validate_version "retry_budget" retry_budget.contract_version
  reject_if (retry_budget.max_attempts == 0) ExecutionLifecycleError.invalid_max_attempts
  reject_repeated (first_repeated (count_from [] tasks))
  let task_map = index_tasks tasks
  check_definitions task_map
  check_goal (first_goal task_map) task_map
  check_known_dependencies task_map task_map
  ok (record {
    run_id = run_id;
    goal_id = first_goal task_map;
    retry_budget = retry_budget;
    tasks = task_map;
    state = initial_state task_map;
    write_key_owners = [];
  })
