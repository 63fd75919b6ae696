-- ===== src/Replay/Plan.antt =====
-- `validate_execution_plan`.
use ovca_core.Prelude.{
  ℕ, ◌+◌, List, [], ◌∷◌, ok, err, ◌>>=◌, ◌>>◌, reject_if, not, ◌==◌, if◌then◌else◌,
}
use ovca_core.Collections.Order.{string_ord}
use ovca_core.Collections.BTreeSet.{BTreeSet, contains, insert}
use ovca_core.Goal.Ids.{TaskId}
use ovca_core.Goal.Run.{ExecutionPlan, ExecutionWave}
use ovca_core.Replay.{ReplayError, Replayed}

-- The loop over the tasks of a wave; it returns the tasks planned so far.
pub plan_wave : ℕ → BTreeSet TaskId → BTreeSet TaskId → List TaskId → Replayed (BTreeSet TaskId)
plan_wave sequence declared_tasks planned_tasks [] = ok planned_tasks
plan_wave sequence declared_tasks planned_tasks (task_id ∷ rest) = do
  reject_if (not (contains task_id declared_tasks))
      (ReplayError.execution_plan_unknown_task sequence task_id)
  reject_if (contains task_id planned_tasks)
      (ReplayError.execution_plan_duplicate_task sequence task_id)
  plan_wave sequence declared_tasks (insert task_id planned_tasks) rest

pub plan_waves :
    ℕ → BTreeSet TaskId → ℕ → BTreeSet TaskId → List ExecutionWave → Replayed (BTreeSet TaskId)
plan_waves sequence declared_tasks expected_index planned_tasks [] = ok planned_tasks
plan_waves sequence declared_tasks expected_index planned_tasks (wave ∷ waves) = do
  reject_if (not (wave.index == expected_index))
      (ReplayError.execution_plan_wave_index_mismatch sequence expected_index wave.index)
  planned ← plan_wave sequence declared_tasks planned_tasks wave.task_ids
  plan_waves sequence declared_tasks (expected_index + 1) planned waves

-- `if let Some(task_id) = declared_tasks.difference(&planned_tasks).next()`
pub reject_unplanned : ℕ → BTreeSet TaskId → BTreeSet TaskId → Replayed (Unit {0})
reject_unplanned sequence [] planned_tasks = ok tt
reject_unplanned sequence (task_id ∷ declared_tasks) planned_tasks =
    if contains task_id planned_tasks
    then reject_unplanned sequence declared_tasks planned_tasks
    else err (ReplayError.execution_plan_missing_task sequence task_id)

pub validate_execution_plan : ℕ → ExecutionPlan → BTreeSet TaskId → Replayed (Unit {0})
validate_execution_plan sequence plan declared_tasks = do
  planned ← plan_waves sequence declared_tasks 0 [] plan.waves
  reject_unplanned sequence declared_tasks planned
