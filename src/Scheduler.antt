-- ===== src/Scheduler.antt =====
-- `schedule_tasks`, rust/ovca-runtime-core/src/scheduler.rs.
pub mod Wave
pub mod Plan
pub mod Tasks
pub mod Refusal
pub mod Correct
mod Examples
use mathlib.Core.Option
use ovca_core.Prelude.{
  String, true, false, ℕ, zero, suc, ◌+◌, ◌^◌, Bool, not, Option, none, some, List, [], ◌∷◌, Result,
  ok, err, panic, ◌>>=◌, ◌>>◌, reject_if, expect, any, all, is_empty, length, ltb, ◌==◌,
  if◌then◌else◌,
}
use ovca_core.Collections.Order.{◌=?◌, string_ord}
use ovca_core.Collections.BTreeMap.{BTreeMap, get, keys, contains_key}
use ovca_core.Collections.BTreeSet.{BTreeSet, contains, insert, remove, extend, collect}
use ovca_core.Goal.Ids.{TaskId, goal_runtime_contract_version}
use ovca_core.Goal.Task.{Task}
use ovca_core.Goal.Run.{ExecutionMode, ExecutionPlan, ExecutionWave}
use ovca_core.Lifecycle.Init.{count_from, first_repeated, index_tasks}

pub data ScheduleError : Type 0 where
  duplicate_task_id : TaskId → ScheduleError
  self_dependency : TaskId → ScheduleError
  missing_dependency : (task_id dependency_id : TaskId) → ScheduleError
  cycle : List TaskId → ScheduleError

abbrev pub Scheduled : Type 0 → Type 0
Scheduled A = Result ScheduleError A

abbrev pub reject_repeated : Option TaskId → Scheduled (Unit {0})
reject_repeated none = ok tt
reject_repeated (some task_id) = err (ScheduleError.duplicate_task_id task_id)

-- `find(|dependency_id| !tasks_by_id.contains_key(*dependency_id))`
pub first_missing : BTreeMap TaskId Task → List TaskId → Option TaskId
first_missing tasks_by_id [] = none
first_missing tasks_by_id (d ∷ ds) =
    if not (contains_key d tasks_by_id) then some d else first_missing tasks_by_id ds

abbrev pub reject_missing : TaskId → Option TaskId → Scheduled (Unit {0})
reject_missing task_id none = ok tt
reject_missing task_id (some d) = err (ScheduleError.missing_dependency task_id d)

pub check_task : BTreeMap TaskId Task → TaskId → Task → Scheduled (Unit {0})
check_task tasks_by_id task_id task = do
  let dependencies = collect task.dependencies
  reject_if (contains task_id dependencies) (ScheduleError.self_dependency task_id)
  reject_missing task_id (first_missing tasks_by_id dependencies)

-- The loop over `tasks_by_id`, which is the first argument whole.
pub check_tasks : BTreeMap TaskId Task → BTreeMap TaskId Task → Scheduled (Unit {0})
check_tasks tasks_by_id [] = ok tt
check_tasks tasks_by_id ((task_id, task) ∷ rest) =
    check_task tasks_by_id task_id task >> check_tasks tasks_by_id rest

abbrev pub is_ready : BTreeSet TaskId → Task → Bool
is_ready completed task = all (λ d. contains d completed) task.dependencies

-- `ready`, in the order of `remaining`.
pub ready_tasks : BTreeMap TaskId Task → BTreeSet TaskId → List TaskId → Scheduled (List TaskId)
ready_tasks tasks_by_id completed [] = ok []
ready_tasks tasks_by_id completed (task_id ∷ ids) = do
  task ← expect (get task_id tasks_by_id)
  ready ← ready_tasks tasks_by_id completed ids
  ok (if is_ready completed task then task_id ∷ ready else ready)

abbrev pub conflicts : BTreeSet String → Task → Bool
conflicts wave_write_keys task = any (λ k. contains k wave_write_keys) task.write_keys

-- The loop over `ready`: the identifiers that it pushes, when the keys are already taken.
pub pick_wave : BTreeMap TaskId Task → BTreeSet String → List TaskId → Scheduled (List TaskId)
pick_wave tasks_by_id wave_write_keys [] = ok []
pick_wave tasks_by_id wave_write_keys (task_id ∷ ready) = do
  task ← expect (get task_id tasks_by_id)
  let taken = conflicts wave_write_keys task
  picked ←
      pick_wave tasks_by_id
        (if taken then wave_write_keys else extend wave_write_keys task.write_keys) ready
  ok (if taken then picked else task_id ∷ picked)

pub remove_all : List TaskId → BTreeSet TaskId → BTreeSet TaskId
remove_all [] remaining = remaining
remove_all (task_id ∷ ids) remaining = remove_all ids (remove task_id remaining)

abbrev pub mode_of : List TaskId → ExecutionMode
mode_of ids = if length ids == 1 then ExecutionMode.sequential else ExecutionMode.parallel

-- `u32::try_from(waves.len()).expect(…)`
abbrev pub wave_index : ℕ → Scheduled ℕ
wave_index n = if ltb n (2 ^ 32) then ok n else panic

abbrev pub reject_stuck : BTreeSet TaskId → List TaskId → Scheduled (Unit {0})
reject_stuck remaining ready = reject_if (is_empty ready) (ScheduleError.cycle remaining)

-- One round of the `while` loop, with the number of the waves before it.
pub wave : BTreeMap TaskId Task → BTreeSet TaskId → BTreeSet TaskId → ℕ → Scheduled ExecutionWave
wave tasks_by_id remaining completed n = do
  ready ← ready_tasks tasks_by_id completed remaining
  reject_stuck remaining ready
  ids ← pick_wave tasks_by_id [] ready
  index ← wave_index n
  ok (record { index = index; mode = mode_of ids; task_ids = ids })

abbrev pub prepend :
    ExecutionWave
    → Option (Scheduled (List ExecutionWave))
    → Option (Scheduled (List ExecutionWave))
prepend w none = none
prepend w (some (ok ws)) = some (ok (w ∷ ws))
prepend w (some (err e)) = some (err e)
prepend w (some panic) = some panic

-- An error in a round ends the loop.
abbrev pub after_wave :
    Scheduled ExecutionWave
    → (ExecutionWave → Option (Scheduled (List ExecutionWave)))
    → Option (Scheduled (List ExecutionWave))
after_wave (ok w) rest = prepend w (rest w)
after_wave (err e) rest = some (err e)
after_wave panic rest = some panic

-- The `while` loop, for as many rounds as there is fuel; `none` when there was not enough.
pub waves :
    ℕ
    → BTreeMap TaskId Task
    → BTreeSet TaskId
    → BTreeSet TaskId
    → ℕ
    → Option (Scheduled (List ExecutionWave))
waves fuel tasks_by_id [] completed n = some (ok [])
waves zero tasks_by_id (r ∷ rs) completed n = none
waves (suc fuel) tasks_by_id (r ∷ rs) completed n =
    after_wave (wave tasks_by_id (r ∷ rs) completed n) λ w.
      waves fuel tasks_by_id (remove_all w.task_ids (r ∷ rs)) (extend completed w.task_ids) (n + 1)

-- What comes before the loop.
pub prepare : List Task → Scheduled (BTreeMap TaskId Task)
prepare tasks = do
  reject_repeated (first_repeated (count_from [] tasks))
  let tasks_by_id = index_tasks tasks
  check_tasks tasks_by_id tasks_by_id
  ok tasks_by_id

abbrev pub plan_of : Scheduled (List ExecutionWave) → Scheduled ExecutionPlan
plan_of r = do ws ← r; ok (record { contract_version = goal_runtime_contract_version; waves = ws })

abbrev pub schedule_from : Scheduled (BTreeMap TaskId Task) → Option (Scheduled ExecutionPlan)
schedule_from (err e) = some (err e)
schedule_from panic = some panic
schedule_from (ok tasks_by_id) =
    Option.map plan_of (waves (length tasks_by_id) tasks_by_id (keys tasks_by_id) [] 0)

-- The keys of a map are in ascending order, so they are the set that is collected of them. There is
-- as much fuel as there are tasks.
pub schedule_tasks : List Task → Option (Scheduled ExecutionPlan)
schedule_tasks tasks = schedule_from (prepare tasks)
