-- ===== src/Scheduler/Examples.antt =====
-- `schedule_tasks` on two tasks of which one waits for the other and writes the same key.
use ovca_core.Prelude.{
  ◌^◌, ◌≤◌, ◌≡◌, ◌⊎◌, refl, none, some, inl, inr, List, [], ◌∷◌, length, ok, err, arith,
}
use ovca_core.Collections.Order.{string_ord}
use ovca_core.Collections.BTreeMap.{get, insert, collect_from}
use ovca_core.Collections.BTreeSet.{contains, extend, remove}
use ovca_core.Goal.Ids.{Role}
use ovca_core.Goal.Task.{Task, TaskStatus}
use ovca_core.Goal.Run.{ExecutionMode, ExecutionPlan}
use ovca_core.Lifecycle.Init.{count_from, first_repeated, index_tasks}
use ovca_core.Scheduler.{
  ScheduleError, schedule_tasks, prepare, waves, wave, ready_tasks, pick_wave, remove_all,
  check_tasks, check_task, first_missing,
}
use ovca_core.Scheduler.Tasks.{unrepeated-count}
use ovca_core.Scheduler.Refusal.{IsFault}
use ovca_core.Scheduler.Correct.{IsPlan, schedule_tasks-cases, schedule_tasks_complete}

abbrev compile_task : Task
compile_task = record {
  contract_version = 1;
  id = "compile";
  goal_id = "goal";
  outcome = "compiled";
  dependencies = [];
  assigned_role = Role.engineer;
  resource_keys = [];
  write_keys = "target" ∷ [];
  status = TaskStatus.ready;
  created_at = 1;
  updated_at = 1;
}

abbrev bench_task : Task
bench_task = record compile_task { id = "bench"; dependencies = "compile" ∷ [] }

abbrev two_tasks : List Task
two_tasks = bench_task ∷ compile_task ∷ []

abbrev two_waves : ExecutionPlan
two_waves = record {
  contract_version = 1;
  waves =
      record { index = 0; mode = ExecutionMode.sequential; task_ids = "compile" ∷ [] }
      ∷ record { index = 1; mode = ExecutionMode.sequential; task_ids = "bench" ∷ [] }
      ∷ [];
}

two_tasks-plan : schedule_tasks two_tasks ≡ some (ok two_waves)
unfolding schedule_tasks prepare waves wave ready_tasks pick_wave remove_all check_tasks check_task
    first_missing count_from first_repeated index_tasks get insert collect_from contains extend
    remove
two_tasks-plan = refl

two_tasks-distinct : first_repeated (count_from [] two_tasks) ≡ none
unfolding count_from first_repeated get insert
two_tasks-distinct = refl

schedule_tasks-IsPlan :
    (tasks : List Task) (plan : ExecutionPlan)
    → length tasks ≤ 2 ^ 32
    → schedule_tasks tasks ≡ some (ok plan)
    → IsPlan tasks plan
schedule_tasks-IsPlan tasks plan small returned = elim (schedule_tasks-cases tasks small) [
  | inl (found, e, p) ↦ let same : found ≡ plan = cc (e, returned) in rw (← same) p
  | inr (e, refused, _) ↦ absurd (cc (refused, returned))
]

schedule_tasks-cases_example :
    ((plan : ExecutionPlan) × (schedule_tasks two_tasks ≡ some (ok plan)) × IsPlan two_tasks plan)
    ⊎ ((e : ScheduleError) × (schedule_tasks two_tasks ≡ some (err e))
        × IsFault (index_tasks two_tasks) two_tasks e)
schedule_tasks-cases_example = schedule_tasks-cases two_tasks (omega arith)

schedule_tasks_complete_example :
    (found : ExecutionPlan) × (schedule_tasks two_tasks ≡ some (ok found)) × IsPlan two_tasks found
schedule_tasks_complete_example =
    schedule_tasks_complete two_tasks two_waves (omega arith)
      (λ a. unrepeated-count two_tasks a two_tasks-distinct)
      (schedule_tasks-IsPlan two_tasks two_waves (omega arith) two_tasks-plan)
