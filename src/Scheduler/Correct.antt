-- ===== src/Scheduler/Correct.antt =====
-- `schedule_tasks` against a description of the plans.
use ovca_core.Prelude.{
  ℕ, ◌+◌, ◌^◌, ◌≤◌, ◌<◌, true, false, ◌≡◌, ◌⊎◌, refl, sym, ◌∙◌, inl, inr, none, some, List, [], ◌∷◌,
  ok, err, arith, Bool-cases, Option-cases, if◌then◌else◌, length,
}
use ovca_core.Collections.Order.{◌=?◌, string_ord, =?_iff, =?_refl}
use ovca_core.Collections.BTreeMap.{BTreeMap, get, keys, contains_key}
use ovca_core.Collections.BTreeSet.{BTreeSet, contains, extend, contains-extend}
use ovca_core.Collections.BTreeSet.Count.{
  count, count-append, count-keys, contains_of_count, count_of_contains,
}
use ovca_core.Goal.Ids.{TaskId, goal_runtime_contract_version}
use ovca_core.Goal.Task.{Task}
use ovca_core.Goal.Run.{ExecutionPlan, ExecutionWave}
use ovca_core.Lifecycle.Init.{count_from, first_repeated, index_tasks}
use ovca_core.Scheduler.{ScheduleError, schedule_tasks}
use ovca_core.Scheduler.Wave.{contains-any}
use ovca_core.Scheduler.Plan.{AreWaves, all_ids, IsKnot, IsOpen, Needs, waves-Ends}
use ovca_core.Scheduler.Tasks.{
  ids_of, unrepeated-count, length-index_tasks, index_tasks-IsSorted, contains_key-index_tasks,
}
use ovca_core.Scheduler.Refusal.{IsFault, prepare-cases}

-- A plan for the tasks: waves that are numbered from 0, none empty, with each task in exactly one,
-- after the waves of its dependencies, and beside no other task that writes a key of its own.
pub record IsPlan (tasks : List Task) (plan : ExecutionPlan) : Type 0 where
  pub versioned : plan.contract_version ≡ goal_runtime_contract_version
  pub each_once : (a : TaskId) → count a (all_ids plan.waves) ≡ count a (ids_of tasks)
  pub ordered : AreWaves (index_tasks tasks) [] 0 plan.waves

start-IsOpen :
    (m : BTreeMap TaskId Task)
    → ((a : TaskId) → count a (keys m) ≡ (if contains_key a m then 1 else 0))
    → IsOpen m (keys m) []
start-IsOpen m counted = record {
  known = λ a h. ground (arith, counted a);
  once = λ a. ground (arith, counted a);
  placed = λ a h. inl (ground (arith, counted a));
}

length-keys : (m : BTreeMap TaskId Task) → length (keys m) ≡ length m
length-keys [] = refl
length-keys (e ∷ m) = omega (arith, length-keys m)

keys-count :
    (tasks : List Task) (a : TaskId)
    → first_repeated (count_from [] tasks) ≡ none
    → count a (keys (index_tasks tasks)) ≡ count a (ids_of tasks)
keys-count tasks a distinct = elim (Bool-cases (contains a (ids_of tasks))) [
  | inl there ↦ ground (
    arith,
    count-keys a (index_tasks tasks) (index_tasks-IsSorted tasks),
    contains_key-index_tasks a tasks,
    unrepeated-count tasks a distinct,
    count_of_contains a (ids_of tasks) there,
  )
  | inr absent ↦ ground (
    arith,
    count-keys a (index_tasks tasks) (index_tasks-IsSorted tasks),
    contains_key-index_tasks a tasks,
    contains_of_count a (ids_of tasks),
  )
]

-- For fewer tasks than 2 ^ 32 waves can number, the scheduler ends, without a panic: with a plan,
-- or with an error whose fault the tasks have.
pub schedule_tasks-cases :
    (tasks : List Task)
    → length tasks ≤ 2 ^ 32
    → ((plan : ExecutionPlan) × (schedule_tasks tasks ≡ some (ok plan)) × IsPlan tasks plan)
      ⊎ ((e : ScheduleError) × (schedule_tasks tasks ≡ some (err e))
          × IsFault (index_tasks tasks) tasks e)
unfolding schedule_tasks
schedule_tasks-cases tasks small = elim (prepare-cases tasks) [
  | inr (e, ee, fault) ↦ inr (e, rw ee refl, fault)
  | inl (fine, distinct, known) ↦
      let m = index_tasks tasks in
      let few = length-index_tasks tasks in
      let same = length-keys (index_tasks tasks) in
      elim (waves-Ends m (λ a d t e needs. known a d t e needs) (length m) (keys m) [] 0
        (start-IsOpen m (λ a. count-keys a m (index_tasks-IsSorted tasks))) (omega (arith, same))
        (omega (arith, few, same))) [
          | inl (ws, es, valid, counted) ↦ inl (
            record { contract_version = goal_runtime_contract_version; waves = ws },
            rw (fine, es) refl,
            record {
              versioned = refl;
              each_once = λ a. counted a ∙ keys-count tasks a distinct;
              ordered = valid;
            },
          )
          | inr (ids, es, knot) ↦ inr (ScheduleError.cycle ids, rw (fine, es) refl, knot)
        ]
]

-- While no task of a knot is done, no wave has one.
knot-unplaced :
    (m : BTreeMap TaskId Task) (ids : List TaskId) (done : BTreeSet TaskId) (n : ℕ)
    (ws : List ExecutionWave)
    → IsKnot m ids
    → AreWaves m done n ws
    → ((d : TaskId) → 0 < count d ids → contains d done ≡ false)
    → (a : TaskId) → 0 < count a ids
    → count a (all_ids ws) ≡ 0
knot-unplaced m ids done n [] knot valid out a h = refl
knot-unplaced m ids done n (w ∷ ws) knot valid out a h =
    let never : (b : TaskId) → 0 < count b ids → contains b w.task_ids ≡ false = λ b hb.
      elim (Bool-cases (contains b w.task_ids)) [
        | inr absent ↦ absent
        | inl placed ↦ elim (Option-cases (get b m)) [
          | inl missing ↦ absurd (ground (arith, knot.knot_known b hb))
          | inr (t, et) ↦
              let (d, needs, hd) = knot.waits b t et hb in
              absurd (
                cc (
                  valid.0.after_dependencies b d t et (count_of_contains b w.task_ids placed) needs,
                  out d hd,
                ))
        ]
      ] in
    let rest =
      knot-unplaced m ids (extend done w.task_ids) (n + 1) ws knot valid.1
        (λ d hd. ground (
          arith,
          contains-extend d done w.task_ids,
          contains-any d w.task_ids,
          never d hd,
          out d hd,
        ))
        a h in
    ground (
      arith,
      count-append a w.task_ids (all_ids ws),
      rest,
      never a h,
      contains_of_count a w.task_ids,
    )

-- What a placed task needs is placed, or it was done before.
needed-placed :
    (m : BTreeMap TaskId Task) (done : BTreeSet TaskId) (n : ℕ) (ws : List ExecutionWave)
    (a d : TaskId) (t : Task)
    → AreWaves m done n ws
    → get a m ≡ some t
    → 0 < count a (all_ids ws)
    → Needs t d
    → (0 < count d (all_ids ws)) ⊎ (contains d done ≡ true)
needed-placed m done n [] a d t valid et h needs = absurd (omega arith)
needed-placed m done n (w ∷ ws) a d t valid et h needs = elim (Bool-cases (contains a w.task_ids)) [
  | inl here ↦ inr (valid.0.after_dependencies a d t et (count_of_contains a w.task_ids here) needs)
  | inr absent ↦
      let later : 0 < count a (all_ids ws) =
        ground (arith, count-append a w.task_ids (all_ids ws), contains_of_count a w.task_ids) in
      elim (needed-placed m (extend done w.task_ids) (n + 1) ws a d t valid.1 et later needs) [
        | inl after ↦ inl (ground (arith, count-append d w.task_ids (all_ids ws)))
        | inr before ↦ elim (Bool-cases (contains d done)) [
          | inl old ↦ inr old
          | inr new ↦ inl (
              ground (
                arith,
                contains-extend d done w.task_ids,
                contains-any d w.task_ids,
                count_of_contains d w.task_ids,
                count-append d w.task_ids (all_ids ws),
              ))
        ]
      ]
]

placed-known :
    (tasks : List Task) (plan : ExecutionPlan) (a : TaskId)
    → IsPlan tasks plan
    → 0 < count a (all_ids plan.waves)
    → contains_key a (index_tasks tasks) ≡ true
placed-known tasks plan a p h =
    contains_key-index_tasks a tasks
    ∙ contains_of_count a (ids_of tasks) (omega (arith, p.each_once a))

known-placed :
    (tasks : List Task) (plan : ExecutionPlan) (a : TaskId)
    → IsPlan tasks plan
    → contains_key a (index_tasks tasks) ≡ true
    → 0 < count a (all_ids plan.waves)
known-placed tasks plan a p h = omega (
  arith,
  p.each_once a,
  count_of_contains a (ids_of tasks) (sym (contains_key-index_tasks a tasks) ∙ h),
)

knot-no_plan :
    (tasks : List Task) (plan : ExecutionPlan) (ids : List TaskId)
    → IsKnot (index_tasks tasks) ids
    → IsPlan tasks plan
    → ⊥
unfolding contains
knot-no_plan tasks plan ids knot p =
    let (a, h) = knot.knot_inhabited in
    let none_placed =
      knot-unplaced (index_tasks tasks) ids [] 0 plan.waves knot p.ordered (λ d hd. refl) a h in
    omega (arith, none_placed, known-placed tasks plan a p (knot.knot_known a h))

self-IsKnot :
    (tasks : List Task) (id : TaskId) (t : Task)
    → get id (index_tasks tasks) ≡ some t
    → Needs t id
    → IsKnot (index_tasks tasks) (id ∷ [])
self-IsKnot tasks id t et needs = record {
  knot_known = λ a h. elim (Bool-cases (a =? id)) [
    | inl same ↦ rw ((=?_iff a id).0 same, et) refl
    | inr other ↦ absurd (ground arith)
  ];
  knot_inhabited = (id, ground (arith, =?_refl id));
  waits = λ a u eu h. elim (Bool-cases (a =? id)) [
    | inl same ↦
        let ea : a ≡ id = (=?_iff a id).0 same in
        let etu : t ≡ u = cc (et, eu, ea) in (id, rw (← etu) needs, ground (arith, =?_refl id))
    | inr other ↦ absurd (ground arith)
  ];
}

-- With distinct identifiers no fault leaves room for a plan.
fault-no_plan :
    (tasks : List Task) (plan : ExecutionPlan) (e : ScheduleError)
    → ((a : TaskId) → count a (ids_of tasks) ≤ 1)
    → IsFault (index_tasks tasks) tasks e
    → IsPlan tasks plan
    → ⊥
unfolding contains
fault-no_plan tasks plan (ScheduleError.duplicate_task_id id) distinct fault p =
    omega (arith, distinct id, fault)
fault-no_plan tasks plan (ScheduleError.self_dependency id) distinct (t, et, needs) p =
    knot-no_plan tasks plan (id ∷ []) (self-IsKnot tasks id t et needs) p
fault-no_plan tasks plan (ScheduleError.missing_dependency id d) distinct (t, et, needs, missing)
      p =
    let placed = known-placed tasks plan id p (rw et refl) in
    elim (needed-placed (index_tasks tasks) [] 0 plan.waves id d t p.ordered et placed needs) [
      | inl there ↦ cc (placed-known tasks plan d p there, missing)
      | inr none_done ↦ cc none_done
    ]
fault-no_plan tasks plan (ScheduleError.cycle ids) distinct fault p =
    knot-no_plan tasks plan ids fault p

-- Whenever tasks with distinct identifiers, no more of them than 2 ^ 32, have a plan at all, the
-- scheduler returns one.
pub schedule_tasks_complete :
    (tasks : List Task) (plan : ExecutionPlan)
    → length tasks ≤ 2 ^ 32
    → ((a : TaskId) → count a (ids_of tasks) ≤ 1)
    → IsPlan tasks plan
    → (found : ExecutionPlan) × (schedule_tasks tasks ≡ some (ok found)) × IsPlan tasks found
schedule_tasks_complete tasks plan small distinct p = elim (schedule_tasks-cases tasks small) [
  | inl found ↦ found
  | inr (e, _, fault) ↦ absurd (fault-no_plan tasks plan e distinct fault p)
]
