-- ===== src/Scheduler/Refusal.antt =====
-- What the errors of `schedule_tasks` say.
use ovca_core.Prelude.{
  ◌<◌, true, false, ◌≡◌, ◌⊎◌, refl, sym, ◌∙◌, inl, inr, none, some, List, [], ◌∷◌, ok, err, arith,
  Bool-cases, Option-cases,
}
use ovca_core.Collections.Order.{◌=?◌, string_ord, =?_iff, =?_refl}
use ovca_core.Collections.BTreeMap.{BTreeMap, get, contains_key}
use ovca_core.Collections.BTreeMap.Sorted.{IsSorted, get_of_Above}
use ovca_core.Collections.BTreeSet.{contains, collect, contains-collect}
use ovca_core.Collections.BTreeSet.Count.{count}
use ovca_core.Goal.Ids.{TaskId}
use ovca_core.Goal.Task.{Task}
use ovca_core.Lifecycle.Init.{count_from, first_repeated, index_tasks}
use ovca_core.Scheduler.{ScheduleError, first_missing, check_task, check_tasks, prepare}
use ovca_core.Scheduler.Wave.{contains-any}
use ovca_core.Scheduler.Plan.{Needs, IsKnot}
use ovca_core.Scheduler.Tasks.{ids_of, repeated-count, index_tasks-IsSorted}

-- The fault that each error names is there.
abbrev pub IsFault : BTreeMap TaskId Task → List Task → ScheduleError → Type 0
IsFault m tasks (ScheduleError.duplicate_task_id id) = 1 < count id (ids_of tasks)
IsFault m tasks (ScheduleError.self_dependency id) = (t : Task) × (get id m ≡ some t) × Needs t id
IsFault m tasks (ScheduleError.missing_dependency id d) =
    (t : Task) × (get id m ≡ some t) × Needs t d × (contains_key d m ≡ false)
IsFault m tasks (ScheduleError.cycle ids) = IsKnot m ids

Needs-collect :
    (t : Task) (d : TaskId) → contains d (collect t.dependencies) ≡ contains d t.dependencies
Needs-collect t d = contains-collect d t.dependencies ∙ sym (contains-any d t.dependencies)

first_missing-some :
    (m : BTreeMap TaskId Task) (ds : List TaskId) (d : TaskId)
    → first_missing m ds ≡ some d
    → (contains d ds ≡ true) × (contains_key d m ≡ false)
unfolding first_missing contains
first_missing-some m [] d h = absurd cc
first_missing-some m (x ∷ ds) d h = elim (Bool-cases (contains_key x m)) [
  | inl known ↦
      let (c, missing) = first_missing-some m ds d (ground arith) in (ground arith, missing)
  | inr unknown ↦ let e : x ≡ d = ground arith in rw (← e) (ground (arith, =?_refl x), unknown)
]

first_missing-none :
    (m : BTreeMap TaskId Task) (ds : List TaskId) (d : TaskId)
    → first_missing m ds ≡ none
    → contains d ds ≡ true
    → contains_key d m ≡ true
unfolding first_missing contains
first_missing-none m [] d h c = absurd cc
first_missing-none m (x ∷ ds) d h c = elim (Bool-cases (d =? x)) [
  | inl same ↦ rw ((=?_iff d x).0 same) (ground arith)
  | inr other ↦ first_missing-none m ds d (ground arith) (ground arith)
]

module _ (m : BTreeMap TaskId Task) (tasks : List Task) where
  -- A task whose test succeeds has known dependencies; one whose test fails has the fault.
  check_task-cases :
      (id : TaskId) (t : Task)
      → get id m ≡ some t
      → ((check_task m id t ≡ ok tt) × ((d : TaskId) → Needs t d → contains_key d m ≡ true))
        ⊎ ((e : ScheduleError) × (check_task m id t ≡ err e) × IsFault m tasks e)
  unfolding check_task
  check_task-cases id t et = elim (Bool-cases (contains id (collect t.dependencies))) [
    | inl itself ↦ inr (
      ScheduleError.self_dependency id,
      rw itself refl,
      (t, et, sym (Needs-collect t id) ∙ itself),
    )
    | inr fine ↦ elim (Option-cases (first_missing m (collect t.dependencies))) [
      | inl all_known ↦ inl (
        rw (fine, all_known) refl,
        λ d needs.
            first_missing-none m (collect t.dependencies) d all_known (Needs-collect t d ∙ needs),
      )
      | inr (d, missing) ↦
          let (c, unknown) = first_missing-some m (collect t.dependencies) d missing in
          inr (
            ScheduleError.missing_dependency id d,
            rw (fine, missing) refl,
            (t, et, sym (Needs-collect t d) ∙ c, unknown),
          )
    ]
  ]

  check_tasks-cases :
      (rest : BTreeMap TaskId Task)
      → IsSorted rest
      → ((id : TaskId) (t : Task) → get id rest ≡ some t → get id m ≡ some t)
      → ((check_tasks m rest ≡ ok tt)
          × ((id d : TaskId) (t : Task)
              → get id rest ≡ some t
              → Needs t d
              → contains_key d m ≡ true))
        ⊎ ((e : ScheduleError) × (check_tasks m rest ≡ err e) × IsFault m tasks e)
  unfolding check_tasks get
  check_tasks-cases [] s sub = inl (refl, λ id d t e needs. absurd cc)
  check_tasks-cases ((j, t) ∷ rest) s sub =
      elim (check_task-cases j t (sub j t (ground (arith, =?_refl j)))) [
        | inr (e, ee, fault) ↦ inr (e, rw ee refl, fault)
        | inl (fine, known) ↦
            elim (check_tasks-cases rest s.1
              (λ id u eu. sub id u (ground (arith, get_of_Above j rest s.0, =?_iff id j)))) [
                | inr (e, ee, fault) ↦ inr (e, rw (fine, ee) refl, fault)
                | inl (all_fine, all_known) ↦ inl (
                  rw (fine, all_fine) refl,
                  λ id d u eu needs. elim (Bool-cases (id =? j)) [
                    | inl same ↦ let etu : t ≡ u = ground arith in known d (rw (← etu) at needs)
                    | inr other ↦ all_known id d u (ground arith) needs
                  ],
                )
              ]
      ]

-- The tests before the loop succeed, and then every dependency is a task, or they name a fault.
pub prepare-cases :
    (tasks : List Task)
    → ((prepare tasks ≡ ok (index_tasks tasks))
        × (first_repeated (count_from [] tasks) ≡ none)
        × ((id d : TaskId) (t : Task)
            → get id (index_tasks tasks) ≡ some t
            → Needs t d
            → contains_key d (index_tasks tasks) ≡ true))
      ⊎ ((e : ScheduleError) × (prepare tasks ≡ err e) × IsFault (index_tasks tasks) tasks e)
unfolding prepare
prepare-cases tasks = elim (Option-cases (first_repeated (count_from [] tasks))) [
  | inr (id, repeated) ↦
      inr (ScheduleError.duplicate_task_id id, rw repeated refl, repeated-count tasks id repeated)
  | inl distinct ↦
      elim (check_tasks-cases (index_tasks tasks) tasks (index_tasks tasks)
        (index_tasks-IsSorted tasks) (λ id t e. e)) [
          | inl (fine, known) ↦ inl (rw (distinct, fine) refl, distinct, known)
          | inr (e, ee, fault) ↦ inr (e, rw (distinct, ee) refl, fault)
        ]
]
