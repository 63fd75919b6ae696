-- ===== src/Lifecycle/Restore/Total.antt =====
-- `restore` has no panic to reach.
use ovca_core.Prelude.{
  ℕ, String, true, false, ◌≡◌, ◌≢◌, inl, inr, Option, none, some, List, [], ◌∷◌, panic, arith,
  Bool-cases, Option-cases, Result-cases,
}
use ovca_core.Collections.Order.{◌=?◌, string_ord, =?_refl}
use ovca_core.Collections.BTreeMap.{BTreeMap, get, keys, contains_key}
use ovca_core.Collections.BTreeMap.Extensional.{contains_key-keys}
use ovca_core.Collections.BTreeSet.{collect}
use ovca_core.Collections.Equality.{same_list, same_list-Decides, ord-Decides}
use ovca_core.Goal.Ids.{GoalId, RunId, TaskId}
use ovca_core.Goal.Task.{RetryBudget, Task, TaskLease, TaskStatus, TaskTerminalRecord}
use ovca_core.Lifecycle.State.{
  ExecutionLifecycleSnapshot, TaskExecutionSnapshot, validate_version, WriteKeyOwner,
}
use ovca_core.Lifecycle.Init.{
  new, check_definition, check_definitions, check_goal, check_goals, first_goal, check_known,
  check_known_dependencies, index_tasks,
}
use ovca_core.Lifecycle.Restore.{
  check_status, check_lease, check_record, check_current_lease, check_state, check_states, restore,
  valid_attempts, is_unsupported, lease_owner,
}
use ovca_core.Lifecycle.Restore.Owners.{own_lease_keys-total}

check_definitions-total : (m : BTreeMap TaskId Task) → check_definitions m ≢ panic
unfolding check_definitions check_definition validate_version
check_definitions-total [] h = cc h
check_definitions-total ((i, t) ∷ m) h = ground (arith, check_definitions-total m)

check_goals-total : (g : GoalId) (m : BTreeMap TaskId Task) → check_goals g m ≢ panic
unfolding check_goals
check_goals-total g [] h = cc h
check_goals-total g ((i, t) ∷ m) h = ground (arith, check_goals-total g m)

check_goal-total : (g : Option GoalId) (m : BTreeMap TaskId Task) → check_goal g m ≢ panic
unfolding check_goal
check_goal-total none m h = cc h
check_goal-total (some g) m h = check_goals-total g m h

check_known-total :
    (i : TaskId) (m : BTreeMap TaskId Task) (ds : List TaskId) → check_known i m ds ≢ panic
unfolding check_known
check_known-total i m [] h = cc h
check_known-total i m (d ∷ ds) h = ground (arith, check_known-total i m ds)

check_known_dependencies-total :
    (all m : BTreeMap TaskId Task) → check_known_dependencies all m ≢ panic
unfolding check_known_dependencies
check_known_dependencies-total all [] h = cc h
check_known_dependencies-total all ((i, t) ∷ m) h = ground (
  arith,
  check_known_dependencies-total all m,
  check_known-total t.id all (collect t.dependencies),
)

new-total : (run_id : RunId) (ts : List Task) (b : RetryBudget) → new run_id ts b ≢ panic
unfolding new validate_version
new-total run_id ts b h =
    let m = index_tasks ts in
    ground (
      arith,
      check_definitions-total (index_tasks ts),
      check_goal-total (first_goal (index_tasks ts)) (index_tasks ts),
      check_known_dependencies-total (index_tasks ts) (index_tasks ts),
    )

supported-total :
    (x : TaskStatus) (n limit : ℕ) → is_unsupported x ≡ false → valid_attempts x n limit ≢ panic
unfolding is_unsupported valid_attempts
supported-total x n limit s h = ground arith

check_status-total :
    (limit : ℕ) (id : TaskId) (s : TaskExecutionSnapshot) → check_status limit id s ≢ panic
unfolding check_status
check_status-total limit id s h = ground (arith, supported-total s.status s.attempts limit)

check_current_lease-total :
    (run_id : RunId) (limit : ℕ) (id : TaskId) (t : Task) (n : ℕ) (o : Option TaskLease)
    (old : BTreeMap String WriteKeyOwner)
    → check_current_lease run_id limit id t n o old ≢ panic
unfolding check_lease
check_current_lease-total run_id limit id t n none old h = cc h
check_current_lease-total run_id limit id t n (some l) old h =
    ground (arith, own_lease_keys-total id (lease_owner id l) l.write_keys old)

check_record-total :
    (run_id : RunId) (id : TaskId) (n : ℕ) (o : Option TaskTerminalRecord)
    → check_record run_id id n o ≢ panic
check_record-total run_id id n o h = ground arith

check_state-total :
    (run_id : RunId) (limit : ℕ) (tasks : BTreeMap TaskId Task) (id : TaskId)
    (s : TaskExecutionSnapshot) (old : BTreeMap String WriteKeyOwner)
    → contains_key id tasks ≡ true
    → check_state run_id limit tasks id s old ≢ panic
unfolding check_state
check_state-total run_id limit tasks id s old known h = elim (Option-cases (get id tasks)) [
  | inl missing ↦ ground arith
  | inr (t, et) ↦ ground (
    arith,
    check_status-total limit id s,
    check_current_lease-total run_id limit id t s.attempts s.current_lease old,
    check_record-total run_id id s.attempts s.terminal_record,
  )
]

check_states-total :
    (run_id : RunId) (limit : ℕ) (tasks : BTreeMap TaskId Task)
    (m : BTreeMap TaskId TaskExecutionSnapshot) (old : BTreeMap String WriteKeyOwner)
    → ((id : TaskId) → contains_key id m ≡ true → contains_key id tasks ≡ true)
    → check_states run_id limit tasks m old ≢ panic
unfolding check_states get
check_states-total run_id limit tasks [] old known h = cc h
check_states-total run_id limit tasks ((i, v) ∷ m) old known h =
    elim (Result-cases (check_state run_id limit tasks i v old)) [
      | inl (mid, em) ↦
          check_states-total run_id limit tasks m mid (λ id c. known id (ground arith))
            (ground arith)
      | inr (inl (e, ee)) ↦ ground arith
      | inr (inr ep) ↦
          check_state-total run_id limit tasks i v old (known i (ground (arith, =?_refl i))) ep
    ]

-- Whatever the snapshot is, `restore` returns a kernel or an error and does not panic.
pub restore-total :
    (run_id : RunId) (tasks : List Task) (budget : RetryBudget)
    (snapshot : ExecutionLifecycleSnapshot)
    → restore run_id tasks budget snapshot ≢ panic
unfolding restore
restore-total run_id tasks budget snapshot h = elim (Result-cases (new run_id tasks budget)) [
  | inr (inl (e, ee)) ↦ ground arith
  | inr (inr ep) ↦ new-total run_id tasks budget ep
  | inl (k, made) ↦ elim (Bool-cases (same_list ◌=?◌ (keys snapshot.tasks) (keys k.tasks))) [
    | inr other ↦ ground arith
    | inl same ↦
        let e = (same_list-Decides ◌=?◌ ord-Decides (keys snapshot.tasks) (keys k.tasks)).0 same in
        ground (
          arith,
          check_states-total k.run_id budget.max_attempts k.tasks snapshot.tasks []
              (λ id c. ground (arith, contains_key-keys id snapshot.tasks k.tasks e)),
        )
  ]
]
