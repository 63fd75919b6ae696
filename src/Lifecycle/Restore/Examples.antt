-- ===== src/Lifecycle/Restore/Examples.antt =====
-- A kernel with a task at work, taken through a snapshot.
use ovca_core.Prelude.{
  ◌≢◌, ◌≡◌, ◌↔◌, ◌<◌, ◌≤◌, inl, inr, refl, List, [], ◌∷◌, ok, panic, arith, Bool-cases, subst,
}
use ovca_core.Collections.Order.{◌=?◌, string_ord}
use ovca_core.Collections.BTreeMap.{get, insert, collect_from, retain, modify}
use ovca_core.Collections.BTreeSet.{extend}
use ovca_core.Goal.Ids.{TaskId}
use ovca_core.Goal.Task.{Task, TaskLease}
use ovca_core.Lifecycle.State.{ExecutionLifecycleKernel, snapshot, validate_version, validate_role}
use ovca_core.Lifecycle.Init.{
  new, count_from, first_repeated, index_tasks, is_worker_role, is_initial_status, check_definition,
  check_definitions, first_goal, check_goals, check_goal, check_known, check_known_dependencies,
  initial_state,
}
use ovca_core.Lifecycle.Claim.{
  check_claimable, check_dependencies, check_write_keys, own_keys, is_live, claimed, apply_claim,
}
use ovca_core.Lifecycle.Heartbeat.{apply_heartbeat, extend_owners}
use ovca_core.Lifecycle.Commands.{claim, heartbeat, run, run_all}
use ovca_core.Lifecycle.Invariant.{Holds, IsValid}
use ovca_core.Lifecycle.Invariant.Runs.{last_instant}
use ovca_core.Lifecycle.Examples.{
  build_task, test_task, budget, created, created_ok, working, working_order, below, leased,
  build_lease,
}
use ovca_core.Lifecycle.Restore.{
  restore, check_states, check_state, check_status, check_lease, own_lease_keys, valid_attempts,
  is_unsupported, expected_outcome,
}
use ovca_core.Lifecycle.Restore.Correct.{restore-IsValid}
use ovca_core.Lifecycle.Restore.Total.{restore-total}
use ovca_core.Lifecycle.Restore.Again.{OwnsAll, restore-snapshot_iff, restore-snapshot}

abbrev tasks : List Task
tasks = test_task ∷ build_task ∷ []

working_run : run_all created working ≡ leased
unfolding run_all run claim heartbeat apply_claim apply_heartbeat extend_owners validate_role
    check_claimable check_dependencies check_write_keys claimed own_keys is_live retain insert
    modify get extend
working_run = refl

leased_restored : restore "run" tasks budget (snapshot leased) ≡ ok leased
unfolding restore check_states check_state check_status check_lease own_lease_keys valid_attempts
    is_unsupported expected_outcome snapshot new validate_version count_from first_repeated
    index_tasks collect_from insert check_definitions check_definition is_worker_role
    is_initial_status first_goal check_goal check_goals check_known_dependencies check_known extend
    initial_state get
leased_restored = refl

only_lease : (id : TaskId) (l : TaskLease) → Holds leased.state id l → l ≡ build_lease
unfolding get
only_lease id l (s, e, el) = elim (Bool-cases (id =? "build")) [
  | inl build ↦ ground arith
  | inr other ↦ elim (Bool-cases (id =? "test")) [
    | inl test ↦ absurd (ground arith)
    | inr neither ↦ absurd (ground arith)
  ]
]

leased-past :
    (id : TaskId) (l : TaskLease) → Holds (snapshot leased).tasks id l → l.heartbeat_at ≤ 15
unfolding snapshot
leased-past id l held = rw (only_lease id l held) (omega arith)

working-alive :
    (id : TaskId) (l : TaskLease)
    → Holds (run_all created working).state id l
    → last_instant 0 working < l.expires_at
working-alive id l held =
    let held' = subst (λ (x : ExecutionLifecycleKernel). Holds x.state id l) working_run held in
    rw (only_lease id l held') (omega arith)

restore-IsValid_example : IsValid leased 15 × (snapshot leased ≡ snapshot leased)
restore-IsValid_example =
    restore-IsValid "run" tasks budget (snapshot leased) leased 15 below leased-past leased_restored

restore-snapshot_example :
    restore "run" tasks budget (snapshot (run_all created working)) ≡ ok (run_all created working)
restore-snapshot_example =
    restore-snapshot "run" tasks budget created working below created_ok working_order working-alive

restore-snapshot_iff_example :
    (restore "run" tasks budget (snapshot (run_all created working)) ≡ ok (run_all created working))
    ↔ OwnsAll (run_all created working)
restore-snapshot_iff_example =
    restore-snapshot_iff "run" tasks budget created working below created_ok working_order

restore-total_example : restore "other" tasks budget (snapshot leased) ≢ panic
restore-total_example = restore-total "other" tasks budget (snapshot leased)
