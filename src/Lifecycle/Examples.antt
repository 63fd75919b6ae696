-- ===== src/Lifecycle/Examples.antt =====
-- Two tasks, of which the second waits for the first, taken through the kernel.
use ovca_core.Prelude.{◌+◌, ◌^◌, ◌<◌, ◌≤◌, true, ◌≡◌, refl, none, some, List, [], ◌∷◌, ok, arith}
use ovca_core.Collections.Order.{string_ord}
use ovca_core.Collections.BTreeMap.{get, insert, collect_from, retain, modify}
use ovca_core.Collections.BTreeSet.{contains, extend}
use ovca_core.Goal.Ids.{Role, TaskId}
use ovca_core.Goal.Task.{
  RetryBudget, Task, TaskLease, TaskStatus, TaskTerminalOutcome, TaskTerminalRecord,
}
use ovca_core.Lifecycle.State.{
  ClaimRequest, CompletionRequest, ExecutionLifecycleKernel, HeartbeatRequest,
  TaskExecutionSnapshot, validate_version, validate_role,
}
use ovca_core.Lifecycle.Init.{
  new, count_from, first_repeated, index_tasks, is_worker_role, is_initial_status, check_definition,
  check_definitions, first_goal, check_goals, check_goal, check_known, check_known_dependencies,
  initial_state,
}
use ovca_core.Lifecycle.Claim.{
  check_claimable, check_dependencies, check_write_keys, own_keys, is_live, claimed, apply_claim,
}
use ovca_core.Lifecycle.Heartbeat.{apply_heartbeat, extend_owners}
use ovca_core.Lifecycle.Release.{require_active_owner, release_keys, release_current_lease}
use ovca_core.Lifecycle.Terminal.{
  completion_request, end_task, terminate, apply_terminal, apply_completion, is_ended,
}
use ovca_core.Lifecycle.Commands.{
  Command, claims, heartbeats, completes, claim, heartbeat, complete, run, run_all,
}
use ovca_core.Lifecycle.Invariant.{Holds, IsValid}
use ovca_core.Lifecycle.Invariant.Runs.{InOrder}
use ovca_core.Lifecycle.Safety.{new-run_all-IsValid, run_all-exclusive}
use ovca_core.Lifecycle.Attempts.{leases_granted, run_all-attempts}
use ovca_core.Lifecycle.Total.{Returns, command-Returns}
use ovca_core.Lifecycle.Dependencies.{DependenciesDone, new-run_all-DependenciesDone}
use ovca_core.Lifecycle.Ending.{apply_terminal-twice, run_all-ended}

abbrev pub build_task : Task
build_task = record {
  contract_version = 1;
  id = "build";
  goal_id = "goal";
  outcome = "built";
  dependencies = [];
  assigned_role = Role.engineer;
  resource_keys = [];
  write_keys = "src" ∷ [];
  status = TaskStatus.ready;
  created_at = 1;
  updated_at = 1;
}

abbrev pub test_task : Task
test_task = record build_task {
  id = "test";
  dependencies = "build" ∷ [];
  write_keys = "reports" ∷ "src" ∷ [];
  status = TaskStatus.pending;
}

abbrev pub budget : RetryBudget
budget = record { contract_version = 1; max_attempts = 2 }

abbrev open_snapshot : TaskStatus → TaskExecutionSnapshot
open_snapshot x = record {
  status = x;
  attempts = 0;
  current_lease = none;
  terminal_record = none;
  last_failure_reason = none;
}

abbrev pub created : ExecutionLifecycleKernel
created = record {
  run_id = "run";
  goal_id = some "goal";
  retry_budget = budget;
  tasks = ("build", build_task) ∷ ("test", test_task) ∷ [];
  state =
      ("build", open_snapshot TaskStatus.ready) ∷ ("test", open_snapshot TaskStatus.pending) ∷ [];
  write_key_owners = [];
}

pub created_ok : new "run" (test_task ∷ build_task ∷ []) budget ≡ ok created
unfolding new validate_version count_from first_repeated index_tasks collect_from insert
    check_definitions check_definition is_worker_role is_initial_status first_goal check_goal
    check_goals check_known_dependencies check_known extend initial_state get
created_ok = refl

abbrev build_claim : ClaimRequest
build_claim = record {
  task_id = "build";
  worker_id = "ada";
  worker_role = Role.engineer;
  lease_id = "lease-1";
  now = 10;
  expires_at = 20;
}

abbrev build_heartbeat : HeartbeatRequest
build_heartbeat = record {
  task_id = "build";
  worker_id = "ada";
  worker_role = Role.engineer;
  lease_id = "lease-1";
  now = 15;
  expires_at = 40;
}

abbrev build_completion : CompletionRequest
build_completion = record {
  task_id = "build";
  worker_id = "ada";
  worker_role = Role.engineer;
  lease_id = "lease-1";
  idempotency_key = "done-1";
  occurred_at = 30;
}

abbrev pub build_lease : TaskLease
build_lease = record {
  contract_version = 1;
  run_id = "run";
  task_id = "build";
  worker_id = "ada";
  worker_role = Role.engineer;
  lease_id = "lease-1";
  write_keys = "src" ∷ [];
  attempt = 1;
  max_attempts = 2;
  claimed_at = 10;
  heartbeat_at = 15;
  expires_at = 40;
}

abbrev pub working : List Command
working = claims build_claim ∷ heartbeats build_heartbeat ∷ []

abbrev finishing : List Command
finishing = claims build_claim ∷ heartbeats build_heartbeat ∷ completes build_completion ∷ []

pub working_order : InOrder 0 working
working_order = (omega arith, (omega arith, tt))

finishing_order : InOrder 0 finishing
finishing_order = (omega arith, (omega arith, (omega arith, tt)))

working_lease : Holds (run_all created working).state "build" build_lease
unfolding run_all run claim heartbeat apply_claim apply_heartbeat extend_owners validate_role
    check_claimable check_dependencies check_write_keys claimed own_keys is_live retain insert
    modify get extend
working_lease = (_, refl, refl)

pub below : budget.max_attempts + 1 < 2 ^ 32
below = omega arith

owns_src : contains "src" build_lease.write_keys ≡ true
unfolding contains
owns_src = refl

finishing-IsValid : IsValid (run_all created finishing) 30
finishing-IsValid =
    new-run_all-IsValid "run" (test_task ∷ build_task ∷ []) budget created finishing below
      created_ok finishing_order

new-run_all-IsValid_example : IsValid (run_all created finishing) 30
new-run_all-IsValid_example =
    new-run_all-IsValid "run" (test_task ∷ build_task ∷ []) budget created finishing below
      created_ok finishing_order

run_all-exclusive_example : ◌≡◌ {A = TaskId} "build" "build"
run_all-exclusive_example =
    run_all-exclusive "run" (test_task ∷ build_task ∷ []) budget created working "build" "build"
      build_lease build_lease "src" below created_ok working_order working_lease working_lease
      (omega arith) (omega arith) owns_src owns_src

abbrev build_record : TaskTerminalRecord
build_record = record {
  contract_version = 1;
  run_id = "run";
  task_id = "build";
  worker_id = "ada";
  lease_id = "lease-1";
  idempotency_key = "done-1";
  outcome = TaskTerminalOutcome.completed;
  occurred_at = 30;
  reason = none;
}

abbrev late_claim : ClaimRequest
late_claim = record build_claim { lease_id = "lease-2"; now = 50; expires_at = 60 }

abbrev late_completion : CompletionRequest
late_completion = record build_completion { idempotency_key = "done-2"; occurred_at = 55 }

abbrev build_finished : TaskExecutionSnapshot
build_finished = record {
  status = TaskStatus.completed;
  attempts = 1;
  current_lease = none;
  terminal_record = some build_record;
  last_failure_reason = none;
}

finished_state : get "build" (run_all created finishing).state ≡ some build_finished
unfolding run_all run claim heartbeat complete apply_completion apply_terminal terminate end_task
    is_ended require_active_owner release_keys release_current_lease apply_claim apply_heartbeat
    extend_owners validate_role check_claimable check_dependencies check_write_keys claimed own_keys
    is_live retain insert modify get extend contains
finished_state = refl

run_all-ended_example :
    get "build"
      (run_all
        (run_all created finishing)
        (claims late_claim ∷ completes late_completion ∷ [])).state
    ≡ some build_finished
unfolding is_ended
run_all-ended_example =
    run_all-ended (run_all created finishing) 30
      (claims late_claim ∷ completes late_completion ∷ []) "build" build_finished finishing-IsValid
      (omega arith, (omega arith, tt)) finished_state refl

run_all-attempts_example :
    (1 ≡ leases_granted "build" created finishing) × (leases_granted "build" created finishing ≤ 2)
run_all-attempts_example =
    run_all-attempts "run" (test_task ∷ build_task ∷ []) budget created finishing "build"
      build_finished below created_ok finishing_order finished_state

abbrev pub leased : ExecutionLifecycleKernel
leased = record created {
  state =
      (
        "build",
        record (open_snapshot TaskStatus.running) {
          attempts = 1;
          current_lease = some build_lease;
        },
      )
      ∷ ("test", open_snapshot TaskStatus.pending)
      ∷ [];
  write_key_owners =
      (
        "src",
        record { task_id = "build"; worker_id = "ada"; lease_id = "lease-1"; expires_at = 40 },
      )
      ∷ [];
}

abbrev released : ExecutionLifecycleKernel
released = record created {
  state = ("build", build_finished) ∷ ("test", open_snapshot TaskStatus.pending) ∷ [];
}

first_completion :
    apply_terminal leased (completion_request build_completion) ≡ ok (build_record, released)
unfolding apply_terminal terminate end_task is_ended require_active_owner release_keys
    release_current_lease validate_role insert retain get contains
first_completion = refl

apply_terminal-twice_example :
    apply_terminal released (completion_request build_completion) ≡ ok (build_record, released)
apply_terminal-twice_example =
    apply_terminal-twice leased (completion_request build_completion) build_record released
      first_completion

command-Returns_example : Returns (run_all created finishing) (claims late_claim)
command-Returns_example =
    command-Returns (run_all created finishing) 30 (claims late_claim) finishing-IsValid
      (omega arith)

new-run_all-DependenciesDone_example : DependenciesDone (run_all created finishing)
new-run_all-DependenciesDone_example =
    new-run_all-DependenciesDone "run" (test_task ∷ build_task ∷ []) budget created finishing below
      created_ok finishing_order
