-- ===== src/Lifecycle/State.antt =====
-- The kernel's state, its requests and its errors.
use ovca_core.Prelude.{ℕ, String, Option, Result, ok, err, ◌==◌, not, if◌then◌else◌}
use ovca_core.Collections.Order.{◌=?◌}
use ovca_core.Collections.BTreeMap.{BTreeMap}
use ovca_core.Goal.Ids.{
  ContractVersion, DateTime, GoalId, IdempotencyKey, LeaseId, Role, role_ord, RunId, TaskId,
  WorkerId, goal_runtime_contract_version,
}
use ovca_core.Goal.Task.{RetryBudget, Task, TaskLease, TaskStatus, TaskTerminalRecord}

pub record TaskExecutionSnapshot : Type 0 where
  pub status : TaskStatus
  pub attempts : ℕ  -- u32
  pub current_lease : Option TaskLease
  pub terminal_record : Option TaskTerminalRecord
  pub last_failure_reason : Option String

pub record WriteKeyOwner : Type 0 where
  pub task_id : TaskId
  pub worker_id : WorkerId
  pub lease_id : LeaseId
  pub expires_at : DateTime

pub record ExecutionLifecycleSnapshot : Type 0 where
  pub run_id : RunId
  pub goal_id : Option GoalId
  pub max_attempts : ℕ  -- u32
  pub tasks : BTreeMap TaskId TaskExecutionSnapshot
  pub write_key_owners : BTreeMap String WriteKeyOwner

pub record ClaimRequest : Type 0 where
  pub task_id : TaskId
  pub worker_id : WorkerId
  pub worker_role : Role
  pub lease_id : LeaseId
  pub now : DateTime
  pub expires_at : DateTime

pub record HeartbeatRequest : Type 0 where
  pub task_id : TaskId
  pub worker_id : WorkerId
  pub worker_role : Role
  pub lease_id : LeaseId
  pub now : DateTime
  pub expires_at : DateTime

pub record FailureRequest : Type 0 where
  pub task_id : TaskId
  pub worker_id : WorkerId
  pub worker_role : Role
  pub lease_id : LeaseId
  pub now : DateTime
  pub reason : String

pub record CompletionRequest : Type 0 where
  pub task_id : TaskId
  pub worker_id : WorkerId
  pub worker_role : Role
  pub lease_id : LeaseId
  pub idempotency_key : IdempotencyKey
  pub occurred_at : DateTime

pub record CancellationRequest : Type 0 where
  pub task_id : TaskId
  pub worker_id : WorkerId
  pub worker_role : Role
  pub lease_id : LeaseId
  pub idempotency_key : IdempotencyKey
  pub occurred_at : DateTime
  pub reason : Option String

pub data ExecutionLifecycleError : Type 0 where
  unsupported_contract_version :
      (contract : String) (expected actual : ContractVersion) → ExecutionLifecycleError
  invalid_max_attempts : ExecutionLifecycleError
  duplicate_task_id : TaskId → ExecutionLifecycleError
  goal_mismatch : TaskId → (expected actual : GoalId) → ExecutionLifecycleError
  unknown_dependency : (task_id dependency_id : TaskId) → ExecutionLifecycleError
  invalid_assigned_role : TaskId → Role → ExecutionLifecycleError
  invalid_initial_task_status : TaskId → TaskStatus → ExecutionLifecycleError
  unknown_task : TaskId → ExecutionLifecycleError
  dependency_incomplete : (task_id dependency_id : TaskId) → TaskStatus → ExecutionLifecycleError
  coordinator_rejected : TaskId → ExecutionLifecycleError
  role_mismatch : TaskId → (expected actual : Role) → ExecutionLifecycleError
  task_not_claimable : TaskId → TaskStatus → ExecutionLifecycleError
  invalid_lease_expiry : TaskId → ExecutionLifecycleError
  active_task_lease : TaskId → LeaseId → ExecutionLifecycleError
  write_key_conflict : (write_key : String) (owner_task_id : TaskId) → ExecutionLifecycleError
  retry_exhausted : TaskId → (max_attempts : ℕ) → ExecutionLifecycleError
  no_current_lease : TaskId → ExecutionLifecycleError
  worker_mismatch : TaskId → ExecutionLifecycleError
  lease_mismatch : TaskId → ExecutionLifecycleError
  stale_heartbeat : TaskId → ExecutionLifecycleError
  lease_expired : TaskId → ExecutionLifecycleError
  non_extending_heartbeat : TaskId → ExecutionLifecycleError
  terminal_retry_identity_mismatch : TaskId → ExecutionLifecycleError
  idempotency_key_conflict :
      TaskId → (existing requested : IdempotencyKey) → ExecutionLifecycleError

pub record ExecutionLifecycleKernel : Type 0 where
  pub run_id : RunId
  pub goal_id : Option GoalId
  pub retry_budget : RetryBudget
  pub tasks : BTreeMap TaskId Task
  pub state : BTreeMap TaskId TaskExecutionSnapshot
  pub write_key_owners : BTreeMap String WriteKeyOwner

abbrev pub Attempt : Type 0 → Type 0
Attempt A = Result ExecutionLifecycleError A

unfoldable pub validate_version : String → ContractVersion → Attempt (Unit {0})
validate_version contract actual =
    if actual == goal_runtime_contract_version
    then ok tt
    else err (
        ExecutionLifecycleError.unsupported_contract_version contract goal_runtime_contract_version
          actual)

unfoldable pub validate_role : TaskId → Role → Role → Attempt (Unit {0})
validate_role task_id expected actual =
    if actual =? Role.coordinator
    then err (ExecutionLifecycleError.coordinator_rejected task_id)
    else if not (actual =? expected)
    then err (ExecutionLifecycleError.role_mismatch task_id expected actual)
    else ok tt

-- `snapshot`
unfoldable pub snapshot : ExecutionLifecycleKernel → ExecutionLifecycleSnapshot
snapshot k = record {
  run_id = k.run_id;
  goal_id = k.goal_id;
  max_attempts = k.retry_budget.max_attempts;
  tasks = k.state;
  write_key_owners = k.write_key_owners;
}
