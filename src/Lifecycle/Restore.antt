-- ===== src/Lifecycle/Restore.antt =====
-- `ExecutionLifecycleKernel::restore` and the read accessors.
pub mod Facts
pub mod Owners
pub mod States
pub mod Acceptance
pub mod Correct
pub mod Total
pub mod Persistence
pub mod Again
mod Examples
use mathlib.Core.Option
use ovca_core.Prelude.{
  ℕ, String, Bool, true, false, not, ◌&&◌, ◌||◌, ◌≡◌, Option, none, some, List, [], ◌∷◌, Result, ok,
  err, panic, ◌>>=◌, ◌>>◌, reject_if, expect, map_err, ltb, leb, ◌==◌, if◌then◌else◌, is_some,
}
use ovca_core.Collections.Order.{◌=?◌, string_ord}
use ovca_core.Collections.BTreeMap.{BTreeMap, get, insert, keys, retain}
use ovca_core.Collections.BTreeSet.{BTreeSet, collect}
use ovca_core.Collections.Equality.{same_option, same_list, same_map}
use ovca_core.Goal.Ids.{
  ContractVersion, DateTime, GoalId, Role, role_ord, RunId, TaskId, goal_runtime_contract_version,
}
use ovca_core.Goal.Task.{
  RetryBudget, Task, TaskLease, TaskStatus, TaskTerminalOutcome, TaskTerminalRecord, same_outcome,
  task_status_ord,
}
use ovca_core.Lifecycle.State.{
  ExecutionLifecycleError, ExecutionLifecycleKernel, ExecutionLifecycleSnapshot,
  TaskExecutionSnapshot, WriteKeyOwner,
}
use ovca_core.Lifecycle.Init.{new}

pub data ExecutionLifecycleRestoreError : Type 0 where
  invalid_definition : ExecutionLifecycleError → ExecutionLifecycleRestoreError
  run_id_mismatch : (expected actual : RunId) → ExecutionLifecycleRestoreError
  goal_id_mismatch : (expected actual : Option GoalId) → ExecutionLifecycleRestoreError
  max_attempts_mismatch : (expected actual : ℕ) → ExecutionLifecycleRestoreError
  task_set_mismatch : (expected actual : BTreeSet TaskId) → ExecutionLifecycleRestoreError
  attempts_exceed_budget : TaskId → (attempts max_attempts : ℕ) → ExecutionLifecycleRestoreError
  invalid_status_attempts :
      TaskId → TaskStatus → (attempts max_attempts : ℕ) → ExecutionLifecycleRestoreError
  unsupported_task_status : TaskId → TaskStatus → ExecutionLifecycleRestoreError
  last_failure_without_attempt : TaskId → ExecutionLifecycleRestoreError
  running_lease_mismatch :
      TaskId → TaskStatus → (has_current_lease : Bool) → ExecutionLifecycleRestoreError
  terminal_record_mismatch :
      TaskId → TaskStatus → Option TaskTerminalOutcome → ExecutionLifecycleRestoreError
  invalid_lease_contract : TaskId → (actual : ContractVersion) → ExecutionLifecycleRestoreError
  lease_run_mismatch : TaskId → (actual : RunId) → ExecutionLifecycleRestoreError
  lease_task_mismatch : TaskId → (actual : TaskId) → ExecutionLifecycleRestoreError
  lease_role_mismatch : TaskId → (expected actual : Role) → ExecutionLifecycleRestoreError
  lease_write_keys_mismatch :
      TaskId → (expected actual : BTreeSet String) → ExecutionLifecycleRestoreError
  lease_attempt_mismatch : TaskId → (expected actual : ℕ) → ExecutionLifecycleRestoreError
  lease_max_attempts_mismatch : TaskId → (expected actual : ℕ) → ExecutionLifecycleRestoreError
  invalid_lease_timestamps : TaskId → ExecutionLifecycleRestoreError
  invalid_terminal_contract : TaskId → (actual : ContractVersion) → ExecutionLifecycleRestoreError
  terminal_run_mismatch : TaskId → (actual : RunId) → ExecutionLifecycleRestoreError
  terminal_task_mismatch : TaskId → (actual : TaskId) → ExecutionLifecycleRestoreError
  terminal_without_attempt : TaskId → ExecutionLifecycleRestoreError
  duplicate_write_key_owner :
      String → (first_task_id second_task_id : TaskId) → ExecutionLifecycleRestoreError
  write_key_owners_mismatch :
      (expected actual : BTreeMap String WriteKeyOwner) → ExecutionLifecycleRestoreError

abbrev pub Restored {ℓ} : Type ℓ → Type ℓ
Restored A = Result ExecutionLifecycleRestoreError A

pub is_unsupported : TaskStatus → Bool
is_unsupported TaskStatus.awaiting_approval = true
is_unsupported TaskStatus.reviewing = true
is_unsupported _ = false

-- The last two cases are `unreachable!()`.
pub valid_attempts : TaskStatus → (attempts limit : ℕ) → Restored Bool
valid_attempts TaskStatus.pending attempts limit = ok (attempts == 0)
valid_attempts TaskStatus.ready attempts limit = ok (ltb attempts limit)
valid_attempts TaskStatus.running attempts limit = ok (leb 1 attempts)
valid_attempts TaskStatus.completed attempts limit = ok (leb 1 attempts)
valid_attempts TaskStatus.cancelled attempts limit = ok (leb 1 attempts)
valid_attempts TaskStatus.failed attempts limit = ok (attempts == limit)
valid_attempts TaskStatus.awaiting_approval attempts limit = panic
valid_attempts TaskStatus.reviewing attempts limit = panic

pub expected_outcome : TaskStatus → Option TaskTerminalOutcome
expected_outcome TaskStatus.completed = some TaskTerminalOutcome.completed
expected_outcome TaskStatus.cancelled = some TaskTerminalOutcome.cancelled
expected_outcome _ = none

abbrev pub actual_outcome : TaskExecutionSnapshot → Option TaskTerminalOutcome
actual_outcome state = Option.map (λ r. r.outcome) state.terminal_record

-- `(state.status == TaskStatus::Running) != has_current_lease`
abbrev pub lease_mismatched : TaskExecutionSnapshot → Bool
lease_mismatched state =
    if state.status =? TaskStatus.running
    then not (is_some state.current_lease)
    else is_some state.current_lease

-- The tests of a task's status, before those of its lease and its record.
pub check_status : ℕ → TaskId → TaskExecutionSnapshot → Restored (Unit {0})
check_status limit task_id state = do
  reject_if (ltb limit state.attempts)
      (ExecutionLifecycleRestoreError.attempts_exceed_budget task_id state.attempts limit)
  reject_if (is_unsupported state.status)
      (ExecutionLifecycleRestoreError.unsupported_task_status task_id state.status)
  valid ← valid_attempts state.status state.attempts limit
  reject_if (not valid) (
      ExecutionLifecycleRestoreError.invalid_status_attempts task_id state.status state.attempts
        limit)
  reject_if (state.attempts == 0 && is_some state.last_failure_reason)
      (ExecutionLifecycleRestoreError.last_failure_without_attempt task_id)
  reject_if (lease_mismatched state) (
      ExecutionLifecycleRestoreError.running_lease_mismatch task_id state.status
        (is_some state.current_lease))
  reject_if (not (same_option same_outcome (actual_outcome state) (expected_outcome state.status)))
      (ExecutionLifecycleRestoreError.terminal_record_mismatch task_id state.status
        (actual_outcome state))

pub check_lease : RunId → ℕ → TaskId → Task → (attempts : ℕ) → TaskLease → Restored (Unit {0})
check_lease run_id limit task_id task attempts lease = do
  reject_if (not (lease.contract_version == goal_runtime_contract_version))
      (ExecutionLifecycleRestoreError.invalid_lease_contract task_id lease.contract_version)
  reject_if (not (lease.run_id =? run_id))
      (ExecutionLifecycleRestoreError.lease_run_mismatch task_id lease.run_id)
  reject_if (not (lease.task_id =? task_id))
      (ExecutionLifecycleRestoreError.lease_task_mismatch task_id lease.task_id)
  reject_if (not (lease.worker_role =? task.assigned_role)) (
      ExecutionLifecycleRestoreError.lease_role_mismatch task_id task.assigned_role
        lease.worker_role)
  let expected_write_keys = collect task.write_keys
  reject_if (not (same_list ◌=?◌ lease.write_keys expected_write_keys)) (
      ExecutionLifecycleRestoreError.lease_write_keys_mismatch task_id expected_write_keys
        lease.write_keys)
  reject_if (lease.attempt == 0 || not (lease.attempt == attempts))
      (ExecutionLifecycleRestoreError.lease_attempt_mismatch task_id attempts lease.attempt)
  reject_if (not (lease.max_attempts == limit))
      (ExecutionLifecycleRestoreError.lease_max_attempts_mismatch task_id limit lease.max_attempts)
  reject_if (ltb lease.heartbeat_at lease.claimed_at || leb lease.expires_at lease.heartbeat_at)
      (ExecutionLifecycleRestoreError.invalid_lease_timestamps task_id)

abbrev pub reject_first : String → TaskId → Option WriteKeyOwner → Restored (Unit {0})
reject_first write_key task_id none = ok tt
reject_first write_key task_id (some first) =
    err (ExecutionLifecycleRestoreError.duplicate_write_key_owner write_key first.task_id task_id)

-- The loop over the write keys of a lease; `insert` returns the value that it replaces.
pub own_lease_keys :
    TaskId
    → WriteKeyOwner
    → List String
    → BTreeMap String WriteKeyOwner
    → Restored (BTreeMap String WriteKeyOwner)
own_lease_keys task_id owner [] expected_owners = ok expected_owners
own_lease_keys task_id owner (write_key ∷ rest) expected_owners = do
  reject_first write_key task_id (get write_key expected_owners)
  own_lease_keys task_id owner rest (insert write_key owner expected_owners)

abbrev pub lease_owner : TaskId → TaskLease → WriteKeyOwner
lease_owner task_id lease = record {
  task_id = task_id;
  worker_id = lease.worker_id;
  lease_id = lease.lease_id;
  expires_at = lease.expires_at;
}

abbrev pub check_current_lease :
    RunId
    → ℕ
    → TaskId
    → Task
    → (attempts : ℕ) → Option TaskLease
    → BTreeMap String WriteKeyOwner
    → Restored (BTreeMap String WriteKeyOwner)
check_current_lease run_id limit task_id task attempts none expected_owners = ok expected_owners
check_current_lease run_id limit task_id task attempts (some lease) expected_owners = do
  check_lease run_id limit task_id task attempts lease
  own_lease_keys task_id (lease_owner task_id lease) lease.write_keys expected_owners

abbrev pub check_record :
    RunId → TaskId → (attempts : ℕ) → Option TaskTerminalRecord → Restored (Unit {0})
check_record run_id task_id attempts none = ok tt
check_record run_id task_id attempts (some record') = do
  reject_if (attempts == 0) (ExecutionLifecycleRestoreError.terminal_without_attempt task_id)
  reject_if (not (record'.contract_version == goal_runtime_contract_version))
      (ExecutionLifecycleRestoreError.invalid_terminal_contract task_id record'.contract_version)
  reject_if (not (record'.run_id =? run_id))
      (ExecutionLifecycleRestoreError.terminal_run_mismatch task_id record'.run_id)
  reject_if (not (record'.task_id =? task_id))
      (ExecutionLifecycleRestoreError.terminal_task_mismatch task_id record'.task_id)

-- One round of the loop over `snapshot.tasks`, with the owners derived so far.
pub check_state :
    RunId
    → ℕ
    → BTreeMap TaskId Task
    → TaskId
    → TaskExecutionSnapshot
    → BTreeMap String WriteKeyOwner
    → Restored (BTreeMap String WriteKeyOwner)
check_state run_id limit tasks task_id state expected_owners = do
  check_status limit task_id state
  task ← expect (get task_id tasks)
  owners ←
      check_current_lease run_id limit task_id task state.attempts state.current_lease
        expected_owners
  check_record run_id task_id state.attempts state.terminal_record
  ok owners

pub check_states :
    RunId
    → ℕ
    → BTreeMap TaskId Task
    → BTreeMap TaskId TaskExecutionSnapshot
    → BTreeMap String WriteKeyOwner
    → Restored (BTreeMap String WriteKeyOwner)
check_states run_id limit tasks [] expected_owners = ok expected_owners
check_states run_id limit tasks ((task_id, state) ∷ rest) expected_owners = do
  owners ← check_state run_id limit tasks task_id state expected_owners
  check_states run_id limit tasks rest owners

-- `WriteKeyOwner`'s derived equality.
abbrev pub same_owner : WriteKeyOwner → WriteKeyOwner → Bool
same_owner a b =
    a.task_id =? b.task_id
    && a.worker_id =? b.worker_id
    && a.lease_id =? b.lease_id
    && a.expires_at == b.expires_at

-- The keys of a map are in ascending order, so they are the set that is collected of them.
pub restore :
    RunId → List Task → RetryBudget → ExecutionLifecycleSnapshot → Restored ExecutionLifecycleKernel
restore run_id tasks retry_budget snapshot = do
  kernel ← map_err ExecutionLifecycleRestoreError.invalid_definition (new run_id tasks retry_budget)
  reject_if (not (snapshot.run_id =? run_id))
      (ExecutionLifecycleRestoreError.run_id_mismatch run_id snapshot.run_id)
  reject_if (not (same_option ◌=?◌ snapshot.goal_id kernel.goal_id))
      (ExecutionLifecycleRestoreError.goal_id_mismatch kernel.goal_id snapshot.goal_id)
  reject_if (not (snapshot.max_attempts == retry_budget.max_attempts)) (
      ExecutionLifecycleRestoreError.max_attempts_mismatch retry_budget.max_attempts
        snapshot.max_attempts)
  reject_if (not (same_list ◌=?◌ (keys snapshot.tasks) (keys kernel.tasks)))
      (ExecutionLifecycleRestoreError.task_set_mismatch (keys kernel.tasks) (keys snapshot.tasks))
  expected_owners ←
      check_states kernel.run_id retry_budget.max_attempts kernel.tasks snapshot.tasks []
  reject_if (not (same_map same_owner snapshot.write_key_owners expected_owners)) (
      ExecutionLifecycleRestoreError.write_key_owners_mismatch expected_owners
        snapshot.write_key_owners)
  ok (record kernel { state = snapshot.tasks; write_key_owners = snapshot.write_key_owners })

-- `task_status`, `attempts`, `lease`, `active_lease` and `terminal_record`
pub task_status : ExecutionLifecycleKernel → TaskId → Option TaskStatus
task_status k task_id = Option.map (λ s. s.status) (get task_id k.state)

pub attempts : ExecutionLifecycleKernel → TaskId → Option ℕ
attempts k task_id = Option.map (λ s. s.attempts) (get task_id k.state)

abbrev pub lease_of : Option TaskExecutionSnapshot → Option TaskLease
lease_of none = none
lease_of (some state) = state.current_lease

pub lease : ExecutionLifecycleKernel → TaskId → Option TaskLease
lease k task_id = lease_of (get task_id k.state)

abbrev pub unexpired : DateTime → Option TaskLease → Option TaskLease
unexpired now none = none
unexpired now (some l) = if ltb now l.expires_at then some l else none

pub active_lease : ExecutionLifecycleKernel → TaskId → DateTime → Option TaskLease
active_lease k task_id now = unexpired now (lease k task_id)

abbrev pub record_of : Option TaskExecutionSnapshot → Option TaskTerminalRecord
record_of none = none
record_of (some state) = state.terminal_record

pub terminal_record : ExecutionLifecycleKernel → TaskId → Option TaskTerminalRecord
terminal_record k task_id = record_of (get task_id k.state)

-- `active_write_key_owners`: what is collected is in the order of the map.
pub active_write_key_owners : ExecutionLifecycleKernel → DateTime → BTreeMap String WriteKeyOwner
active_write_key_owners k now = retain (λ _ owner. ltb now owner.expires_at) k.write_key_owners
