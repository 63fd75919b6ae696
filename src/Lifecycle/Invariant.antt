-- ===== src/Lifecycle/Invariant.antt =====
-- What holds of a kernel between two commands.
pub mod Update
pub mod OnClaim
pub mod AfterNew
pub mod AfterClaim
pub mod Runs
pub mod AfterRelease
pub mod AfterTerminal
pub mod AfterFailure
pub mod AfterHeartbeat
use ovca_core.Prelude.{
  ℕ, suc, ◌+◌, ◌^◌, ◌≤◌, ◌<◌, String, Bool, true, false, ◌≡◌, ◌≢◌, Option, none, some, List, [],
  ◌∷◌, is_some,
}
use ovca_core.Collections.Order.{string_ord, ◌=?◌}
use ovca_core.Collections.BTreeMap.{BTreeMap, get, contains_key}
use ovca_core.Collections.BTreeMap.Sorted.{IsSorted}
use ovca_core.Collections.BTreeMap.Entries.{ForAll}
use ovca_core.Collections.BTreeSet.{contains, collect}
use ovca_core.Goal.Ids.{DateTime, RunId, TaskId, goal_runtime_contract_version}
use ovca_core.Goal.Task.{Task, TaskLease, TaskStatus, TaskTerminalOutcome, TaskTerminalRecord}
use ovca_core.Lifecycle.State.{ExecutionLifecycleKernel, TaskExecutionSnapshot, WriteKeyOwner}

-- The outcome that a task in the given status has on record.
abbrev pub recorded_outcome : TaskStatus → Option TaskTerminalOutcome
recorded_outcome TaskStatus.completed = some TaskTerminalOutcome.completed
recorded_outcome TaskStatus.cancelled = some TaskTerminalOutcome.cancelled
recorded_outcome _ = none

abbrev pub outcome_of : Option TaskTerminalRecord → Option TaskTerminalOutcome
outcome_of none = none
outcome_of (some r) = some r.outcome

-- The attempts of a task agree with its status.
abbrev pub AttemptsFit : TaskStatus → ℕ → ℕ → Type 0
AttemptsFit TaskStatus.pending n limit = n ≡ 0
AttemptsFit TaskStatus.ready n limit = n < limit
AttemptsFit TaskStatus.running n limit = (1 ≤ n) × (n ≤ limit)
AttemptsFit TaskStatus.completed n limit = (1 ≤ n) × (n ≤ limit)
AttemptsFit TaskStatus.cancelled n limit = (1 ≤ n) × (n ≤ limit)
AttemptsFit TaskStatus.failed n limit = n ≡ limit
AttemptsFit TaskStatus.awaiting_approval n limit = ⊥
AttemptsFit TaskStatus.reviewing n limit = ⊥

abbrev pub is_running : TaskStatus → Bool
is_running TaskStatus.running = true
is_running _ = false

pub record IsTaskValid (limit : ℕ) (id : TaskId) (s : TaskExecutionSnapshot) : Type 0 where
  pub attempts_fit : AttemptsFit s.status s.attempts limit
  pub leased_when_running : is_some s.current_lease ≡ is_running s.status
  pub recorded_when_ended : outcome_of s.terminal_record ≡ recorded_outcome s.status

-- The current lease of a task is the one that its latest claim made, up to heartbeats.
pub record IsLeaseValid (run_id : RunId) (limit : ℕ) (clock : DateTime) (id : TaskId) (task : Task)
    (attempts : ℕ) (l : TaskLease) : Type 0 where
  pub lease_version : l.contract_version ≡ goal_runtime_contract_version
  pub lease_run : l.run_id ≡ run_id
  pub lease_task : l.task_id ≡ id
  pub lease_role : l.worker_role ≡ task.assigned_role
  pub lease_keys : l.write_keys ≡ collect task.write_keys
  pub lease_attempt : l.attempt ≡ attempts
  pub lease_limit : l.max_attempts ≡ limit
  pub heartbeat_after_claim : l.claimed_at ≤ l.heartbeat_at
  pub heartbeat_before_expiry : l.heartbeat_at < l.expires_at
  pub heartbeat_past : l.heartbeat_at ≤ clock

abbrev pub AllKnown : BTreeMap TaskId Task → List TaskId → Type 0
AllKnown tasks ds = (d : TaskId) → contains d (collect ds) ≡ true → contains_key d tasks ≡ true

-- The owner that a lease puts at each of its keys.
abbrev pub owner_of : TaskId → TaskLease → WriteKeyOwner
owner_of id l = record {
  task_id = id;
  worker_id = l.worker_id;
  lease_id = l.lease_id;
  expires_at = l.expires_at;
}

-- A task of the state holds this lease.
abbrev pub Holds : BTreeMap TaskId TaskExecutionSnapshot → TaskId → TaskLease → Type 0
Holds state id l =
    (s : TaskExecutionSnapshot) × (get id state ≡ some s) × (s.current_lease ≡ some l)

abbrev pub HasValidLease :
    RunId → ℕ → DateTime → BTreeMap TaskId Task → TaskId → TaskExecutionSnapshot → Type 0
HasValidLease run_id limit clock tasks id s =
    (t : Task) (l : TaskLease)
    → get id tasks ≡ some t
    → s.current_lease ≡ some l
    → IsLeaseValid run_id limit clock id t s.attempts l

-- `clock` is the latest instant that a command has come with.
pub record IsValid (k : ExecutionLifecycleKernel) (clock : DateTime) : Type 0 where
  pub limit_positive : 0 < k.retry_budget.max_attempts
  pub limit_bounded : k.retry_budget.max_attempts + 1 < 2 ^ 32
  pub same_tasks : (id : TaskId) → contains_key id k.state ≡ contains_key id k.tasks
  pub dependencies_known : ForAll (λ id t. AllKnown k.tasks t.dependencies) k.tasks
  pub tasks_valid : ForAll (IsTaskValid k.retry_budget.max_attempts) k.state
  pub leases_valid :
      ForAll (HasValidLease k.run_id k.retry_budget.max_attempts clock k.tasks) k.state
  pub owners_sorted : IsSorted k.write_key_owners
  -- An owner stands for the current lease of its task, which has the key.
  pub owners_held :
      (key : String) (o : WriteKeyOwner)
      → get key k.write_key_owners ≡ some o
      → (l : TaskLease) × Holds k.state o.task_id l
        × (contains key l.write_keys ≡ true)
        × (o ≡ owner_of o.task_id l)
  -- A lease that has not expired owns all its keys.
  pub leases_own :
      (id : TaskId) (l : TaskLease)
      → Holds k.state id l
      → clock < l.expires_at
      → (key : String) → contains key l.write_keys ≡ true
      → get key k.write_key_owners ≡ some (owner_of id l)
