-- ===== src/Goal/Task.antt =====
-- Goals, tasks, leases and terminal records (rust/ovca-types/src/goal_runtime.rs).
use ovca_core.Prelude.{ℕ, String, Bool, ◌≡◌, List, Option, arith}
use ovca_core.Collections.Order.{Ord, derived_ord}
use ovca_core.Collections.BTreeSet.{BTreeSet}
use ovca_core.Goal.Ids.{
  ContractVersion, DateTime, ProjectId, GoalId, TaskId, RunId, WorkerId, LeaseId, IdempotencyKey,
  Role,
}
use ovca_core.Goal.Policy.{PermissionProfile}

pub record CompletionPrecondition : Type 0 where
  pub contract_version : ContractVersion
  pub minimum_evidence_refs : ℕ  -- u32
  pub require_all_acceptance_criteria : Bool
  pub require_all_verification_criteria : Bool

pub record GoalContract : Type 0 where
  pub contract_version : ContractVersion
  pub id : GoalId
  pub project_id : ProjectId
  pub objective : String
  pub constraints : List String
  pub acceptance_criteria : List String
  pub verification_criteria : List String
  pub permission_profile : PermissionProfile
  pub definition_of_done : List String
  pub completion_precondition : CompletionPrecondition
  pub created_at : DateTime
  pub updated_at : DateTime

pub data TaskStatus : Type 0 where
  pending ready running awaiting_approval reviewing completed failed cancelled : TaskStatus

abbrev pub task_status_position : TaskStatus → ℕ
task_status_position TaskStatus.pending = 0
task_status_position TaskStatus.ready = 1
task_status_position TaskStatus.running = 2
task_status_position TaskStatus.awaiting_approval = 3
task_status_position TaskStatus.reviewing = 4
task_status_position TaskStatus.completed = 5
task_status_position TaskStatus.failed = 6
task_status_position TaskStatus.cancelled = 7

pub task_status_position-injective :
    (a b : TaskStatus) → task_status_position a ≡ task_status_position b → a ≡ b
task_status_position-injective a b h = ground arith

instance abbrev pub task_status_ord : Ord TaskStatus
task_status_ord = derived_ord task_status_position task_status_position-injective

pub record Task : Type 0 where
  pub contract_version : ContractVersion
  pub id : TaskId
  pub goal_id : GoalId
  pub outcome : String
  pub dependencies : List TaskId
  pub assigned_role : Role
  pub resource_keys : List String
  pub write_keys : List String
  pub status : TaskStatus
  pub created_at : DateTime
  pub updated_at : DateTime

pub record RetryBudget : Type 0 where
  pub contract_version : ContractVersion
  pub max_attempts : ℕ  -- u32

pub record TaskLease : Type 0 where
  pub contract_version : ContractVersion
  pub run_id : RunId
  pub task_id : TaskId
  pub worker_id : WorkerId
  pub worker_role : Role
  pub lease_id : LeaseId
  pub write_keys : BTreeSet String
  pub attempt : ℕ  -- u32
  pub max_attempts : ℕ  -- u32
  pub claimed_at : DateTime
  pub heartbeat_at : DateTime
  pub expires_at : DateTime

pub data TaskTerminalOutcome : Type 0 where
  completed cancelled : TaskTerminalOutcome

abbrev pub same_outcome : TaskTerminalOutcome → TaskTerminalOutcome → Bool
same_outcome TaskTerminalOutcome.completed TaskTerminalOutcome.completed = Bool.true
same_outcome TaskTerminalOutcome.cancelled TaskTerminalOutcome.cancelled = Bool.true
same_outcome _ _ = Bool.false

pub record TaskTerminalRecord : Type 0 where
  pub contract_version : ContractVersion
  pub run_id : RunId
  pub task_id : TaskId
  pub worker_id : WorkerId
  pub lease_id : LeaseId
  pub idempotency_key : IdempotencyKey
  pub outcome : TaskTerminalOutcome
  pub occurred_at : DateTime
  pub reason : Option String
