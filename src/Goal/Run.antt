-- ===== src/Goal/Run.antt =====
-- Runs, plans and run events (rust/ovca-types/src/goal_runtime.rs). `Value` is the JSON value of
-- an event's metadata, a type of serde_json that no modelled operation looks into.
use ovca_core.Prelude.{ℕ, String, Bool, ◌≡◌, true, false, List, Option, arith}
use ovca_core.Collections.Order.{Ord, derived_ord}
use ovca_core.Collections.BTreeMap.{BTreeMap}
use ovca_core.Goal.Ids.{
  ContractVersion, DateTime, EventId, EvidenceId, GoalId, ProjectId, Role, RunId, TaskId,
}
use ovca_core.Goal.Policy.{RunGuardProjection, ReviewAuditRequirements}
use ovca_core.Goal.Task.{TaskStatus}
use ovca_core.Goal.Evidence.{EvidenceRef, ReviewDecision, AuditDecision, CompletionEvidence}

pub data RunStatus : Type 0 where
  draft accepted planned running awaiting_approval reviewing auditing : RunStatus
  completed failed cancelled : RunStatus

abbrev pub run_status_position : RunStatus → ℕ
run_status_position RunStatus.draft = 0
run_status_position RunStatus.accepted = 1
run_status_position RunStatus.planned = 2
run_status_position RunStatus.running = 3
run_status_position RunStatus.awaiting_approval = 4
run_status_position RunStatus.reviewing = 5
run_status_position RunStatus.auditing = 6
run_status_position RunStatus.completed = 7
run_status_position RunStatus.failed = 8
run_status_position RunStatus.cancelled = 9

pub run_status_position-injective :
    (a b : RunStatus) → run_status_position a ≡ run_status_position b → a ≡ b
run_status_position-injective a b h = ground arith

instance abbrev pub run_status_ord : Ord RunStatus
run_status_ord = derived_ord run_status_position run_status_position-injective

-- `RunStatus::is_terminal`
abbrev pub is_terminal : RunStatus → Bool
is_terminal RunStatus.completed = true
is_terminal RunStatus.failed = true
is_terminal RunStatus.cancelled = true
is_terminal _ = false

pub record RunRecord : Type 0 where
  pub contract_version : ContractVersion
  pub id : RunId
  pub project_id : ProjectId
  pub goal_id : GoalId
  pub task_ids : List TaskId
  pub status : RunStatus
  pub event_count : ℕ  -- u64
  pub last_event_sequence : Option ℕ  -- u64
  pub last_event_id : Option EventId
  pub evidence_refs : List EvidenceId
  pub created_at : DateTime
  pub updated_at : DateTime
  pub started_at : Option DateTime
  pub finished_at : Option DateTime

pub data ExecutionMode : Type 0 where
  sequential parallel : ExecutionMode

pub record ExecutionWave : Type 0 where
  pub index : ℕ  -- u32
  pub mode : ExecutionMode
  pub task_ids : List TaskId

pub record ExecutionPlan : Type 0 where
  pub contract_version : ContractVersion
  pub waves : List ExecutionWave

pub record SpecialistOutput : Type 0 where
  pub contract_version : ContractVersion
  pub task_id : TaskId
  pub specialist_role : Role
  pub summary : String
  pub evidence_refs : List EvidenceId

pub record CoordinatorFinalResponse : Type 0 where
  pub contract_version : ContractVersion
  pub response : String
  pub evidence_refs : List EvidenceId

-- The fields of `RunEventPayload::RunCreated`.
pub record RunCreated : Type 0 where
  pub project_id : ProjectId
  pub goal_id : GoalId
  pub task_ids : List TaskId
  pub status : RunStatus
  pub created_at : DateTime
  pub updated_at : DateTime
  pub started_at : Option DateTime
  pub finished_at : Option DateTime

pub data RunEventPayload : Type 0 where
  run_created : RunCreated → RunEventPayload
  execution_plan_recorded : ExecutionPlan → RunEventPayload
  status_transition : (from to : RunStatus) → RunEventPayload
  task_status_changed : (task_id : TaskId) (from to : TaskStatus) → RunEventPayload
  evidence_attached : EvidenceId → RunEventPayload
  evidence_reference_recorded : EvidenceRef → RunEventPayload
  guard_outcome_recorded : RunGuardProjection → RunEventPayload
  review_audit_requirements_recorded : ReviewAuditRequirements → RunEventPayload
  review_decision_recorded : ReviewDecision → RunEventPayload
  audit_decision_recorded : AuditDecision → RunEventPayload
  completion_evidence_recorded : CompletionEvidence → RunEventPayload
  specialist_output_recorded : SpecialistOutput → RunEventPayload
  coordinator_final_response_recorded : CoordinatorFinalResponse → RunEventPayload
  note_recorded : String → RunEventPayload

pub record RunEvent (Value : Type 0) : Type 0 where
  pub contract_version : ContractVersion
  pub id : EventId
  pub run_id : RunId
  pub sequence : ℕ  -- u64
  pub previous_event_id : Option EventId
  pub occurred_at : DateTime
  pub producer_role : Role
  pub payload : RunEventPayload
  pub metadata : BTreeMap String Value
