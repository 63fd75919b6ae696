-- ===== src/Replay.antt =====
-- rust/ovca-runtime-core/src/replay.rs: its errors and its result. The children have the validation
-- of the event chain and the replay.
pub mod Chain
pub mod Plan
pub mod Steps
pub mod Run
pub mod Links
pub mod History
pub mod Records
pub mod Transition
pub mod Reflects
pub mod Started
pub mod Completed
mod Examples
use ovca_core.Prelude.{ℕ, String, List, Option, Result, ok, err, reject_if, not, ◌==◌}
use ovca_core.Collections.BTreeMap.{BTreeMap}
use ovca_core.Goal.Ids.{
  AuditDecisionId, ContractVersion, EventId, EvidenceId, GoalId, ProjectId, ReviewDecisionId, Role,
  RunId, TaskId, goal_runtime_contract_version,
}
use ovca_core.Goal.Policy.{ReviewAuditRequirements, RunGuardProjection}
use ovca_core.Goal.Task.{TaskStatus}
use ovca_core.Goal.Evidence.{
  AuditDecision, CompletionEvidence, EvidenceRef, ReviewAuditResolution, ReviewDecision,
}
use ovca_core.Goal.Run.{
  CoordinatorFinalResponse, ExecutionPlan, RunRecord, RunStatus, SpecialistOutput,
}
use ovca_core.Goal.Transition.{RunTransitionError}
use ovca_core.ReviewAudit.{ReviewAuditError}

pub data ReplayError : Type 0 where
  empty_stream : ReplayError
  contract_version_mismatch : (sequence : ℕ) (expected found : ContractVersion) → ReplayError
  first_event_not_run_created : EventId → ReplayError
  duplicate_run_created : (sequence : ℕ) → EventId → ReplayError
  run_id_mismatch : (sequence : ℕ) (expected found : RunId) → ReplayError
  sequence_mismatch : EventId → (expected found : ℕ) → ReplayError
  initial_previous_event_id_present : EventId → (found : EventId) → ReplayError
  previous_event_id_mismatch :
      (sequence : ℕ) → EventId → (expected : EventId) (found : Option EventId) → ReplayError
  duplicate_event_id : EventId → (first_sequence duplicate_sequence : ℕ) → ReplayError
  initial_run_status_mismatch : EventId → (expected found : RunStatus) → ReplayError
  goal_contract_id_mismatch : (expected found : GoalId) → ReplayError
  goal_contract_project_id_mismatch : (expected found : ProjectId) → ReplayError
  nested_contract_version_mismatch :
      (sequence : ℕ) (contract : String) (expected found : ContractVersion) → ReplayError
  duplicate_declared_task : (sequence : ℕ) → TaskId → ReplayError
  duplicate_execution_plan : (sequence : ℕ) → ReplayError
  execution_plan_wave_index_mismatch : (sequence expected found : ℕ) → ReplayError
  execution_plan_unknown_task : (sequence : ℕ) → TaskId → ReplayError
  execution_plan_duplicate_task : (sequence : ℕ) → TaskId → ReplayError
  execution_plan_missing_task : (sequence : ℕ) → TaskId → ReplayError
  run_status_from_mismatch : (sequence : ℕ) (expected found : RunStatus) → ReplayError
  run_transition_rejected : (sequence : ℕ) → RunTransitionError → ReplayError
  review_audit_evaluation_failed : (sequence : ℕ) → ReviewAuditError → ReplayError
  review_audit_resolution_rejected : (sequence : ℕ) → ReviewAuditResolution → ReplayError
  unknown_task : (sequence : ℕ) → TaskId → ReplayError
  task_status_from_mismatch : (sequence : ℕ) → TaskId → (expected found : TaskStatus) → ReplayError
  duplicate_completion_evidence : (sequence : ℕ) → ReplayError
  completion_evidence_not_attached : (sequence : ℕ) → EvidenceId → ReplayError
  invalid_specialist_role : (sequence : ℕ) → Role → ReplayError
  specialist_output_role_mismatch :
      (sequence : ℕ) (producer_role specialist_role : Role) → ReplayError
  unauthorized_coordinator_final_response : (sequence : ℕ) (producer_role : Role) → ReplayError
  duplicate_coordinator_final_response : (sequence : ℕ) → ReplayError
  duplicate_evidence_reference : (sequence : ℕ) → EvidenceId → ReplayError
  duplicate_review_audit_requirements : (sequence : ℕ) → ReplayError
  decision_run_id_mismatch :
      (sequence : ℕ) (contract : String) (expected found : RunId) → ReplayError
  decision_goal_id_mismatch :
      (sequence : ℕ) (contract : String) (expected found : GoalId) → ReplayError
  decision_producer_role_mismatch :
      (sequence : ℕ) (contract : String) (expected event_role decision_role : Role) → ReplayError
  duplicate_review_decision : (sequence : ℕ) → ReviewDecisionId → ReplayError
  duplicate_audit_decision : (sequence : ℕ) → AuditDecisionId → ReplayError
  audit_review_decision_not_recorded : (sequence : ℕ) → ReviewDecisionId → ReplayError

abbrev pub Replayed {ℓ} : Type ℓ → Type ℓ
Replayed A = Result ReplayError A

pub record ReplayedRun : Type 0 where
  pub run_record : RunRecord
  pub execution_plan : Option ExecutionPlan
  pub task_statuses : BTreeMap TaskId TaskStatus
  pub evidence_references : List EvidenceRef
  pub guard_outcomes : List RunGuardProjection
  pub review_audit_requirements : Option ReviewAuditRequirements
  pub review_decisions : List ReviewDecision
  pub audit_decisions : List AuditDecision
  pub completion_evidence : Option CompletionEvidence
  pub specialist_outputs : List SpecialistOutput
  pub coordinator_final_response : Option CoordinatorFinalResponse

abbrev pub validate_nested_contract_version :
    (sequence : ℕ) → String → ContractVersion → Replayed (Unit {0})
validate_nested_contract_version sequence contract found =
    reject_if (not (found == goal_runtime_contract_version)) (
      ReplayError.nested_contract_version_mismatch sequence contract goal_runtime_contract_version
        found)
