-- ===== src/Replay/Steps.antt =====
-- The `match` of `replay_run` on the payload of an event.
use ovca_core.Prelude.{
  ℕ, ◌+◌, ◌%◌, ◌^◌, String, Bool, true, false, Option, none, some, List, [], ◌∷◌, ◌++◌, ok, err,
  ◌>>=◌, ◌>>◌, reject_if, ok_or, map_err, not, ◌&&◌, ◌||◌, if◌then◌else◌, is_some, is_empty, ltb,
}
use ovca_core.Collections.Order.{◌=?◌, string_ord}
use ovca_core.Collections.BTreeMap.{get, modify}
use ovca_core.Collections.BTreeSet.{BTreeSet, contains, insert}
use ovca_core.Goal.Ids.{
  AuditDecisionId, DateTime, EvidenceId, GoalId, ReviewDecisionId, Role, role_ord, RunId, TaskId,
}
use ovca_core.Goal.Policy.{GuardRequirement, ReviewAuditRequirements, RunGuardProjection}
use ovca_core.Goal.Task.{GoalContract, TaskStatus, task_status_ord}
use ovca_core.Goal.Evidence.{
  AuditDecision, CompletionEvidence, CriterionAssessment, EvidenceRef, IntegrityMetadata,
  ReviewAuditResolution, ReviewDecision,
}
use ovca_core.Goal.Run.{
  CoordinatorFinalResponse, ExecutionPlan, RunEvent, RunEventPayload, RunRecord, RunStatus,
  run_status_ord, is_terminal, SpecialistOutput,
}
use ovca_core.Goal.Transition.{
  Check, RunTransitionError, validate_run_transition,
  validate_run_transition_with_guard_requirements,
}
use ovca_core.ReviewAudit.{ReviewAuditEvaluationContext}
use ovca_core.ReviewAudit.Decisions.{evaluate_review_audit}
use ovca_core.Replay.{ReplayError, Replayed, ReplayedRun, validate_nested_contract_version}
use ovca_core.Replay.Plan.{validate_execution_plan}

-- The variables of the loop: those that the result is made of and the sets of identifiers.
pub record ReplayState : Type 0 where
  pub replayed : ReplayedRun
  pub evidence_ids : BTreeSet EvidenceId
  pub review_decision_ids : BTreeSet ReviewDecisionId
  pub audit_decision_ids : BTreeSet AuditDecisionId

unfoldable pub record_plan :
    ℕ → BTreeSet TaskId → ExecutionPlan → ReplayState → Replayed ReplayState
record_plan sequence declared_tasks plan s = do
  validate_nested_contract_version sequence "execution_plan" plan.contract_version
  reject_if (is_some s.replayed.execution_plan) (ReplayError.duplicate_execution_plan sequence)
  validate_execution_plan sequence plan declared_tasks
  ok (record s { replayed = record (s.replayed) { execution_plan = some plan } })

abbrev pub requirements_of : Option ReviewAuditRequirements → BTreeSet GuardRequirement
requirements_of none = []
requirements_of (some requirements) = requirements.guard_requirements

unfoldable pub reject_unattached : ℕ → BTreeSet EvidenceId → List EvidenceId → Replayed (Unit {0})
reject_unattached sequence evidence_ids [] = ok tt
reject_unattached sequence evidence_ids (evidence_id ∷ rest) = do
  reject_if (not (contains evidence_id evidence_ids))
      (ReplayError.completion_evidence_not_attached sequence evidence_id)
  reject_unattached sequence evidence_ids rest

abbrev pub first {ℓ} : {A : Type ℓ} → List A → Option A
first [] = none
first (a ∷ as') = some a

abbrev pub require_pass : ℕ → ReviewAuditResolution → Replayed (Unit {0})
require_pass sequence (ReviewAuditResolution.pass review_id audit_id) = ok tt
require_pass sequence resolution =
    err (ReplayError.review_audit_resolution_rejected sequence resolution)

abbrev pub evaluation_context :
    RunId → GoalContract → CompletionEvidence → ReplayedRun → ReviewAuditEvaluationContext
evaluation_context run_id goal evidence run = record {
  expected_run_id = run_id;
  goal_contract = goal;
  completion_evidence = evidence;
  evidence_catalog = run.evidence_references;
  guard_requirements = requirements_of run.review_audit_requirements;
}

-- The tests of a transition to `completed` after that of the transition itself.
unfoldable pub check_completed : ℕ → Option GoalContract → ReplayState → Replayed (Unit {0})
check_completed sequence goal_contract s = do
  let run = s.replayed
  goal ←
      ok_or goal_contract (
        ReplayError.run_transition_rejected sequence RunTransitionError.completion_contract_missing)
  evidence ←
      ok_or run.completion_evidence (
        ReplayError.run_transition_rejected sequence RunTransitionError.completion_evidence_missing)
  reject_unattached sequence s.evidence_ids evidence.evidence_refs
  resolution ← map_err (ReplayError.review_audit_evaluation_failed sequence) (
      evaluate_review_audit (evaluation_context run.run_record.id goal evidence run)
        (first run.review_decisions) (first run.audit_decisions))
  require_pass sequence resolution

-- The run record after a transition.
unfoldable pub moved_record : RunStatus → DateTime → RunRecord → RunRecord
moved_record to occurred_at run = record run {
  status = to;
  started_at =
      if to =? RunStatus.running && not (is_some run.started_at)
      then some occurred_at
      else run.started_at;
  finished_at =
      if is_terminal to && not (is_some run.finished_at) then some occurred_at else run.finished_at;
}

abbrev pub validate_transition : RunStatus → RunStatus → Option GoalContract → ReplayedRun → Check
validate_transition from to goal run =
    if to =? RunStatus.completed
    then validate_run_transition_with_guard_requirements from to goal run.completion_evidence
        (requirements_of run.review_audit_requirements)
    else validate_run_transition from to goal run.completion_evidence

unfoldable pub transition_status :
    ℕ → DateTime → Option GoalContract → RunStatus → RunStatus → ReplayState → Replayed ReplayState
transition_status sequence occurred_at goal from to s = do
  let run = s.replayed
  reject_if (not (from =? run.run_record.status))
      (ReplayError.run_status_from_mismatch sequence run.run_record.status from)
  map_err (ReplayError.run_transition_rejected sequence) (validate_transition from to goal run)
  if to =? RunStatus.completed then check_completed sequence goal s else ok tt
  ok (record s {
    replayed = record run { run_record = moved_record to occurred_at run.run_record };
  })

unfoldable pub change_task_status :
    ℕ → TaskId → TaskStatus → TaskStatus → ReplayState → Replayed ReplayState
change_task_status sequence task_id from to s = do
  let run = s.replayed
  current ← ok_or (get task_id run.task_statuses) (ReplayError.unknown_task sequence task_id)
  reject_if (not (from =? current))
      (ReplayError.task_status_from_mismatch sequence task_id current from)
  ok (record s {
    replayed = record run { task_statuses = modify task_id (λ _. to) run.task_statuses };
  })

-- An identifier that is attached again changes nothing.
unfoldable pub attach_evidence : EvidenceId → ReplayState → ReplayState
attach_evidence evidence_id s = if contains evidence_id s.evidence_ids then s else record s {
  evidence_ids = insert evidence_id s.evidence_ids;
  replayed = record (s.replayed) {
    run_record = record (s.replayed.run_record) {
      evidence_refs = s.replayed.run_record.evidence_refs ++ evidence_id ∷ [];
    };
  };
}

abbrev pub check_integrity : ℕ → Option IntegrityMetadata → Replayed (Unit {0})
check_integrity sequence none = ok tt
check_integrity sequence (some integrity) =
    validate_nested_contract_version sequence "evidence_integrity" integrity.contract_version

unfoldable pub record_evidence : ℕ → EvidenceRef → ReplayState → Replayed ReplayState
record_evidence sequence evidence s = do
  validate_nested_contract_version sequence "evidence_reference" evidence.contract_version
  check_integrity sequence evidence.integrity
  reject_if (contains evidence.id s.evidence_ids)
      (ReplayError.duplicate_evidence_reference sequence evidence.id)
  ok (record s {
    evidence_ids = insert evidence.id s.evidence_ids;
    replayed = record (s.replayed) {
      run_record = record (s.replayed.run_record) {
        evidence_refs = s.replayed.run_record.evidence_refs ++ evidence.id ∷ [];
      };
      evidence_references = s.replayed.evidence_references ++ evidence ∷ [];
    };
  })

unfoldable pub record_guard_outcome : ℕ → RunGuardProjection → ReplayState → Replayed ReplayState
record_guard_outcome sequence projection s = do
  validate_nested_contract_version sequence "run_guard_projection" projection.contract_version
  ok (record s {
    replayed = record (s.replayed) {
      guard_outcomes = s.replayed.guard_outcomes ++ projection ∷ [];
    };
  })

unfoldable pub record_requirements :
    ℕ → ReviewAuditRequirements → ReplayState → Replayed ReplayState
record_requirements sequence requirements s = do
  validate_nested_contract_version sequence "review_audit_requirements"
      requirements.contract_version
  reject_if (is_some s.replayed.review_audit_requirements)
      (ReplayError.duplicate_review_audit_requirements sequence)
  ok (record s { replayed = record (s.replayed) { review_audit_requirements = some requirements } })

unfoldable pub check_assessments : ℕ → String → List CriterionAssessment → Replayed (Unit {0})
check_assessments sequence contract [] = ok tt
check_assessments sequence contract (assessment ∷ rest) =
    validate_nested_contract_version sequence contract assessment.contract_version
    >> check_assessments sequence contract rest

unfoldable pub validate_decision_binding :
    ℕ → String → RunRecord → RunId → GoalId → Replayed (Unit {0})
validate_decision_binding sequence contract run_record run_id goal_id = do
  reject_if (not (run_id =? run_record.id))
      (ReplayError.decision_run_id_mismatch sequence contract run_record.id run_id)
  reject_if (not (goal_id =? run_record.goal_id))
      (ReplayError.decision_goal_id_mismatch sequence contract run_record.goal_id goal_id)

unfoldable pub validate_decision_role :
    ℕ → String → (expected event_role decision_role : Role) → Replayed (Unit {0})
validate_decision_role sequence contract expected event_role decision_role =
    reject_if (not (event_role =? expected) || not (decision_role =? expected)) (
      ReplayError.decision_producer_role_mismatch sequence contract expected event_role
        decision_role)

unfoldable pub record_review : ℕ → Role → ReviewDecision → ReplayState → Replayed ReplayState
record_review sequence producer_role decision s = do
  let run = s.replayed
  validate_nested_contract_version sequence "review_decision" decision.contract_version
  check_assessments sequence "review_criterion_assessment" decision.assessments
  validate_decision_binding sequence "review_decision" run.run_record decision.run_id
      decision.goal_id
  validate_decision_role sequence "review_decision" Role.reviewer producer_role
      decision.producer_role
  reject_if (not (is_empty run.review_decisions) || contains decision.id s.review_decision_ids)
      (ReplayError.duplicate_review_decision sequence decision.id)
  ok (record s {
    review_decision_ids = insert decision.id s.review_decision_ids;
    replayed = record run { review_decisions = run.review_decisions ++ decision ∷ [] };
  })

unfoldable pub record_audit : ℕ → Role → AuditDecision → ReplayState → Replayed ReplayState
record_audit sequence producer_role decision s = do
  let run = s.replayed
  validate_nested_contract_version sequence "audit_decision" decision.contract_version
  check_assessments sequence "audit_criterion_assessment" decision.assessments
  validate_decision_binding sequence "audit_decision" run.run_record decision.run_id
      decision.goal_id
  validate_decision_role sequence "audit_decision" Role.auditor producer_role decision.producer_role
  reject_if (not (is_empty run.audit_decisions) || contains decision.id s.audit_decision_ids)
      (ReplayError.duplicate_audit_decision sequence decision.id)
  reject_if (not (contains decision.review_decision_id s.review_decision_ids))
      (ReplayError.audit_review_decision_not_recorded sequence decision.review_decision_id)
  ok (record s {
    audit_decision_ids = insert decision.id s.audit_decision_ids;
    replayed = record run { audit_decisions = run.audit_decisions ++ decision ∷ [] };
  })

unfoldable pub record_completion : ℕ → CompletionEvidence → ReplayState → Replayed ReplayState
record_completion sequence evidence s = do
  validate_nested_contract_version sequence "completion_evidence" evidence.contract_version
  reject_if (is_some s.replayed.completion_evidence)
      (ReplayError.duplicate_completion_evidence sequence)
  ok (record s { replayed = record (s.replayed) { completion_evidence = some evidence } })

-- `matches!(role, Role::Engineer | Role::Reviewer | Role::Auditor)`
pub is_specialist : Role → Bool
is_specialist Role.engineer = true
is_specialist Role.reviewer = true
is_specialist Role.auditor = true
is_specialist _ = false

unfoldable pub record_output :
    ℕ → Role → BTreeSet TaskId → SpecialistOutput → ReplayState → Replayed ReplayState
record_output sequence producer_role declared_tasks output s = do
  validate_nested_contract_version sequence "specialist_output" output.contract_version
  reject_if (not (contains output.task_id declared_tasks))
      (ReplayError.unknown_task sequence output.task_id)
  reject_if (not (is_specialist output.specialist_role))
      (ReplayError.invalid_specialist_role sequence output.specialist_role)
  reject_if (not (producer_role =? output.specialist_role))
      (ReplayError.specialist_output_role_mismatch sequence producer_role output.specialist_role)
  ok (record s {
    replayed = record (s.replayed) {
      specialist_outputs = s.replayed.specialist_outputs ++ output ∷ [];
    };
  })

unfoldable pub record_response :
    ℕ → Role → CoordinatorFinalResponse → ReplayState → Replayed ReplayState
record_response sequence producer_role response s = do
  validate_nested_contract_version sequence "coordinator_final_response" response.contract_version
  reject_if (not (producer_role =? Role.coordinator))
      (ReplayError.unauthorized_coordinator_final_response sequence producer_role)
  reject_if (is_some s.replayed.coordinator_final_response)
      (ReplayError.duplicate_coordinator_final_response sequence)
  ok (record s { replayed = record (s.replayed) { coordinator_final_response = some response } })

-- What the loop does after the `match`; the count is a u64.
unfoldable pub counted : {Value : Type 0} → RunEvent Value → ReplayState → ReplayState
counted event s = record s {
  replayed = record (s.replayed) {
    run_record = record (s.replayed.run_record) {
      event_count = (s.replayed.run_record.event_count + 1) % 2 ^ 64;
      last_event_sequence = some event.sequence;
      last_event_id = some event.id;
      updated_at =
          if ltb 0 event.sequence then event.occurred_at else s.replayed.run_record.updated_at;
    };
  };
}

module _ {Value : Type 0} (goal : Option GoalContract) (declared_tasks : BTreeSet TaskId) where
  unfoldable pub apply_payload :
      RunEvent Value → RunEventPayload → ReplayState → Replayed ReplayState
  apply_payload event (RunEventPayload.run_created created) s = ok s
  apply_payload event (RunEventPayload.note_recorded note) s = ok s
  apply_payload event (RunEventPayload.execution_plan_recorded plan) s =
      record_plan event.sequence declared_tasks plan s
  apply_payload event (RunEventPayload.status_transition from to) s =
      transition_status event.sequence event.occurred_at goal from to s
  apply_payload event (RunEventPayload.task_status_changed task_id from to) s =
      change_task_status event.sequence task_id from to s
  apply_payload event (RunEventPayload.evidence_attached evidence_id) s =
      ok (attach_evidence evidence_id s)
  apply_payload event (RunEventPayload.evidence_reference_recorded evidence) s =
      record_evidence event.sequence evidence s
  apply_payload event (RunEventPayload.guard_outcome_recorded projection) s =
      record_guard_outcome event.sequence projection s
  apply_payload event (RunEventPayload.review_audit_requirements_recorded requirements) s =
      record_requirements event.sequence requirements s
  apply_payload event (RunEventPayload.review_decision_recorded decision) s =
      record_review event.sequence event.producer_role decision s
  apply_payload event (RunEventPayload.audit_decision_recorded decision) s =
      record_audit event.sequence event.producer_role decision s
  apply_payload event (RunEventPayload.completion_evidence_recorded evidence) s =
      record_completion event.sequence evidence s
  apply_payload event (RunEventPayload.specialist_output_recorded output) s =
      record_output event.sequence event.producer_role declared_tasks output s
  apply_payload event (RunEventPayload.coordinator_final_response_recorded response) s =
      record_response event.sequence event.producer_role response s

  unfoldable pub apply_events : List (RunEvent Value) → ReplayState → Replayed ReplayState
  apply_events [] s = ok s
  apply_events (event ∷ events) s = do
    next ← apply_payload event event.payload s
    apply_events events (counted event next)
