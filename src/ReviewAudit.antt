-- ===== src/ReviewAudit.antt =====
-- rust/ovca-runtime-core/src/review_audit.rs: the contexts, the errors and the tests of single
-- fields. The children have the evidence, the assessments and the decisions.
pub mod Evidence
pub mod Assessments
pub mod Decisions
pub mod Coverage
pub mod Verdict
pub mod Gate
pub mod Examples
use Prim.Native.String.{◌++◌}
use ovca_core.Prelude.{
  ℕ, ◌+◌, String, Bool, Option, none, some, List, [], ◌∷◌, Result, ok, err, ◌>>◌, reject_if,
  is_blank, decimal, ◌==◌, not,
}
use ovca_core.Collections.BTreeSet.{BTreeSet}
use ovca_core.Goal.Ids.{
  AuditDecisionId, ContractVersion, DateTime, EvidenceId, GoalId, ReviewDecisionId, Role, RunId,
  goal_runtime_contract_version,
}
use ovca_core.Goal.Policy.{GuardRequirement}
use ovca_core.Goal.Task.{GoalContract}
use ovca_core.Goal.Evidence.{
  AuditDecision, CompletionEvidence, CriterionKind, EvidenceRef, ReviewDecision, ReviewVerdict,
}

pub record ReviewDecisionValidationContext : Type 0 where
  pub expected_run_id : RunId
  pub goal_contract : GoalContract
  pub completion_evidence : CompletionEvidence
  pub evidence_catalog : List EvidenceRef

pub record ValidatedReviewDecision : Type 0 where
  pub decision : ReviewDecision

pub record ValidatedAuditDecision : Type 0 where
  pub decision : AuditDecision

pub record AuditDecisionValidationContext : Type 0 where
  pub expected_run_id : RunId
  pub goal_contract : GoalContract
  pub completion_evidence : CompletionEvidence
  pub evidence_catalog : List EvidenceRef
  pub validated_review_decision : ValidatedReviewDecision

pub record ReviewAuditEvaluationContext : Type 0 where
  pub expected_run_id : RunId
  pub goal_contract : GoalContract
  pub completion_evidence : CompletionEvidence
  pub evidence_catalog : List EvidenceRef
  pub guard_requirements : BTreeSet GuardRequirement

pub record ReviewAuditPolicy : Type 0 where
  pub reviewer_required : Bool
  pub auditor_required : Bool

pub data ReviewAuditError : Type 0 where
  audit_without_review : ReviewAuditError
  unsupported_contract_version :
      (contract : String) (expected actual : ContractVersion) → ReviewAuditError
  blank_field : (field : String) → ReviewAuditError
  duplicate_goal_criterion : CriterionKind → (criterion : String) → ReviewAuditError
  unknown_satisfied_criterion : CriterionKind → (criterion : String) → ReviewAuditError
  duplicate_satisfied_criterion : CriterionKind → (criterion : String) → ReviewAuditError
  reordered_satisfied_criterion : CriterionKind → (criterion : String) → ReviewAuditError
  duplicate_completion_evidence_id : EvidenceId → ReviewAuditError
  unsorted_completion_evidence_ids : (index : ℕ) (previous actual : EvidenceId) → ReviewAuditError
  duplicate_catalog_evidence_id : EvidenceId → ReviewAuditError
  unsorted_catalog_evidence_ids : (index : ℕ) (previous actual : EvidenceId) → ReviewAuditError
  completion_evidence_not_in_catalog : EvidenceId → ReviewAuditError
  insufficient_completion_evidence : (required actual : ℕ) → ReviewAuditError
  producer_role_mismatch : (expected actual : Role) → ReviewAuditError
  run_id_mismatch : (expected actual : RunId) → ReviewAuditError
  goal_id_mismatch : (expected actual : GoalId) → ReviewAuditError
  review_decision_id_mismatch : (expected actual : ReviewDecisionId) → ReviewAuditError
  audit_decision_before_review : (review_decided_at audit_decided_at : DateTime) → ReviewAuditError
  duplicate_criterion_assessment : CriterionKind → (criterion : String) → ReviewAuditError
  unknown_criterion_assessment : CriterionKind → (criterion : String) → ReviewAuditError
  missing_criterion_assessment : CriterionKind → (criterion : String) → ReviewAuditError
  reordered_criterion_assessment :
      (index : ℕ)
      → (expected_kind : CriterionKind) (expected_criterion : String)
      → (actual_kind : CriterionKind) (actual_criterion : String) → ReviewAuditError
  unsorted_assessment_evidence_ids : (assessment_index : ℕ) → ReviewAuditError
  duplicate_assessment_evidence_id : (assessment_index : ℕ) → EvidenceId → ReviewAuditError
  assessment_evidence_not_in_completion : (assessment_index : ℕ) → EvidenceId → ReviewAuditError
  assessment_evidence_not_in_catalog : (assessment_index : ℕ) → EvidenceId → ReviewAuditError
  satisfied_assessment_without_evidence : (assessment_index : ℕ) → ReviewAuditError
  completion_satisfied_criteria_mismatch :
      CriterionKind → (expected actual : List String) → ReviewAuditError
  verdict_mismatch : (expected actual : ReviewVerdict) → ReviewAuditError

abbrev pub Validated {ℓ} : Type ℓ → Type ℓ
Validated A = Result ReviewAuditError A

abbrev pub validate_version : String → ContractVersion → Validated (Unit {0})
validate_version contract actual =
    reject_if (not (actual == goal_runtime_contract_version))
      (ReviewAuditError.unsupported_contract_version contract goal_runtime_contract_version actual)

abbrev pub validate_nonblank : String → String → Validated (Unit {0})
validate_nonblank field value = reject_if (is_blank value) (ReviewAuditError.blank_field field)

-- `format!("{field}[{index}]")`
abbrev pub at_index : String → ℕ → String
at_index field index = field ++ "[" ++ decimal index ++ "]"

-- The loop of `validate_nonblank_values`, from an index on.
unfoldable pub nonblank_values_from : String → ℕ → List String → Validated (Unit {0})
nonblank_values_from field index [] = ok tt
nonblank_values_from field index (value ∷ values) =
    validate_nonblank (at_index field index) value >> nonblank_values_from field (index + 1) values

abbrev pub validate_nonblank_values : String → List String → Validated (Unit {0})
validate_nonblank_values field values = nonblank_values_from field 0 values

unfoldable pub declared_criteria : GoalContract → CriterionKind → List String
declared_criteria goal CriterionKind.acceptance = goal.acceptance_criteria
declared_criteria goal CriterionKind.verification = goal.verification_criteria
declared_criteria goal CriterionKind.definition_of_done = goal.definition_of_done

unfoldable pub completion_satisfied_criteria : CompletionEvidence → CriterionKind → List String
completion_satisfied_criteria completion CriterionKind.acceptance =
    completion.satisfied_acceptance_criteria
completion_satisfied_criteria completion CriterionKind.verification =
    completion.satisfied_verification_criteria
completion_satisfied_criteria completion CriterionKind.definition_of_done =
    completion.satisfied_definition_of_done

abbrev pub criterion_kinds : List CriterionKind
criterion_kinds =
    CriterionKind.acceptance ∷ CriterionKind.verification ∷ CriterionKind.definition_of_done ∷ []

pub criterion_kind_name : CriterionKind → String
criterion_kind_name CriterionKind.acceptance = "acceptance_criteria"
criterion_kind_name CriterionKind.verification = "verification_criteria"
criterion_kind_name CriterionKind.definition_of_done = "definition_of_done"
