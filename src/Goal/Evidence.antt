-- ===== src/Goal/Evidence.antt =====
-- Evidence and the Reviewer's and Auditor's decisions (rust/ovca-types/src/goal_runtime.rs).
use ovca_core.Prelude.{ℕ, String, Bool, ◌≡◌, List, Option, arith}
use ovca_core.Collections.Order.{Ord, derived_ord}
use ovca_core.Goal.Ids.{
  ContractVersion, DateTime, EvidenceId, GoalId, ReviewDecisionId, AuditDecisionId, Role, RunId,
}

pub data EvidenceKind : Type 0 where
  artifact document test_result log review audit external_reference other : EvidenceKind

pub record IntegrityMetadata : Type 0 where
  pub contract_version : ContractVersion
  pub algorithm : String
  pub digest : String

pub record EvidenceRef : Type 0 where
  pub contract_version : ContractVersion
  pub id : EvidenceId
  pub kind : EvidenceKind
  pub reference : String
  pub producer_role : Role
  pub integrity : Option IntegrityMetadata
  pub produced_at : DateTime

pub data CriterionKind : Type 0 where
  acceptance verification definition_of_done : CriterionKind

abbrev pub criterion_kind_position : CriterionKind → ℕ
criterion_kind_position CriterionKind.acceptance = 0
criterion_kind_position CriterionKind.verification = 1
criterion_kind_position CriterionKind.definition_of_done = 2

pub criterion_kind_position-injective :
    (a b : CriterionKind) → criterion_kind_position a ≡ criterion_kind_position b → a ≡ b
criterion_kind_position-injective a b h = ground arith

instance abbrev pub criterion_kind_ord : Ord CriterionKind
criterion_kind_ord = derived_ord criterion_kind_position criterion_kind_position-injective

pub data CriterionAssessmentVerdict : Type 0 where
  satisfied unsatisfied : CriterionAssessmentVerdict

pub data ReviewVerdict : Type 0 where
  pass fail : ReviewVerdict

abbrev pub same_verdict : ReviewVerdict → ReviewVerdict → Bool
same_verdict ReviewVerdict.pass ReviewVerdict.pass = Bool.true
same_verdict ReviewVerdict.fail ReviewVerdict.fail = Bool.true
same_verdict _ _ = Bool.false

pub record CriterionAssessment : Type 0 where
  pub contract_version : ContractVersion
  pub kind : CriterionKind
  pub criterion : String
  pub verdict : CriterionAssessmentVerdict
  pub evidence_refs : List EvidenceId
  pub rationale : String

pub record ReviewDecision : Type 0 where
  pub contract_version : ContractVersion
  pub id : ReviewDecisionId
  pub run_id : RunId
  pub goal_id : GoalId
  pub producer_role : Role
  pub verdict : ReviewVerdict
  pub assessments : List CriterionAssessment
  pub summary : String
  pub decided_at : DateTime

pub record AuditDecision : Type 0 where
  pub contract_version : ContractVersion
  pub id : AuditDecisionId
  pub run_id : RunId
  pub goal_id : GoalId
  pub review_decision_id : ReviewDecisionId
  pub producer_role : Role
  pub verdict : ReviewVerdict
  pub assessments : List CriterionAssessment
  pub summary : String
  pub decided_at : DateTime

pub data ReviewAuditResolution : Type 0 where
  pass : Option ReviewDecisionId → Option AuditDecisionId → ReviewAuditResolution
  awaiting_review : ReviewAuditResolution
  awaiting_audit : ReviewDecisionId → ReviewAuditResolution
  fail : ReviewDecisionId → Option AuditDecisionId → ReviewAuditResolution
  owner_escalation :
      ReviewDecisionId → AuditDecisionId → ReviewVerdict → ReviewVerdict → ReviewAuditResolution

pub record CompletionEvidence : Type 0 where
  pub contract_version : ContractVersion
  pub evidence_refs : List EvidenceId
  pub satisfied_acceptance_criteria : List String
  pub satisfied_verification_criteria : List String
  pub satisfied_definition_of_done : List String
