-- ===== src/ReviewAudit/Decisions.antt =====
-- The validation of the Reviewer's and the Auditor's decision and the resolution of the gate.
use ovca_core.Prelude.{
  Bool, Option, none, some, ok, err, ◌>>=◌, ◌>>◌, reject_if, ltb, not, ◌||◌, if◌then◌else◌,
}
use ovca_core.Collections.Order.{◌=?◌, string_ord}
use ovca_core.Collections.BTreeSet.{BTreeSet, contains}
use ovca_core.Goal.Ids.{AuditDecisionId, ReviewDecisionId, Role, role_ord}
use ovca_core.Goal.Policy.{GuardRequirement, guard_requirement_ord}
use ovca_core.Goal.Task.{GoalContract}
use ovca_core.Goal.Evidence.{
  AuditDecision, ReviewAuditResolution, ReviewDecision, ReviewVerdict, same_verdict,
}
use ovca_core.ReviewAudit.{
  AuditDecisionValidationContext, ReviewAuditError, ReviewAuditEvaluationContext, ReviewAuditPolicy,
  ReviewDecisionValidationContext, Validated, ValidatedAuditDecision, ValidatedReviewDecision,
  validate_version, validate_nonblank,
}
use ovca_core.ReviewAudit.Evidence.{validate_context, validate_completion_catalog}
use ovca_core.ReviewAudit.Assessments.{validate_assessments}

-- The tests of a Reviewer's decision before those of its assessments.
unfoldable pub check_review_fields :
    ReviewDecisionValidationContext → ReviewDecision → Validated (Unit {0})
check_review_fields context decision = do
  validate_version "review_decision" decision.contract_version
  validate_nonblank "review_decision.id" decision.id
  validate_nonblank "review_decision.run_id" decision.run_id
  validate_nonblank "review_decision.goal_id" decision.goal_id
  validate_nonblank "review_decision.summary" decision.summary
  reject_if (not (decision.producer_role =? Role.reviewer))
      (ReviewAuditError.producer_role_mismatch Role.reviewer decision.producer_role)
  reject_if (not (decision.run_id =? context.expected_run_id))
      (ReviewAuditError.run_id_mismatch context.expected_run_id decision.run_id)
  reject_if (not (decision.goal_id =? context.goal_contract.id))
      (ReviewAuditError.goal_id_mismatch context.goal_contract.id decision.goal_id)

unfoldable pub validate_review_decision :
    ReviewDecisionValidationContext → ReviewDecision → Validated ValidatedReviewDecision
validate_review_decision context decision = do
  catalog ← validate_context context
  check_review_fields context decision
  derived ← validate_assessments context decision.assessments catalog "review_decision" Bool.true
  validate_completion_catalog context.completion_evidence.evidence_refs catalog
  reject_if (not (same_verdict derived decision.verdict))
      (ReviewAuditError.verdict_mismatch derived decision.verdict)
  ok (record { decision = decision })

pub validate_review_evidence_context : ReviewDecisionValidationContext → Validated (Unit {0})
validate_review_evidence_context context = do
  catalog ← validate_context context
  validate_completion_catalog context.completion_evidence.evidence_refs catalog

abbrev pub review_context_of : AuditDecisionValidationContext → ReviewDecisionValidationContext
review_context_of context = record {
  expected_run_id = context.expected_run_id;
  goal_contract = context.goal_contract;
  completion_evidence = context.completion_evidence;
  evidence_catalog = context.evidence_catalog;
}

unfoldable pub check_audit_fields :
    AuditDecisionValidationContext → AuditDecision → Validated (Unit {0})
check_audit_fields context decision = do
  let review = context.validated_review_decision.decision
  validate_version "audit_decision" decision.contract_version
  validate_nonblank "audit_decision.id" decision.id
  validate_nonblank "audit_decision.run_id" decision.run_id
  validate_nonblank "audit_decision.goal_id" decision.goal_id
  validate_nonblank "audit_decision.review_decision_id" decision.review_decision_id
  validate_nonblank "audit_decision.summary" decision.summary
  reject_if (not (decision.producer_role =? Role.auditor))
      (ReviewAuditError.producer_role_mismatch Role.auditor decision.producer_role)
  reject_if (not (decision.run_id =? context.expected_run_id))
      (ReviewAuditError.run_id_mismatch context.expected_run_id decision.run_id)
  reject_if (not (decision.goal_id =? context.goal_contract.id))
      (ReviewAuditError.goal_id_mismatch context.goal_contract.id decision.goal_id)
  reject_if (not (decision.review_decision_id =? review.id))
      (ReviewAuditError.review_decision_id_mismatch review.id decision.review_decision_id)
  reject_if (ltb decision.decided_at review.decided_at)
      (ReviewAuditError.audit_decision_before_review review.decided_at decision.decided_at)

unfoldable pub validate_audit_decision :
    AuditDecisionValidationContext → AuditDecision → Validated ValidatedAuditDecision
validate_audit_decision context decision = do
  let review_context = review_context_of context
  catalog ← validate_context review_context
  check_audit_fields context decision
  derived ←
      validate_assessments review_context decision.assessments catalog "audit_decision" Bool.false
  validate_completion_catalog context.completion_evidence.evidence_refs catalog
  reject_if (not (same_verdict derived decision.verdict))
      (ReviewAuditError.verdict_mismatch derived decision.verdict)
  ok (record { decision = decision })

unfoldable pub derive_review_audit_policy :
    GoalContract → BTreeSet GuardRequirement → ReviewAuditPolicy
derive_review_audit_policy goal guard_requirements =
    let auditor_required =
      goal.permission_profile.audit_required
      || contains GuardRequirement.auditor guard_requirements in
    record {
      reviewer_required =
          goal.permission_profile.review_required
          || auditor_required
          || contains GuardRequirement.reviewer guard_requirements;
      auditor_required = auditor_required;
    }

unfoldable pub resolution_from_review : ReviewDecision → ReviewVerdict → ReviewAuditResolution
resolution_from_review review ReviewVerdict.pass = ReviewAuditResolution.pass (some review.id) none
resolution_from_review review ReviewVerdict.fail = ReviewAuditResolution.fail review.id none

-- The `match` on the two verdicts.
unfoldable pub resolve_verdicts :
    ReviewDecisionId → AuditDecisionId → ReviewVerdict → ReviewVerdict → ReviewAuditResolution
resolve_verdicts review_id audit_id ReviewVerdict.pass ReviewVerdict.pass =
    ReviewAuditResolution.pass (some review_id) (some audit_id)
resolve_verdicts review_id audit_id ReviewVerdict.fail ReviewVerdict.fail =
    ReviewAuditResolution.fail review_id (some audit_id)
resolve_verdicts review_id audit_id reviewer_verdict auditor_verdict =
    ReviewAuditResolution.owner_escalation review_id audit_id reviewer_verdict auditor_verdict

abbrev pub resolve_validated_decisions :
    ValidatedReviewDecision → ValidatedAuditDecision → ReviewAuditResolution
resolve_validated_decisions review audit =
    resolve_verdicts review.decision.id audit.decision.id review.decision.verdict
      audit.decision.verdict

abbrev pub context_of_review : ReviewAuditEvaluationContext → ReviewDecisionValidationContext
context_of_review context = record {
  expected_run_id = context.expected_run_id;
  goal_contract = context.goal_contract;
  completion_evidence = context.completion_evidence;
  evidence_catalog = context.evidence_catalog;
}

abbrev pub context_of_audit :
    ReviewAuditEvaluationContext → ValidatedReviewDecision → AuditDecisionValidationContext
context_of_audit context review = record {
  expected_run_id = context.expected_run_id;
  goal_contract = context.goal_contract;
  completion_evidence = context.completion_evidence;
  evidence_catalog = context.evidence_catalog;
  validated_review_decision = review;
}

-- `evaluate_review_audit` without a Reviewer's decision, and after the validation of one.
abbrev pub without_review :
    ReviewAuditPolicy → Option AuditDecision → Validated ReviewAuditResolution
without_review policy (some audit) = err ReviewAuditError.audit_without_review
without_review policy none =
    if policy.reviewer_required
    then ok ReviewAuditResolution.awaiting_review
    else ok (ReviewAuditResolution.pass none none)

abbrev pub after_review :
    ReviewAuditEvaluationContext
    → ReviewAuditPolicy
    → ValidatedReviewDecision
    → Option AuditDecision
    → Validated ReviewAuditResolution
after_review context policy review none =
    if policy.auditor_required
    then ok (ReviewAuditResolution.awaiting_audit review.decision.id)
    else ok (resolution_from_review review.decision review.decision.verdict)
after_review context policy review (some audit) = do
  validated ← validate_audit_decision (context_of_audit context review) audit
  ok (resolve_validated_decisions review validated)

abbrev pub evaluate_with :
    ReviewAuditEvaluationContext
    → ReviewAuditPolicy
    → Option ReviewDecision
    → Option AuditDecision
    → Validated ReviewAuditResolution
evaluate_with context policy none audit = without_review policy audit
evaluate_with context policy (some review) audit = do
  validated ← validate_review_decision (context_of_review context) review
  after_review context policy validated audit

unfoldable pub evaluate_review_audit :
    ReviewAuditEvaluationContext
    → Option ReviewDecision
    → Option AuditDecision
    → Validated ReviewAuditResolution
evaluate_review_audit context review audit =
    evaluate_with context
      (derive_review_audit_policy context.goal_contract context.guard_requirements) review audit
