-- ===== src/ReviewAudit/Examples.antt =====
-- A review and an audit of a run of a goal that needs both.
use ovca_core.Prelude.{
  Bool, String, true, ◌≡◌, ◌↔◌, refl, none, some, List, [], ◌∷◌, ok, map, is_blank,
}
use ovca_core.Collections.Order.{string_ord, pair_ord}
use ovca_core.Collections.BTreeMap.{get, insert}
use ovca_core.Collections.BTreeSet.{contains, extend, insert as add}
use ovca_core.Goal.Ids.{RiskTier, Role}
use ovca_core.Goal.Task.{GoalContract}
use ovca_core.Goal.Evidence.{
  AuditDecision, CompletionEvidence, CriterionAssessment, CriterionAssessmentVerdict, CriterionKind,
  EvidenceKind, EvidenceRef, ReviewAuditResolution, ReviewDecision, ReviewVerdict,
  criterion_kind_ord,
}
use ovca_core.ReviewAudit.{
  ReviewAuditEvaluationContext, declared_criteria, completion_satisfied_criteria,
  nonblank_values_from,
}
use ovca_core.ReviewAudit.Evidence.{
  validate_context, validate_goal, validate_goal_criteria, goal_criteria_from,
  goal_criteria_of_kinds, validate_integrity, catalog_from, completion_refs_from, positions_from,
  satisfied_from, validate_completion_evidence, validate_completion_catalog,
}
use ovca_core.ReviewAudit.Assessments.{
  canonical_criteria, criteria_of_kinds, key_of, seen_from, all_seen, in_order_from,
  validate_criterion_coverage, satisfied_criteria, alignment_of_kinds, is_required, derive_verdict,
  distinct_refs_from, is_unsorted, known_refs, validate_assessment_evidence, assessments_from,
  validate_assessments,
}
use ovca_core.ReviewAudit.Decisions.{
  check_review_fields, validate_review_decision, check_audit_fields, validate_audit_decision,
  derive_review_audit_policy, resolve_verdicts, context_of_review, evaluate_review_audit,
}
use ovca_core.ReviewAudit.Coverage.{validate_criterion_coverage_iff}
use ovca_core.ReviewAudit.Verdict.{validate_review_decision_complete}
use ovca_core.ReviewAudit.Gate.{HasPassed, evaluate_review_audit-HasPassed}

abbrev pub reviewed_goal : GoalContract
reviewed_goal = record {
  contract_version = 1;
  id = "goal";
  project_id = "project";
  objective = "ship";
  constraints = [];
  acceptance_criteria = "works" ∷ [];
  verification_criteria = [];
  permission_profile = record {
    contract_version = 1;
    risk_tier = RiskTier.r1;
    resource_keys = [];
    write_keys = "src" ∷ [];
    approval_required = Bool.false;
    review_required = true;
    audit_required = true;
  };
  definition_of_done = "merged" ∷ [];
  completion_precondition = record {
    contract_version = 1;
    minimum_evidence_refs = 1;
    require_all_acceptance_criteria = true;
    require_all_verification_criteria = true;
  };
  created_at = 1;
  updated_at = 1;
}

abbrev pub completion_claim : CompletionEvidence
completion_claim = record {
  contract_version = 1;
  evidence_refs = "log" ∷ [];
  satisfied_acceptance_criteria = "works" ∷ [];
  satisfied_verification_criteria = [];
  satisfied_definition_of_done = "merged" ∷ [];
}

abbrev pub log : EvidenceRef
log = record {
  contract_version = 1;
  id = "log";
  kind = EvidenceKind.log;
  reference = "run.log";
  producer_role = Role.engineer;
  integrity = none;
  produced_at = 2;
}

abbrev assessment_of : CriterionKind → String → CriterionAssessment
assessment_of kind criterion = record {
  contract_version = 1;
  kind = kind;
  criterion = criterion;
  verdict = CriterionAssessmentVerdict.satisfied;
  evidence_refs = "log" ∷ [];
  rationale = "seen";
}

abbrev both : List CriterionAssessment
both =
    assessment_of CriterionKind.acceptance "works"
    ∷ assessment_of CriterionKind.definition_of_done "merged"
    ∷ []

abbrev pub review : ReviewDecision
review = record {
  contract_version = 1;
  id = "review";
  run_id = "run";
  goal_id = "goal";
  producer_role = Role.reviewer;
  verdict = ReviewVerdict.pass;
  assessments = both;
  summary = "good";
  decided_at = 3;
}

abbrev pub audit : AuditDecision
audit = record {
  contract_version = 1;
  id = "audit";
  run_id = "run";
  goal_id = "goal";
  review_decision_id = "review";
  producer_role = Role.auditor;
  verdict = ReviewVerdict.pass;
  assessments = both;
  summary = "good";
  decided_at = 4;
}

abbrev gate : ReviewAuditEvaluationContext
gate = record {
  expected_run_id = "run";
  goal_contract = reviewed_goal;
  completion_evidence = completion_claim;
  evidence_catalog = log ∷ [];
  guard_requirements = [];
}

distinct : validate_goal_criteria reviewed_goal ≡ ok tt
unfolding goal_criteria_of_kinds goal_criteria_from declared_criteria is_blank contains add
distinct = refl

review_valid :
    validate_review_decision (context_of_review gate) review ≡ ok (record { decision = review })
unfolding validate_review_decision check_review_fields validate_context validate_goal
    goal_criteria_from goal_criteria_of_kinds validate_integrity catalog_from completion_refs_from
    positions_from satisfied_from validate_completion_evidence validate_completion_catalog
    criteria_of_kinds seen_from all_seen in_order_from validate_criterion_coverage
    satisfied_criteria alignment_of_kinds is_required derive_verdict distinct_refs_from is_unsorted
    known_refs validate_assessment_evidence assessments_from validate_assessments declared_criteria
    completion_satisfied_criteria nonblank_values_from is_blank get insert contains extend add
review_valid = refl

gate_passes :
    evaluate_review_audit gate (some review) (some audit)
    ≡ ok (ReviewAuditResolution.pass (some "review") (some "audit"))
unfolding evaluate_review_audit validate_audit_decision check_audit_fields
    derive_review_audit_policy resolve_verdicts validate_review_decision check_review_fields
    validate_context validate_goal goal_criteria_from goal_criteria_of_kinds validate_integrity
    catalog_from completion_refs_from positions_from satisfied_from validate_completion_evidence
    validate_completion_catalog criteria_of_kinds seen_from all_seen in_order_from
    validate_criterion_coverage satisfied_criteria alignment_of_kinds is_required derive_verdict
    distinct_refs_from is_unsorted known_refs validate_assessment_evidence assessments_from
    validate_assessments declared_criteria completion_satisfied_criteria nonblank_values_from
    is_blank get insert contains extend add
gate_passes = refl

validate_criterion_coverage_iff_example :
    (validate_criterion_coverage reviewed_goal both ≡ ok tt)
    ↔ (map key_of both ≡ canonical_criteria reviewed_goal)
validate_criterion_coverage_iff_example =
    validate_criterion_coverage_iff reviewed_goal both distinct

validate_review_decision_complete_example :
    completion_satisfied_criteria completion_claim CriterionKind.acceptance
    ≡ declared_criteria reviewed_goal CriterionKind.acceptance
unfolding is_required
validate_review_decision_complete_example =
    validate_review_decision_complete (context_of_review gate) review (record { decision = review })
      CriterionKind.acceptance review_valid refl refl

evaluate_review_audit-HasPassed_example :
    HasPassed gate (some review) (some audit) (some "review") (some "audit")
evaluate_review_audit-HasPassed_example =
    evaluate_review_audit-HasPassed gate (some review) (some audit) (some "review") (some "audit")
      gate_passes
