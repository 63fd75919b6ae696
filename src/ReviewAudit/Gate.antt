-- ===== src/ReviewAudit/Gate.antt =====
-- `evaluate_review_audit`.
use ovca_core.Prelude.{
  ◌≤◌, true, false, ◌≡◌, ◌⊎◌, inl, inr, refl, Option, none, some, ok, arith, Bool-cases,
  Result-cases, subst,
}
use ovca_core.Collections.Order.{string_ord, =?_iff}
use ovca_core.Collections.BTreeSet.{contains}
use ovca_core.Goal.Ids.{AuditDecisionId, ReviewDecisionId, Role, role_ord}
use ovca_core.Goal.Policy.{GuardRequirement, guard_requirement_ord}
use ovca_core.Goal.Evidence.{AuditDecision, ReviewAuditResolution, ReviewDecision, ReviewVerdict}
use ovca_core.ReviewAudit.{
  AuditDecisionValidationContext, ReviewAuditEvaluationContext, ReviewDecisionValidationContext,
  ValidatedAuditDecision, ValidatedReviewDecision,
}
use ovca_core.ReviewAudit.Evidence.{validate_context}
use ovca_core.ReviewAudit.Assessments.{validate_assessments}
use ovca_core.ReviewAudit.Decisions.{
  check_review_fields, check_audit_fields, validate_review_decision, validate_audit_decision,
  derive_review_audit_policy, resolution_from_review, resolve_verdicts, context_of_review,
  context_of_audit, review_context_of, evaluate_review_audit,
}

-- The goal or a guard asks for a decision of the Auditor, or for one of the Reviewer, whom an audit
-- needs as well.
abbrev pub NeedsAudit : ReviewAuditEvaluationContext → Type 0
NeedsAudit context =
    (context.goal_contract.permission_profile.audit_required ≡ true)
    ⊎ (contains GuardRequirement.auditor context.guard_requirements ≡ true)

abbrev pub NeedsReview : ReviewAuditEvaluationContext → Type 0
NeedsReview context =
    (context.goal_contract.permission_profile.review_required ≡ true)
    ⊎ ((contains GuardRequirement.reviewer context.guard_requirements ≡ true) ⊎ NeedsAudit context)

-- The Reviewer has let this run of this goal pass.
pub record IsApproved (context : ReviewAuditEvaluationContext) (d : ReviewDecision) : Type 0 where
  pub by_reviewer : d.producer_role ≡ Role.reviewer
  pub of_run : d.run_id ≡ context.expected_run_id
  pub of_goal : d.goal_id ≡ context.goal_contract.id
  pub approves : d.verdict ≡ ReviewVerdict.pass

-- The Auditor has let it pass after that review.
pub record IsConfirmed (context : ReviewAuditEvaluationContext) (d : ReviewDecision)
    (a : AuditDecision) : Type 0 where
  pub by_auditor : a.producer_role ≡ Role.auditor
  pub audit_of_run : a.run_id ≡ context.expected_run_id
  pub audit_of_goal : a.goal_id ≡ context.goal_contract.id
  pub of_review : a.review_decision_id ≡ d.id
  pub after_review_decision : d.decided_at ≤ a.decided_at
  pub confirms : a.verdict ≡ ReviewVerdict.pass

review_fields :
    (context : ReviewDecisionValidationContext) (d : ReviewDecision) (v : ValidatedReviewDecision)
    → validate_review_decision context d ≡ ok v
    → (check_review_fields context d ≡ ok tt) × (v.decision ≡ d)
unfolding validate_review_decision
review_fields context d v h = elim (Result-cases (validate_context context)) [
  | inr (inl (e, ee)) ↦ absurd (ground arith)
  | inr (inr ep) ↦ absurd (ground arith)
  | inl (catalog, ec) ↦
      elim (Result-cases
        (validate_assessments context d.assessments catalog "review_decision" true)) [
          | inr (inl (e, ee)) ↦ absurd (ground arith)
          | inr (inr ep) ↦ absurd (ground arith)
          | inl (verdict, ev) ↦ (ground arith, ground arith)
        ]
]

audit_fields :
    (context : AuditDecisionValidationContext) (a : AuditDecision) (v : ValidatedAuditDecision)
    → validate_audit_decision context a ≡ ok v
    → (check_audit_fields context a ≡ ok tt) × (v.decision ≡ a)
unfolding validate_audit_decision
audit_fields context a v h = elim (Result-cases (validate_context (review_context_of context))) [
  | inr (inl (e, ee)) ↦ absurd (ground arith)
  | inr (inr ep) ↦ absurd (ground arith)
  | inl (catalog, ec) ↦
      elim (Result-cases (
        validate_assessments (review_context_of context) a.assessments catalog "audit_decision"
          false)) [
            | inr (inl (e, ee)) ↦ absurd (ground arith)
            | inr (inr ep) ↦ absurd (ground arith)
            | inl (verdict, ev) ↦ (ground arith, ground arith)
          ]
]

approved :
    (context : ReviewAuditEvaluationContext) (d : ReviewDecision)
    → check_review_fields (context_of_review context) d ≡ ok tt
    → d.verdict ≡ ReviewVerdict.pass
    → IsApproved context d
unfolding check_review_fields
approved context d h e = record {
  by_reviewer = (=?_iff d.producer_role Role.reviewer).0 (ground arith);
  of_run = (=?_iff d.run_id context.expected_run_id).0 (ground arith);
  of_goal = (=?_iff d.goal_id context.goal_contract.id).0 (ground arith);
  approves = e;
}

confirmed :
    (context : ReviewAuditEvaluationContext) (v : ValidatedReviewDecision) (a : AuditDecision)
    → check_audit_fields (context_of_audit context v) a ≡ ok tt
    → a.verdict ≡ ReviewVerdict.pass
    → IsConfirmed context v.decision a
unfolding check_audit_fields
confirmed context v a h e = record {
  by_auditor = (=?_iff a.producer_role Role.auditor).0 (ground arith);
  audit_of_run = (=?_iff a.run_id context.expected_run_id).0 (ground arith);
  audit_of_goal = (=?_iff a.goal_id context.goal_contract.id).0 (ground arith);
  of_review = (=?_iff a.review_decision_id v.decision.id).0 (ground arith);
  after_review_decision = ground arith;
  confirms = e;
}

NeedsReview-policy :
    (context : ReviewAuditEvaluationContext)
    → NeedsReview context
    → (derive_review_audit_policy context.goal_contract
        context.guard_requirements).reviewer_required
      ≡ true
unfolding derive_review_audit_policy
NeedsReview-policy context needs = ground arith

NeedsAudit-policy :
    (context : ReviewAuditEvaluationContext)
    → NeedsAudit context
    → (derive_review_audit_policy context.goal_contract context.guard_requirements).auditor_required
      ≡ true
unfolding derive_review_audit_policy
NeedsAudit-policy context needs = ground arith

from_review-pass :
    (d : ReviewDecision) (x : ReviewVerdict) (review_id : Option ReviewDecisionId)
    (audit_id : Option AuditDecisionId)
    → resolution_from_review d x ≡ ReviewAuditResolution.pass review_id audit_id
    → (x ≡ ReviewVerdict.pass) × (review_id ≡ some d.id)
unfolding resolution_from_review
from_review-pass d ReviewVerdict.pass review_id audit_id h = (refl, cc h)
from_review-pass d ReviewVerdict.fail review_id audit_id h = absurd (cc h)

verdicts-pass :
    (i : ReviewDecisionId) (j : AuditDecisionId) (x y : ReviewVerdict)
    (review_id : Option ReviewDecisionId) (audit_id : Option AuditDecisionId)
    → resolve_verdicts i j x y ≡ ReviewAuditResolution.pass review_id audit_id
    → (x ≡ ReviewVerdict.pass)
      × (y ≡ ReviewVerdict.pass)
      × (review_id ≡ some i)
      × (audit_id ≡ some j)
unfolding resolve_verdicts
verdicts-pass i j ReviewVerdict.pass ReviewVerdict.pass review_id audit_id h =
    (refl, refl, cc h, cc h)
verdicts-pass i j ReviewVerdict.pass ReviewVerdict.fail review_id audit_id h = absurd (cc h)
verdicts-pass i j ReviewVerdict.fail ReviewVerdict.pass review_id audit_id h = absurd (cc h)
verdicts-pass i j ReviewVerdict.fail ReviewVerdict.fail review_id audit_id h = absurd (cc h)

-- What lets a gate pass: the decisions that are there, of those that are needed.
pub record HasPassed (context : ReviewAuditEvaluationContext) (review : Option ReviewDecision)
    (audit : Option AuditDecision) (review_id : Option ReviewDecisionId)
    (audit_id : Option AuditDecisionId) : Type 0 where
  pub review_passed :
      NeedsReview context
      → (d : ReviewDecision) × (review ≡ some d) × (review_id ≡ some d.id) × IsApproved context d
  pub audit_passed :
      NeedsAudit context
      → (d : ReviewDecision) × (a : AuditDecision) × (review ≡ some d)
        × (audit ≡ some a)
        × (audit_id ≡ some a.id)
        × IsConfirmed context d a

-- The gate passes only with an approving decision of the Reviewer where the goal or the guards need
-- a review, and an audit that confirms that very decision where they need an audit, each given by
-- its role for this run and this goal.
pub evaluate_review_audit-HasPassed :
    (context : ReviewAuditEvaluationContext) (review : Option ReviewDecision)
    (audit : Option AuditDecision) (review_id : Option ReviewDecisionId)
    (audit_id : Option AuditDecisionId)
    → evaluate_review_audit context review audit
      ≡ ok (ReviewAuditResolution.pass review_id audit_id)
    → HasPassed context review audit review_id audit_id
unfolding evaluate_review_audit
evaluate_review_audit-HasPassed context none none review_id audit_id h = record {
  review_passed = λ needs. absurd (ground (arith, NeedsReview-policy context needs));
  audit_passed = λ needs. absurd (ground (arith, NeedsReview-policy context (inr (inr needs))));
}
evaluate_review_audit-HasPassed context none (some a) review_id audit_id h = absurd (cc h)
evaluate_review_audit-HasPassed context (some d) none review_id audit_id h =
    elim (Result-cases (validate_review_decision (context_of_review context) d)) [
      | inr (inl (e, ee)) ↦ absurd (ground arith)
      | inr (inr ep) ↦ absurd (ground arith)
      | inl (v, ev) ↦
          let (fields, ed) = review_fields (context_of_review context) d v ev in
          let policy =
            derive_review_audit_policy context.goal_contract context.guard_requirements in
          elim (Bool-cases
            (derive_review_audit_policy context.goal_contract
              context.guard_requirements).auditor_required) [
                | inl needed ↦ absurd (ground arith)
                | inr free ↦
                    let resolved : resolution_from_review v.decision v.decision.verdict
                        ≡ ReviewAuditResolution.pass review_id audit_id =
                      ground arith in
                    let (x, i) =
                      from_review-pass v.decision v.decision.verdict review_id audit_id resolved in
                    let passed : d.verdict ≡ ReviewVerdict.pass =
                      subst (λ (y : ReviewDecision). y.verdict ≡ ReviewVerdict.pass) ed x in
                    let named : review_id ≡ some d.id =
                      subst (λ (y : ReviewDecision). review_id ≡ some y.id) ed i in
                    record {
                      review_passed = λ needs. (d, refl, named, approved context d fields passed);
                      audit_passed = λ needs. absurd (cc (NeedsAudit-policy context needs, free));
                    }
              ]
    ]
evaluate_review_audit-HasPassed context (some d) (some a) review_id audit_id h =
    elim (Result-cases (validate_review_decision (context_of_review context) d)) [
      | inr (inl (e, ee)) ↦ absurd (ground arith)
      | inr (inr ep) ↦ absurd (ground arith)
      | inl (v, ev) ↦ elim (Result-cases (validate_audit_decision (context_of_audit context v) a)) [
        | inr (inl (e, ee)) ↦ absurd (ground arith)
        | inr (inr ep) ↦ absurd (ground arith)
        | inl (w, ew) ↦
            let (fields, ed) = review_fields (context_of_review context) d v ev in
            let (fields', ea) = audit_fields (context_of_audit context v) a w ew in
            let resolved : resolve_verdicts v.decision.id w.decision.id v.decision.verdict
                  w.decision.verdict
                ≡ ReviewAuditResolution.pass review_id audit_id =
              ground arith in
            let (x, y, i, j) =
              verdicts-pass v.decision.id w.decision.id v.decision.verdict w.decision.verdict
                review_id audit_id resolved in
            let passed : d.verdict ≡ ReviewVerdict.pass =
              subst (λ (z : ReviewDecision). z.verdict ≡ ReviewVerdict.pass) ed x in
            let named : review_id ≡ some d.id =
              subst (λ (z : ReviewDecision). review_id ≡ some z.id) ed i in
            let passed' : a.verdict ≡ ReviewVerdict.pass =
              subst (λ (z : AuditDecision). z.verdict ≡ ReviewVerdict.pass) ea y in
            let named' : audit_id ≡ some a.id =
              subst (λ (z : AuditDecision). audit_id ≡ some z.id) ea j in
            let sure : IsConfirmed context d a =
              subst (λ (z : ReviewDecision). IsConfirmed context z a) ed
                (confirmed context v a fields' passed') in
            record {
              review_passed = λ needs. (d, refl, named, approved context d fields passed);
              audit_passed = λ needs. (d, a, refl, refl, named', sure);
            }
      ]
    ]
