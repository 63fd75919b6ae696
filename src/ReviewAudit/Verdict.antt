-- ===== src/ReviewAudit/Verdict.antt =====
-- The verdict of a validated decision and the completion claim.
use mathlib.Core.List.{append-nil}
use ovca_core.Prelude.{
  String, true, false, ◌≡◌, inl, inr, refl, sym, ◌∙◌, ap, List, [], ◌∷◌, ◌++◌, map, ok, arith, any,
  Bool-cases, Result-cases, not, ◌&&◌, if◌then◌else◌,
}
use ovca_core.Collections.Order.{◌=?◌, string_ord, =?_iff, =?_refl}
use ovca_core.Collections.Equality.{same_list, same_list-Decides, ord-Decides}
use ovca_core.Goal.Task.{GoalContract}
use ovca_core.Goal.Evidence.{
  CompletionEvidence, CriterionAssessment, CriterionKind, ReviewDecision, ReviewVerdict,
  criterion_kind_ord,
}
use ovca_core.ReviewAudit.{
  ReviewDecisionValidationContext, ValidatedReviewDecision, declared_criteria,
  completion_satisfied_criteria,
}
use ovca_core.ReviewAudit.Evidence.{validate_context, validate_goal, validate_goal_criteria}
use ovca_core.ReviewAudit.Assessments.{
  Criterion, canonical_criteria, criteria_of_kinds, satisfied_criteria, alignment_of_kinds,
  validate_completion_alignment, derive_verdict, is_required, is_satisfied,
  validate_criterion_coverage, validate_assessments,
}
use ovca_core.ReviewAudit.Coverage.{keys_of, validate_criterion_coverage_iff}
use ovca_core.ReviewAudit.Decisions.{validate_review_decision}

-- The criteria of one kind.
of_kind : CriterionKind → List Criterion → List String
of_kind kind [] = []
of_kind kind ((k, c) ∷ rest) =
    let criteria = of_kind kind rest in if k =? kind then c ∷ criteria else criteria

of_kind-append :
    (kind : CriterionKind) (xs ys : List Criterion)
    → of_kind kind (xs ++ ys) ≡ of_kind kind xs ++ of_kind kind ys
unfolding of_kind
of_kind-append kind [] ys = refl
of_kind-append kind ((k, c) ∷ xs) ys = elim (Bool-cases (k =? kind)) [
  | inl same ↦ rw (same, of_kind-append kind xs ys) refl
  | inr other ↦ rw (other, of_kind-append kind xs ys) refl
]

of_kind-own :
    (kind : CriterionKind) (cs : List String) → of_kind kind (map (λ c. (kind, c)) cs) ≡ cs
unfolding of_kind
of_kind-own kind [] = refl
of_kind-own kind (c ∷ cs) = rw (=?_refl kind, of_kind-own kind cs) refl

of_kind-other :
    (kind k : CriterionKind) (cs : List String)
    → (k =? kind) ≡ false
    → of_kind kind (map (λ c. (k, c)) cs) ≡ []
unfolding of_kind
of_kind-other kind k [] h = refl
of_kind-other kind k (c ∷ cs) h = rw h (of_kind-other kind k cs h)

of_kind-canonical :
    (goal : GoalContract) (kind : CriterionKind)
    → of_kind kind (canonical_criteria goal) ≡ declared_criteria goal kind
unfolding criteria_of_kinds declared_criteria of_kind
of_kind-canonical goal CriterionKind.acceptance =
    simp (of_kind-append, of_kind-own, of_kind-other, append-nil)
of_kind-canonical goal CriterionKind.verification =
    simp (of_kind-append, of_kind-own, of_kind-other, append-nil)
of_kind-canonical goal CriterionKind.definition_of_done =
    simp (of_kind-append, of_kind-own, of_kind-other, append-nil)

-- With no failed criterion of a required kind, all criteria of the kind are satisfied.
satisfied_criteria-required :
    (goal : GoalContract) (kind : CriterionKind) (as' : List CriterionAssessment)
    → is_required goal kind ≡ true
    → any (λ a. not (is_satisfied a.verdict) && is_required goal a.kind) as' ≡ false
    → satisfied_criteria kind as' ≡ of_kind kind (keys_of as')
unfolding satisfied_criteria of_kind
satisfied_criteria-required goal kind [] required none_failed = refl
satisfied_criteria-required goal kind (a ∷ as') required none_failed =
    let rest = satisfied_criteria-required goal kind as' required (ground arith) in
    elim (Bool-cases (a.kind =? kind)) [
      | inr other ↦ rw other rest
      | inl same ↦
          let ek : a.kind ≡ kind = (=?_iff a.kind kind).0 same in
          let required' : is_required goal a.kind ≡ true = rw ek required in
          let fine : is_satisfied a.verdict ≡ true = ground arith in
          rw (same, fine) (ap (λ cs. a.criterion ∷ cs) rest)
    ]

passed_alignment :
    (completion : CompletionEvidence) (as' : List CriterionAssessment) (kind : CriterionKind)
    → validate_completion_alignment completion as' ≡ ok tt
    → same_list ◌=?◌ (satisfied_criteria kind as') (completion_satisfied_criteria completion kind)
      ≡ true
unfolding alignment_of_kinds
passed_alignment completion as' CriterionKind.acceptance h = ground arith
passed_alignment completion as' CriterionKind.verification h = ground arith
passed_alignment completion as' CriterionKind.definition_of_done h = ground arith

aligned :
    (completion : CompletionEvidence) (as' : List CriterionAssessment) (kind : CriterionKind)
    → validate_completion_alignment completion as' ≡ ok tt
    → satisfied_criteria kind as' ≡ completion_satisfied_criteria completion kind
aligned completion as' kind h =
    (same_list-Decides ◌=?◌ ord-Decides (satisfied_criteria kind as')
        (completion_satisfied_criteria completion kind)).0
      (passed_alignment completion as' kind h)

-- What a validated decision of the Reviewer has shown of its assessments.
record IsReviewed (context : ReviewDecisionValidationContext) (d : ReviewDecision) : Type 0 where
  pub goal_distinct : validate_goal_criteria context.goal_contract ≡ ok tt
  pub covered : validate_criterion_coverage context.goal_contract d.assessments ≡ ok tt
  pub claims_aligned :
      validate_completion_alignment context.completion_evidence d.assessments ≡ ok tt
  pub verdict_derived : derive_verdict context.goal_contract d.assessments ≡ d.verdict

validate_review_decision-IsReviewed :
    (context : ReviewDecisionValidationContext) (d : ReviewDecision) (v : ValidatedReviewDecision)
    → validate_review_decision context d ≡ ok v
    → IsReviewed context d
unfolding validate_review_decision validate_assessments validate_context validate_goal
validate_review_decision-IsReviewed context d v h = elim (Result-cases (validate_context context)) [
  | inr (inl (e, ee)) ↦ absurd (ground arith)
  | inr (inr ep) ↦ absurd (ground arith)
  | inl (catalog, ec) ↦ record {
    goal_distinct = ground arith;
    covered = ground arith;
    claims_aligned = ground arith;
    verdict_derived = ground arith;
  }
]

not_failed :
    (goal : GoalContract) (as' : List CriterionAssessment)
    → derive_verdict goal as' ≡ ReviewVerdict.pass
    → any (λ a. not (is_satisfied a.verdict) && is_required goal a.kind) as' ≡ false
unfolding derive_verdict
not_failed goal as' h = ground arith

-- When a Reviewer's decision that has been validated lets the run pass, the completion claim has, for
-- each kind of criteria that the goal requires in full, all the declared criteria, in their order.
pub validate_review_decision_complete :
    (context : ReviewDecisionValidationContext) (decision : ReviewDecision)
    (validated : ValidatedReviewDecision) (kind : CriterionKind)
    → validate_review_decision context decision ≡ ok validated
    → decision.verdict ≡ ReviewVerdict.pass
    → is_required context.goal_contract kind ≡ true
    → completion_satisfied_criteria context.completion_evidence kind
      ≡ declared_criteria context.goal_contract kind
validate_review_decision_complete context decision validated kind h passed required =
    let goal = context.goal_contract in
    let f = validate_review_decision-IsReviewed context decision validated h in
    let none_failed = not_failed goal decision.assessments (f.verdict_derived ∙ passed) in
    let exact =
      (validate_criterion_coverage_iff goal decision.assessments f.goal_distinct).0 f.covered in
    sym (aligned context.completion_evidence decision.assessments kind f.claims_aligned)
    ∙ satisfied_criteria-required goal kind decision.assessments required none_failed
    ∙ ap (of_kind kind) exact
    ∙ of_kind-canonical goal kind
