-- ===== src/ReviewAudit/Assessments.antt =====
-- `validate_assessments` and what it calls.
use Prim.Native.String.{◌++◌}
use ovca_core.Prelude.{
  ℕ, ◌+◌, String, Bool, List, [], ◌∷◌, ◌++◌ as append, map, ok, ◌>>=◌, ◌>>◌, reject_if, any,
  is_empty, not, ◌&&◌, ◌||◌, if◌then◌else◌,
}
use ovca_core.Collections.Order.{◌=?◌, ◌<?◌, string_ord, pair_ord}
use ovca_core.Collections.BTreeMap.{BTreeMap, contains_key}
use ovca_core.Collections.BTreeSet.{BTreeSet, contains, insert, collect}
use ovca_core.Collections.Equality.{same_list}
use ovca_core.Goal.Ids.{EvidenceId}
use ovca_core.Goal.Task.{GoalContract}
use ovca_core.Goal.Evidence.{
  CompletionEvidence, CriterionAssessment, CriterionAssessmentVerdict, CriterionKind, EvidenceRef,
  ReviewVerdict, criterion_kind_ord,
}
use ovca_core.ReviewAudit.{
  ReviewAuditError, ReviewDecisionValidationContext, Validated, validate_version, validate_nonblank,
  at_index, declared_criteria, completion_satisfied_criteria, criterion_kinds,
}

abbrev pub Criterion : Type 0
Criterion = CriterionKind × String

unfoldable pub criteria_of_kinds : GoalContract → List CriterionKind → List Criterion
criteria_of_kinds goal [] = []
criteria_of_kinds goal (kind ∷ kinds) =
    append (map (λ c. (kind, c)) (declared_criteria goal kind)) (criteria_of_kinds goal kinds)

abbrev pub canonical_criteria : GoalContract → List Criterion
canonical_criteria goal = criteria_of_kinds goal criterion_kinds

-- The two components of an assessment that the code calls its key.
abbrev pub key_of : CriterionAssessment → Criterion
key_of assessment = (assessment.kind, assessment.criterion)

-- The first loop of `validate_criterion_coverage`; it returns what was seen.
unfoldable pub seen_from :
    BTreeSet Criterion
    → BTreeSet Criterion
    → List CriterionAssessment
    → Validated (BTreeSet Criterion)
seen_from declared_set seen [] = ok seen
seen_from declared_set seen (assessment ∷ rest) = do
  reject_if (contains (key_of assessment) seen)
      (ReviewAuditError.duplicate_criterion_assessment assessment.kind assessment.criterion)
  reject_if (not (contains (key_of assessment) declared_set))
      (ReviewAuditError.unknown_criterion_assessment assessment.kind assessment.criterion)
  seen_from declared_set (insert (key_of assessment) seen) rest

unfoldable pub all_seen : BTreeSet Criterion → List Criterion → Validated (Unit {0})
all_seen seen [] = ok tt
all_seen seen ((kind, criterion) ∷ rest) = do
  reject_if (not (contains (kind, criterion) seen))
      (ReviewAuditError.missing_criterion_assessment kind criterion)
  all_seen seen rest

-- The loop over the declared criteria zipped with the assessments.
unfoldable pub in_order_from : ℕ → List Criterion → List CriterionAssessment → Validated (Unit {0})
in_order_from index ((kind, criterion) ∷ declared) (actual ∷ rest) = do
  reject_if (not (kind =? actual.kind) || not (criterion =? actual.criterion)) (
      ReviewAuditError.reordered_criterion_assessment index kind criterion actual.kind
        actual.criterion)
  in_order_from (index + 1) declared rest
in_order_from index _ _ = ok tt

unfoldable pub validate_criterion_coverage :
    GoalContract → List CriterionAssessment → Validated (Unit {0})
validate_criterion_coverage goal assessments = do
  let declared = canonical_criteria goal
  seen ← seen_from (collect declared) [] assessments
  all_seen seen declared
  in_order_from 0 declared assessments

abbrev pub is_satisfied : CriterionAssessmentVerdict → Bool
is_satisfied CriterionAssessmentVerdict.satisfied = Bool.true
is_satisfied CriterionAssessmentVerdict.unsatisfied = Bool.false

-- `filter(…).map(|assessment| assessment.criterion.clone())`
unfoldable pub satisfied_criteria : CriterionKind → List CriterionAssessment → List String
satisfied_criteria kind [] = []
satisfied_criteria kind (assessment ∷ rest) =
    let criteria = satisfied_criteria kind rest in
    if assessment.kind =? kind && is_satisfied assessment.verdict
    then assessment.criterion ∷ criteria
    else criteria

unfoldable pub alignment_of_kinds :
    CompletionEvidence → List CriterionAssessment → List CriterionKind → Validated (Unit {0})
alignment_of_kinds completion assessments [] = ok tt
alignment_of_kinds completion assessments (kind ∷ kinds) = do
  let expected = satisfied_criteria kind assessments
  let actual = completion_satisfied_criteria completion kind
  reject_if (not (same_list ◌=?◌ expected actual))
      (ReviewAuditError.completion_satisfied_criteria_mismatch kind expected actual)
  alignment_of_kinds completion assessments kinds

abbrev pub validate_completion_alignment :
    CompletionEvidence → List CriterionAssessment → Validated (Unit {0})
validate_completion_alignment completion assessments =
    alignment_of_kinds completion assessments criterion_kinds

unfoldable pub is_required : GoalContract → CriterionKind → Bool
is_required goal CriterionKind.acceptance =
    goal.completion_precondition.require_all_acceptance_criteria
is_required goal CriterionKind.verification =
    goal.completion_precondition.require_all_verification_criteria
is_required goal CriterionKind.definition_of_done = Bool.true

unfoldable pub derive_verdict : GoalContract → List CriterionAssessment → ReviewVerdict
derive_verdict goal assessments =
    if any (λ a. not (is_satisfied a.verdict) && is_required goal a.kind) assessments
    then ReviewVerdict.fail
    else ReviewVerdict.pass

-- The first loop of `validate_assessment_evidence`.
unfoldable pub distinct_refs_from :
    String → ℕ → ℕ → BTreeSet String → List EvidenceId → Validated (Unit {0})
distinct_refs_from field assessment_index evidence_index seen [] = ok tt
distinct_refs_from field assessment_index evidence_index seen (evidence_id ∷ rest) = do
  validate_nonblank (at_index field evidence_index) evidence_id
  reject_if (contains evidence_id seen)
      (ReviewAuditError.duplicate_assessment_evidence_id assessment_index evidence_id)
  distinct_refs_from field assessment_index (evidence_index + 1) (insert evidence_id seen) rest

-- `windows(2).any(|pair| pair[0] > pair[1])`
unfoldable pub is_unsorted : List EvidenceId → Bool
is_unsorted (a ∷ b ∷ rest) = b <? a || is_unsorted (b ∷ rest)
is_unsorted _ = Bool.false

unfoldable pub known_refs :
    ℕ → BTreeSet String → BTreeMap String EvidenceRef → List EvidenceId → Validated (Unit {0})
known_refs assessment_index completion_ids catalog [] = ok tt
known_refs assessment_index completion_ids catalog (evidence_id ∷ rest) = do
  reject_if (not (contains evidence_id completion_ids))
      (ReviewAuditError.assessment_evidence_not_in_completion assessment_index evidence_id)
  reject_if (not (contains_key evidence_id catalog))
      (ReviewAuditError.assessment_evidence_not_in_catalog assessment_index evidence_id)
  known_refs assessment_index completion_ids catalog rest

unfoldable pub validate_assessment_evidence :
    ℕ
    → CriterionAssessment
    → ReviewDecisionValidationContext
    → BTreeMap String EvidenceRef
    → String
    → Validated (Unit {0})
validate_assessment_evidence assessment_index assessment context catalog decision_name = do
  let field = at_index (decision_name ++ ".assessments") assessment_index ++ ".evidence_refs"
  distinct_refs_from field assessment_index 0 [] assessment.evidence_refs
  reject_if (is_unsorted assessment.evidence_refs)
      (ReviewAuditError.unsorted_assessment_evidence_ids assessment_index)
  known_refs assessment_index (collect context.completion_evidence.evidence_refs) catalog
      assessment.evidence_refs
  reject_if (is_satisfied assessment.verdict && is_empty assessment.evidence_refs)
      (ReviewAuditError.satisfied_assessment_without_evidence assessment_index)

unfoldable pub assessments_from :
    ℕ
    → ReviewDecisionValidationContext
    → BTreeMap String EvidenceRef
    → String
    → List CriterionAssessment
    → Validated (Unit {0})
assessments_from index context catalog decision_name [] = ok tt
assessments_from index context catalog decision_name (assessment ∷ rest) = do
  let field = at_index (decision_name ++ ".assessments") index
  validate_version field assessment.contract_version
  validate_nonblank (field ++ ".criterion") assessment.criterion
  validate_nonblank (field ++ ".rationale") assessment.rationale
  validate_assessment_evidence index assessment context catalog decision_name
  assessments_from (index + 1) context catalog decision_name rest

-- `if enforce_completion_alignment { validate_completion_alignment(…)?; }`
abbrev pub align_if : Bool → CompletionEvidence → List CriterionAssessment → Validated (Unit {0})
align_if Bool.true completion assessments = validate_completion_alignment completion assessments
align_if Bool.false completion assessments = ok tt

unfoldable pub validate_assessments :
    ReviewDecisionValidationContext
    → List CriterionAssessment
    → BTreeMap String EvidenceRef
    → String
    → Bool
    → Validated ReviewVerdict
validate_assessments context assessments catalog decision_name enforce_completion_alignment = do
  assessments_from 0 context catalog decision_name assessments
  validate_criterion_coverage context.goal_contract assessments
  align_if enforce_completion_alignment context.completion_evidence assessments
  ok (derive_verdict context.goal_contract assessments)
