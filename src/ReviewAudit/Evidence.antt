-- ===== src/ReviewAudit/Evidence.antt =====
-- `validate_context` and what it calls: the goal, the evidence catalog and the completion claim.
use Prim.Native.String.{◌++◌}
use ovca_core.Prelude.{
  ℕ, ◌+◌, ◌%◌, ◌^◌, max, String, Bool, Option, none, some, List, [], ◌∷◌, ok, err, ◌>>=◌, ◌>>◌,
  reject_if, ltb, length, not,
}
use ovca_core.Collections.Order.{◌<?◌, string_ord}
use ovca_core.Collections.BTreeMap.{BTreeMap, get, insert, contains_key}
use ovca_core.Collections.BTreeSet.{BTreeSet, contains, insert as add}
use ovca_core.Goal.Ids.{EvidenceId}
use ovca_core.Goal.Task.{GoalContract}
use ovca_core.Goal.Evidence.{CriterionKind, EvidenceRef, IntegrityMetadata}
use ovca_core.ReviewAudit.{
  ReviewAuditError, ReviewDecisionValidationContext, Validated, validate_version, validate_nonblank,
  validate_nonblank_values, at_index, declared_criteria, criterion_kinds, criterion_kind_name,
}

unfoldable pub validate_integrity : String → Option IntegrityMetadata → Validated (Unit {0})
validate_integrity field none = ok tt
validate_integrity field (some integrity) = do
  validate_version (field ++ ".integrity") integrity.contract_version
  validate_nonblank (field ++ ".integrity.algorithm") integrity.algorithm
  validate_nonblank (field ++ ".integrity.digest") integrity.digest

-- `if let Some(previous) = previous_id { if actual < previous { return Err(…) } }`
abbrev pub reject_before :
    Option EvidenceId → EvidenceId → (EvidenceId → ReviewAuditError) → Validated (Unit {0})
reject_before none actual e = ok tt
reject_before (some previous) actual e = reject_if (actual <? previous) (e previous)

unfoldable pub catalog_from :
    ℕ
    → Option EvidenceId
    → BTreeMap String EvidenceRef
    → List EvidenceRef
    → Validated (BTreeMap String EvidenceRef)
catalog_from index previous_id catalog [] = ok catalog
catalog_from index previous_id catalog (evidence ∷ rest) = do
  let field = at_index "evidence_catalog" index
  validate_version field evidence.contract_version
  validate_nonblank (field ++ ".id") evidence.id
  validate_nonblank (field ++ ".reference") evidence.reference
  validate_integrity field evidence.integrity
  reject_if (contains_key evidence.id catalog)
      (ReviewAuditError.duplicate_catalog_evidence_id evidence.id)
  reject_before previous_id evidence.id
      (λ previous. ReviewAuditError.unsorted_catalog_evidence_ids index previous evidence.id)
  catalog_from (index + 1) (some evidence.id) (insert evidence.id evidence catalog) rest

abbrev pub validate_catalog : List EvidenceRef → Validated (BTreeMap String EvidenceRef)
validate_catalog evidence_catalog = catalog_from 0 none [] evidence_catalog

unfoldable pub goal_criteria_from :
    CriterionKind → ℕ → BTreeSet String → List String → Validated (Unit {0})
goal_criteria_from kind index seen [] = ok tt
goal_criteria_from kind index seen (criterion ∷ rest) = do
  validate_nonblank (at_index ("goal_contract." ++ criterion_kind_name kind) index) criterion
  reject_if (contains criterion seen) (ReviewAuditError.duplicate_goal_criterion kind criterion)
  goal_criteria_from kind (index + 1) (add criterion seen) rest

unfoldable pub goal_criteria_of_kinds : GoalContract → List CriterionKind → Validated (Unit {0})
goal_criteria_of_kinds goal [] = ok tt
goal_criteria_of_kinds goal (kind ∷ kinds) =
    goal_criteria_from kind 0 [] (declared_criteria goal kind) >> goal_criteria_of_kinds goal kinds

abbrev pub validate_goal_criteria : GoalContract → Validated (Unit {0})
validate_goal_criteria goal = goal_criteria_of_kinds goal criterion_kinds

-- The loop over the evidence that the completion claim refers to; it returns what was seen.
unfoldable pub completion_refs_from :
    ℕ → Option EvidenceId → BTreeSet String → List EvidenceId → Validated (BTreeSet String)
completion_refs_from index previous_id unique [] = ok unique
completion_refs_from index previous_id unique (evidence_id ∷ rest) = do
  validate_nonblank (at_index "completion_evidence.evidence_refs" index) evidence_id
  reject_if (contains evidence_id unique)
      (ReviewAuditError.duplicate_completion_evidence_id evidence_id)
  reject_before previous_id evidence_id
      (λ previous. ReviewAuditError.unsorted_completion_evidence_ids index previous evidence_id)
  completion_refs_from (index + 1) (some evidence_id) (add evidence_id unique) rest

-- `iter().enumerate().map(|(index, criterion)| (criterion, index)).collect()`
unfoldable pub positions_from : ℕ → BTreeMap String ℕ → List String → BTreeMap String ℕ
positions_from index positions [] = positions
positions_from index positions (criterion ∷ rest) =
    positions_from (index + 1) (insert criterion index positions) rest

abbrev pub position_of : CriterionKind → String → Option ℕ → Validated ℕ
position_of kind criterion none = err (ReviewAuditError.unknown_satisfied_criterion kind criterion)
position_of kind criterion (some position) = ok position

-- `previous_position.is_some_and(|previous| position < previous)`
abbrev pub is_reordered : Option ℕ → ℕ → Bool
is_reordered none position = Bool.false
is_reordered (some previous) position = ltb position previous

unfoldable pub satisfied_from :
    CriterionKind
    → BTreeMap String ℕ
    → ℕ
    → BTreeSet String
    → Option ℕ
    → List String
    → Validated (Unit {0})
satisfied_from kind positions index seen previous_position [] = ok tt
satisfied_from kind positions index seen previous_position (criterion ∷ rest) = do
  validate_nonblank (at_index ("completion_evidence.satisfied_" ++ criterion_kind_name kind) index)
      criterion
  position ← position_of kind criterion (get criterion positions)
  reject_if (contains criterion seen)
      (ReviewAuditError.duplicate_satisfied_criterion kind criterion)
  reject_if (is_reordered previous_position position)
      (ReviewAuditError.reordered_satisfied_criterion kind criterion)
  satisfied_from kind positions (index + 1) (add criterion seen) (some position) rest

abbrev pub validate_satisfied_list :
    GoalContract → CriterionKind → List String → Validated (Unit {0})
validate_satisfied_list goal kind actual =
    satisfied_from kind (positions_from 0 [] (declared_criteria goal kind)) 0 [] none actual

-- `unique.len() as u32` and the least number of references.
abbrev pub required_evidence : GoalContract → ℕ
required_evidence goal = max goal.completion_precondition.minimum_evidence_refs 1

unfoldable pub validate_completion_evidence : ReviewDecisionValidationContext → Validated (Unit {0})
validate_completion_evidence context = do
  let goal = context.goal_contract
  let completion = context.completion_evidence
  unique ← completion_refs_from 0 none [] completion.evidence_refs
  let actual = length unique % 2 ^ 32
  reject_if (ltb actual (required_evidence goal))
      (ReviewAuditError.insufficient_completion_evidence (required_evidence goal) actual)
  validate_satisfied_list goal CriterionKind.acceptance completion.satisfied_acceptance_criteria
  validate_satisfied_list goal CriterionKind.verification completion.satisfied_verification_criteria
  validate_satisfied_list goal CriterionKind.definition_of_done
      completion.satisfied_definition_of_done

unfoldable pub validate_goal : GoalContract → Validated (Unit {0})
validate_goal goal = do
  validate_nonblank "goal_contract.id" goal.id
  validate_nonblank "goal_contract.project_id" goal.project_id
  validate_nonblank "goal_contract.objective" goal.objective
  validate_nonblank_values "goal_contract.constraints" goal.constraints
  validate_nonblank_values "goal_contract.permission_profile.resource_keys"
      goal.permission_profile.resource_keys
  validate_nonblank_values "goal_contract.permission_profile.write_keys"
      goal.permission_profile.write_keys
  validate_goal_criteria goal

unfoldable pub validate_context :
    ReviewDecisionValidationContext → Validated (BTreeMap String EvidenceRef)
validate_context context = do
  let goal = context.goal_contract
  validate_version "goal_contract" goal.contract_version
  validate_version "goal_contract.permission_profile" goal.permission_profile.contract_version
  validate_version "goal_contract.completion_precondition"
      goal.completion_precondition.contract_version
  validate_version "completion_evidence" context.completion_evidence.contract_version
  validate_nonblank "expected_run_id" context.expected_run_id
  validate_goal goal
  catalog ← validate_catalog context.evidence_catalog
  validate_completion_evidence context
  ok catalog

unfoldable pub validate_completion_catalog :
    List EvidenceId → BTreeMap String EvidenceRef → Validated (Unit {0})
validate_completion_catalog [] catalog = ok tt
validate_completion_catalog (evidence_id ∷ rest) catalog = do
  reject_if (not (contains_key evidence_id catalog))
      (ReviewAuditError.completion_evidence_not_in_catalog evidence_id)
  validate_completion_catalog rest catalog
