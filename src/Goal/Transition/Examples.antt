-- ===== src/Goal/Transition/Examples.antt =====
-- A goal that asks for a review, and a run of it.
use ovca_core.Prelude.{true, false, ◌≡◌, ◌↔◌, refl, none, some, [], ◌∷◌, ok}
use ovca_core.Collections.Order.{string_ord}
use ovca_core.Collections.BTreeSet.{contains, extend, insert}
use ovca_core.Goal.Ids.{RiskTier}
use ovca_core.Goal.Task.{GoalContract}
use ovca_core.Goal.Evidence.{CompletionEvidence}
use ovca_core.Goal.Run.{RunStatus}
use ovca_core.Goal.Transition.{
  is_listed, missing_criteria, require_criteria, required_completion_gate, validate_completion,
  validate_contract_version, validate_run_transition_with_guard_requirements as validate,
}
use ovca_core.Goal.Transition.Diagram.{◌⟶◌, validate_iff_⟶}
use ovca_core.Goal.Transition.Completion.{CanComplete, validate-completed_iff}
use ovca_core.Goal.Transition.History.{
  History, created, moved, Passed, needs_audit, needs_review, completed-Passed,
}

abbrev goal : GoalContract
goal = record {
  contract_version = 1;
  id = "goal";
  project_id = "project";
  objective = "ship";
  constraints = [];
  acceptance_criteria = "works" ∷ [];
  verification_criteria = [];
  permission_profile = record {
    contract_version = 1;
    risk_tier = RiskTier.r1;
    resource_keys = [];
    write_keys = [];
    approval_required = false;
    review_required = true;
    audit_required = false;
  };
  definition_of_done = "merged" ∷ [];
  completion_precondition = record {
    contract_version = 1;
    minimum_evidence_refs = 1;
    require_all_acceptance_criteria = true;
    require_all_verification_criteria = true;
  };
  created_at = 1;
  updated_at = 1;
}

abbrev evidence : CompletionEvidence
evidence = record {
  contract_version = 1;
  evidence_refs = "log" ∷ [];
  satisfied_acceptance_criteria = "works" ∷ [];
  satisfied_verification_criteria = [];
  satisfied_definition_of_done = "merged" ∷ [];
}

validate_iff_⟶_example :
    (validate RunStatus.reviewing RunStatus.running (some goal) none [] ≡ ok tt)
    ↔ (RunStatus.reviewing ⟶ RunStatus.running)
validate_iff_⟶_example =
    validate_iff_⟶ RunStatus.reviewing RunStatus.running (some goal) none [] (λ h. cc h)

validate-completed_iff_example :
    (validate RunStatus.reviewing RunStatus.completed (some goal) (some evidence) [] ≡ ok tt)
    ↔ CanComplete RunStatus.reviewing (some goal) (some evidence) []
validate-completed_iff_example =
    validate-completed_iff RunStatus.reviewing (some goal) (some evidence) []

finished_run : History goal [] (
    RunStatus.completed ∷ RunStatus.reviewing ∷ RunStatus.running ∷ RunStatus.planned
    ∷ RunStatus.accepted ∷ RunStatus.draft ∷ [])
unfolding validate validate_completion validate_contract_version require_criteria missing_criteria
    required_completion_gate is_listed extend insert contains
finished_run =
    moved RunStatus.completed (some evidence)
      (moved RunStatus.reviewing none
        (moved RunStatus.running none
          (moved RunStatus.planned none (moved RunStatus.accepted none created refl) refl) refl)
        refl)
      refl

completed-Passed_example : Passed (needs_audit goal []) (needs_review goal []) (
    RunStatus.reviewing ∷ RunStatus.running ∷ RunStatus.planned ∷ RunStatus.accepted
    ∷ RunStatus.draft ∷ [])
completed-Passed_example =
    completed-Passed goal []
      (RunStatus.reviewing ∷ RunStatus.running ∷ RunStatus.planned ∷ RunStatus.accepted
        ∷ RunStatus.draft ∷ [])
      finished_run
