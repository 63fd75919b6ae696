-- ===== src/Goal/Transition.antt =====
-- `validate_run_transition` of rust/ovca-types/src/goal_runtime.rs.
pub mod Diagram
pub mod Completion
pub mod History
mod Examples
use ovca_core.Prelude.{
  ℕ, ◌%◌, ◌^◌, String, max, Bool, true, false, not, ◌&&◌, ◌||◌, Option, none, some, List, [], ◌∷◌,
  length, is_empty, any, ltb, ◌==◌, if◌then◌else◌, Result, ok, err, ◌>>=◌, ◌>>◌, reject_if, ok_or,
}
use ovca_core.Collections.Order.{◌=?◌, string_ord}
use ovca_core.Collections.BTreeSet.{BTreeSet, contains, collect}
use ovca_core.Goal.Ids.{ContractVersion, goal_runtime_contract_version}
use ovca_core.Goal.Policy.{PermissionProfile, GuardRequirement, guard_requirement_ord}
use ovca_core.Goal.Task.{GoalContract}
use ovca_core.Goal.Evidence.{CompletionEvidence}
use ovca_core.Goal.Run.{RunStatus, is_terminal, run_status_ord}

pub data RunTransitionError : Type 0 where
  terminal_state : (from to : RunStatus) → RunTransitionError
  invalid_transition : (from to : RunStatus) → RunTransitionError
  completion_contract_missing : RunTransitionError
  completion_evidence_missing : RunTransitionError
  wrong_completion_gate : (from required : RunStatus) → RunTransitionError
  unsupported_contract_version :
      (contract : String) (expected actual : ContractVersion) → RunTransitionError
  insufficient_completion_evidence : (required actual : ℕ) → RunTransitionError
  acceptance_criteria_unsatisfied : (missing : List String) → RunTransitionError
  verification_criteria_unsatisfied : (missing : List String) → RunTransitionError
  definition_of_done_unsatisfied : (missing : List String) → RunTransitionError

abbrev pub Check : Type 0
Check = Result RunTransitionError (Unit {0})

-- `RUN_STATUS_TRANSITIONS`
abbrev run_status_transitions : List (RunStatus × RunStatus)
run_status_transitions =
    (RunStatus.draft, RunStatus.accepted)
    ∷ (RunStatus.draft, RunStatus.cancelled)
    ∷ (RunStatus.accepted, RunStatus.planned)
    ∷ (RunStatus.accepted, RunStatus.cancelled)
    ∷ (RunStatus.planned, RunStatus.running)
    ∷ (RunStatus.planned, RunStatus.cancelled)
    ∷ (RunStatus.running, RunStatus.awaiting_approval)
    ∷ (RunStatus.running, RunStatus.reviewing)
    ∷ (RunStatus.running, RunStatus.completed)
    ∷ (RunStatus.running, RunStatus.failed)
    ∷ (RunStatus.running, RunStatus.cancelled)
    ∷ (RunStatus.awaiting_approval, RunStatus.running)
    ∷ (RunStatus.awaiting_approval, RunStatus.failed)
    ∷ (RunStatus.awaiting_approval, RunStatus.cancelled)
    ∷ (RunStatus.reviewing, RunStatus.running)
    ∷ (RunStatus.reviewing, RunStatus.auditing)
    ∷ (RunStatus.reviewing, RunStatus.completed)
    ∷ (RunStatus.reviewing, RunStatus.failed)
    ∷ (RunStatus.reviewing, RunStatus.cancelled)
    ∷ (RunStatus.auditing, RunStatus.reviewing)
    ∷ (RunStatus.auditing, RunStatus.completed)
    ∷ (RunStatus.auditing, RunStatus.failed)
    ∷ (RunStatus.auditing, RunStatus.cancelled)
    ∷ []

-- `RUN_STATUS_TRANSITIONS.contains(&(from, to))`
unfoldable pub is_listed : RunStatus → RunStatus → Bool
is_listed from to = any (λ e. from =? e.0 && to =? e.1) run_status_transitions

unfoldable pub required_completion_gate : PermissionProfile → BTreeSet GuardRequirement → RunStatus
required_completion_gate profile guard_requirements =
    if profile.audit_required || contains GuardRequirement.auditor guard_requirements
    then RunStatus.auditing
    else if profile.review_required || contains GuardRequirement.reviewer guard_requirements
    then RunStatus.reviewing
    else RunStatus.running

unfoldable pub validate_contract_version : String → ContractVersion → Check
validate_contract_version contract actual =
    if actual == goal_runtime_contract_version
    then ok tt
    else err (
        RunTransitionError.unsupported_contract_version contract goal_runtime_contract_version
          actual)

unfoldable pub missing_criteria : List String → BTreeSet String → List String
missing_criteria [] satisfied = []
missing_criteria (criterion ∷ criteria) satisfied =
    let rest = missing_criteria criteria satisfied in
    if contains criterion satisfied then rest else criterion ∷ rest

-- The test that each of the three criteria lists goes through.
unfoldable pub require_criteria :
    Bool → List String → List String → (List String → RunTransitionError) → Check
require_criteria required criteria satisfied error =
    let missing = missing_criteria criteria (collect satisfied) in
    reject_if (required && not (is_empty missing)) (error missing)

-- The part of the validation that a transition to `completed` goes through.
unfoldable pub validate_completion :
    RunStatus → Option GoalContract → Option CompletionEvidence → BTreeSet GuardRequirement → Check
validate_completion from goal_contract completion_evidence guard_requirements = do
  goal ← ok_or goal_contract RunTransitionError.completion_contract_missing
  validate_contract_version "goal_contract" goal.contract_version
  validate_contract_version "permission_profile" goal.permission_profile.contract_version
  validate_contract_version "completion_precondition" goal.completion_precondition.contract_version
  let required_gate = required_completion_gate goal.permission_profile guard_requirements
  reject_if (not (from =? required_gate))
      (RunTransitionError.wrong_completion_gate from required_gate)
  evidence ← ok_or completion_evidence RunTransitionError.completion_evidence_missing
  validate_contract_version "completion_evidence" evidence.contract_version
  let unique_evidence_count = length (collect evidence.evidence_refs) % 2 ^ 32
  let required_evidence = max goal.completion_precondition.minimum_evidence_refs 1
  reject_if (ltb unique_evidence_count required_evidence)
      (RunTransitionError.insufficient_completion_evidence required_evidence unique_evidence_count)
  require_criteria goal.completion_precondition.require_all_acceptance_criteria
      goal.acceptance_criteria evidence.satisfied_acceptance_criteria
      RunTransitionError.acceptance_criteria_unsatisfied
  require_criteria goal.completion_precondition.require_all_verification_criteria
      goal.verification_criteria evidence.satisfied_verification_criteria
      RunTransitionError.verification_criteria_unsatisfied
  require_criteria true goal.definition_of_done evidence.satisfied_definition_of_done
      RunTransitionError.definition_of_done_unsatisfied

unfoldable pub validate_run_transition_with_guard_requirements :
    RunStatus
    → RunStatus
    → Option GoalContract
    → Option CompletionEvidence
    → BTreeSet GuardRequirement
    → Check
validate_run_transition_with_guard_requirements from to goal_contract completion_evidence
      guard_requirements =
    do
      reject_if (is_terminal from) (RunTransitionError.terminal_state from to)
      reject_if (not (is_listed from to)) (RunTransitionError.invalid_transition from to)
      if not (to =? RunStatus.completed)
          then ok tt
          else validate_completion from goal_contract completion_evidence guard_requirements

unfoldable pub validate_run_transition :
    RunStatus → RunStatus → Option GoalContract → Option CompletionEvidence → Check
validate_run_transition from to goal_contract completion_evidence =
    validate_run_transition_with_guard_requirements from to goal_contract completion_evidence []
