-- ===== src/Goal/Transition/Completion.antt =====
-- When a run may complete: an independent account of what the validation asks for.
use mathlib.Core.List.{Mem, mem-cons, mem-cons_self, mem-cons_of_mem, not-mem-nil}
use mathlib.Core.List.{Mem-prop}
use mathlib.Core.Logic.Or
use ovca_core.Prelude.{
  ◌≤◌, ◌%◌, ◌^◌, max, String, Bool, true, false, ◌≡◌, refl, ◌↔◌, Option, none, some, List, [], ◌∷◌,
  ok, arith, inl, inr, Bool-cases, length, is_empty,
}
use ovca_core.Collections.Order.{string_ord, =?_iff}
use ovca_core.Collections.BTreeSet.{BTreeSet, collect}
use ovca_core.Collections.BTreeSet.Membership.{contains-collect_iff}
use ovca_core.Goal.Ids.{ContractVersion, goal_runtime_contract_version}
use ovca_core.Goal.Policy.{GuardRequirement, guard_requirement_ord}
use ovca_core.Goal.Task.{GoalContract}
use ovca_core.Goal.Evidence.{CompletionEvidence}
use ovca_core.Goal.Run.{RunStatus, is_terminal, run_status_ord}
use ovca_core.Goal.Transition.{
  RunTransitionError, is_listed, required_completion_gate, validate_contract_version,
  missing_criteria, require_criteria, validate_completion,
  validate_run_transition_with_guard_requirements as validate,
}

version_iff :
    (contract : String) (v : ContractVersion)
    → (validate_contract_version contract v ≡ ok tt) ↔ (v ≡ goal_runtime_contract_version)
unfolding validate_contract_version
version_iff contract v = ground arith

-- Every criterion of the first list is a member of the second.
abbrev pub Covers : List String → List String → Type 0
Covers satisfied criteria = (c : String) → Mem c criteria → Mem c satisfied

none_missing :
    (criteria satisfied : List String)
    → is_empty (missing_criteria criteria (collect satisfied)) ≡ true
    → Covers satisfied criteria
unfolding missing_criteria
none_missing [] satisfied h c m = absurd (not-mem-nil m)
none_missing (d ∷ criteria) satisfied h c m =
    Or.elim Mem-prop (mem-cons.0 m) (λ e. (contains-collect_iff c satisfied).0 (ground (arith, e)))
      (none_missing criteria satisfied (ground arith) c)

covered :
    (criteria satisfied : List String)
    → Covers satisfied criteria
    → is_empty (missing_criteria criteria (collect satisfied)) ≡ true
unfolding missing_criteria
covered [] satisfied h = refl
covered (d ∷ criteria) satisfied h =
    let here = (contains-collect_iff d satisfied).1 (h d mem-cons_self) in
    ground (arith, here, covered criteria satisfied (λ c m. h c (mem-cons_of_mem d m)))

criteria_iff :
    (required : Bool) (criteria satisfied : List String) (error : List String → RunTransitionError)
    → (require_criteria required criteria satisfied error ≡ ok tt)
      ↔ (required ≡ true → Covers satisfied criteria)
unfolding require_criteria
criteria_iff required criteria satisfied error = (
  λ h r. none_missing criteria satisfied (ground arith),
  λ h. elim (Bool-cases required) [
    | inl r ↦ ground (arith, covered criteria satisfied (h r))
    | inr r ↦ ground arith
  ],
)

-- What a run that stops in `from` has to show.
pub record IsProven (from : RunStatus) (goal : GoalContract) (evidence : CompletionEvidence)
    (gates : BTreeSet GuardRequirement) : Type 0 where
  pub goal_version : goal.contract_version ≡ goal_runtime_contract_version
  pub profile_version : goal.permission_profile.contract_version ≡ goal_runtime_contract_version
  pub precondition_version :
      goal.completion_precondition.contract_version ≡ goal_runtime_contract_version
  pub evidence_version : evidence.contract_version ≡ goal_runtime_contract_version
  pub gate : from ≡ required_completion_gate goal.permission_profile gates
  pub enough :
      max goal.completion_precondition.minimum_evidence_refs 1
      ≤ length (collect evidence.evidence_refs) % 2 ^ 32
  pub acceptance :
      goal.completion_precondition.require_all_acceptance_criteria ≡ true
      → Covers evidence.satisfied_acceptance_criteria goal.acceptance_criteria
  pub verification :
      goal.completion_precondition.require_all_verification_criteria ≡ true
      → Covers evidence.satisfied_verification_criteria goal.verification_criteria
  pub done : Covers evidence.satisfied_definition_of_done goal.definition_of_done

module _ (from : RunStatus) (g : GoalContract) (e : CompletionEvidence)
    (gates : BTreeSet GuardRequirement) where
  proven : validate_completion from (some g) (some e) gates ≡ ok tt → IsProven from g e gates
  unfolding validate_completion
  proven h = record {
    goal_version = (version_iff "goal_contract" _).0 (ground arith);
    profile_version = (version_iff "permission_profile" _).0 (ground arith);
    precondition_version = (version_iff "completion_precondition" _).0 (ground arith);
    evidence_version = (version_iff "completion_evidence" _).0 (ground arith);
    gate = (=?_iff from (required_completion_gate g.permission_profile gates)).0 (ground arith);
    enough = ground arith;
    acceptance =
        (criteria_iff _ g.acceptance_criteria e.satisfied_acceptance_criteria
            RunTransitionError.acceptance_criteria_unsatisfied).0
          (ground arith);
    verification =
        (criteria_iff _ g.verification_criteria e.satisfied_verification_criteria
            RunTransitionError.verification_criteria_unsatisfied).0
          (ground arith);
    done =
        (criteria_iff true g.definition_of_done e.satisfied_definition_of_done
            RunTransitionError.definition_of_done_unsatisfied).0
          (ground arith) refl;
  }

  accepted : IsProven from g e gates → validate_completion from (some g) (some e) gates ≡ ok tt
  unfolding validate_completion
  accepted p =
      simp
        (
          (version_iff "goal_contract" _).1 p.goal_version,
          (version_iff "permission_profile" _).1 p.profile_version,
          (version_iff "completion_precondition" _).1 p.precondition_version,
          (version_iff "completion_evidence" _).1 p.evidence_version,
          (=?_iff from (required_completion_gate g.permission_profile gates)).1 p.gate,
          (criteria_iff _ _ _ RunTransitionError.acceptance_criteria_unsatisfied).1 p.acceptance,
          (criteria_iff _ _ _ RunTransitionError.verification_criteria_unsatisfied).1
              p.verification,
          (criteria_iff true _ _ RunTransitionError.definition_of_done_unsatisfied).1 (λ _. p.done),
        )
        (ground arith)

  gate-listed :
      from ≡ required_completion_gate g.permission_profile gates
      → (is_terminal from ≡ false) × (is_listed from RunStatus.completed ≡ true)
  unfolding is_listed required_completion_gate
  gate-listed h = ground arith

abbrev pub CanComplete :
    RunStatus → Option GoalContract → Option CompletionEvidence → BTreeSet GuardRequirement → Type 0
CanComplete from goal evidence gates =
    (g : GoalContract) × (e : CompletionEvidence) × (goal ≡ some g)
    × (evidence ≡ some e)
    × IsProven from g e gates

proven_of_ok :
    (from : RunStatus) (goal : Option GoalContract) (evidence : Option CompletionEvidence)
    (gates : BTreeSet GuardRequirement)
    → validate from RunStatus.completed goal evidence gates ≡ ok tt
    → CanComplete from goal evidence gates
unfolding validate
proven_of_ok from none evidence gates h = absurd (unfold validate_completion in ground arith)
proven_of_ok from (some g) none gates h = absurd (unfold validate_completion in ground arith)
proven_of_ok from (some g) (some e) gates h =
    (g, e, refl, refl, proven from g e gates (ground arith))

-- A run may go to `completed` exactly when a goal and completion evidence are there whose contract
-- versions are current, it stands at the gate that the policy selects, there are as many distinct
-- evidence references as asked for and at least one, and every criterion of each list that the goal
-- requires is among the satisfied ones.
pub validate-completed_iff :
    (from : RunStatus) (goal : Option GoalContract) (evidence : Option CompletionEvidence)
    (gates : BTreeSet GuardRequirement)
    → (validate from RunStatus.completed goal evidence gates ≡ ok tt)
      ↔ CanComplete from goal evidence gates
unfolding validate
validate-completed_iff from goal evidence gates = (
  proven_of_ok from goal evidence gates,
  λ (g, e, eg, ee, p).
      rw (eg, ee) (ground (arith, gate-listed from g e gates p.gate, accepted from g e gates p)),
)
