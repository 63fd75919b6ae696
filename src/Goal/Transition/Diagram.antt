-- ===== src/Goal/Transition/Diagram.antt =====
-- The life of a run as a diagram, and what the validation of a transition has to do with it.
use ovca_core.Prelude.{true, false, ◌≡◌, refl, ◌≢◌, ◌↔◌, Option, ok, arith}
use ovca_core.Collections.BTreeSet.{BTreeSet}
use ovca_core.Goal.Policy.{GuardRequirement, guard_requirement_ord}
use ovca_core.Goal.Task.{GoalContract}
use ovca_core.Goal.Evidence.{CompletionEvidence}
use ovca_core.Goal.Run.{RunStatus, is_terminal}
use ovca_core.Goal.Transition.{
  is_listed, validate_run_transition_with_guard_requirements as validate,
}

-- The states in which work has begun and not ended.
pub data IsActive : RunStatus → Type 0 where
  at_work : IsActive RunStatus.running
  in_review : IsActive RunStatus.reviewing
  in_audit : IsActive RunStatus.auditing

infix 40 ◌⟶◌
pub data ◌⟶◌ : RunStatus → RunStatus → Type 0 where
  accept : RunStatus.draft ⟶ RunStatus.accepted
  plan : RunStatus.accepted ⟶ RunStatus.planned
  start : RunStatus.planned ⟶ RunStatus.running
  ask_owner : RunStatus.running ⟶ RunStatus.awaiting_approval
  resume : RunStatus.awaiting_approval ⟶ RunStatus.running
  send_to_review : RunStatus.running ⟶ RunStatus.reviewing
  rework : RunStatus.reviewing ⟶ RunStatus.running
  send_to_audit : RunStatus.reviewing ⟶ RunStatus.auditing
  review_again : RunStatus.auditing ⟶ RunStatus.reviewing
  finish : {s : RunStatus} → IsActive s → s ⟶ RunStatus.completed
  break_down : {s : RunStatus} → IsActive s → s ⟶ RunStatus.failed
  lapse : RunStatus.awaiting_approval ⟶ RunStatus.failed
  cancel : {s : RunStatus} → is_terminal s ≡ false → s ⟶ RunStatus.cancelled

ruleset edges = (
  accept, plan, start, ask_owner, resume, send_to_review, rework, send_to_audit, review_again,
  finish, break_down, lapse, cancel, at_work, in_review, in_audit,
)

listed-⟶ : (s t : RunStatus) → is_listed s t ≡ true → s ⟶ t
unfolding is_listed
listed-⟶ s t h = grind (arith, edges)

⟶-listed : {s t : RunStatus} → s ⟶ t → (is_terminal s ≡ false) × (is_listed s t ≡ true)
unfolding is_listed
⟶-listed accept = (refl, refl)
⟶-listed plan = (refl, refl)
⟶-listed start = (refl, refl)
⟶-listed ask_owner = (refl, refl)
⟶-listed resume = (refl, refl)
⟶-listed send_to_review = (refl, refl)
⟶-listed rework = (refl, refl)
⟶-listed send_to_audit = (refl, refl)
⟶-listed review_again = (refl, refl)
⟶-listed (finish at_work) = (refl, refl)
⟶-listed (finish in_review) = (refl, refl)
⟶-listed (finish in_audit) = (refl, refl)
⟶-listed (break_down at_work) = (refl, refl)
⟶-listed (break_down in_review) = (refl, refl)
⟶-listed (break_down in_audit) = (refl, refl)
⟶-listed lapse = (refl, refl)
⟶-listed (cancel {s} h) = (h, ground arith)

module _ (s t : RunStatus) (goal : Option GoalContract) (evidence : Option CompletionEvidence)
    (gates : BTreeSet GuardRequirement) where
  -- A validated transition follows an edge of the diagram.
  pub validate-⟶ : validate s t goal evidence gates ≡ ok tt → s ⟶ t
  unfolding validate
  validate-⟶ h = listed-⟶ s t (ground arith)

  -- A transition that does not complete the run is accepted exactly when it is an edge of the
  -- diagram, whatever goal and evidence come with it.
  pub validate_iff_⟶ :
      t ≢ RunStatus.completed → (validate s t goal evidence gates ≡ ok tt) ↔ (s ⟶ t)
  unfolding validate
  validate_iff_⟶ n = (validate-⟶, λ e. ground (arith, ⟶-listed e))
