-- ===== src/Goal/Transition/History.antt =====
-- The statuses that a run has gone through when every transition was validated.
use mathlib.Core.List.{Memᴰ}
use ovca_core.Prelude.{Bool, true, ◌≡◌, refl, ◌||◌, Option, some, List, [], ◌∷◌, ok, arith}
use ovca_core.Collections.BTreeSet.{BTreeSet, contains}
use ovca_core.Goal.Policy.{GuardRequirement, guard_requirement_ord}
use ovca_core.Goal.Task.{GoalContract}
use ovca_core.Goal.Evidence.{CompletionEvidence}
use ovca_core.Goal.Run.{RunStatus}
use ovca_core.Goal.Transition.{
  required_completion_gate, validate_run_transition_with_guard_requirements as validate,
}
use ovca_core.Goal.Transition.Diagram.{
  ◌⟶◌, accept, plan, start, ask_owner, resume, send_to_review, rework, send_to_audit, review_again,
  finish, break_down, lapse, cancel, validate-⟶,
}
use ovca_core.Goal.Transition.Completion.{validate-completed_iff}

-- The statuses of a run, the latest first. Each transition may come with evidence of its own.
pub data History (goal : GoalContract) (gates : BTreeSet GuardRequirement)
    : List RunStatus → Type 0 where
  created : History goal gates (RunStatus.draft ∷ [])
  moved :
      {s : RunStatus} {past : List RunStatus} (t : RunStatus) (evidence : Option CompletionEvidence)
      → History goal gates (s ∷ past)
      → validate s t (some goal) evidence gates ≡ ok tt
      → History goal gates (t ∷ s ∷ past)

-- What must lie behind a run that stands in the given status.
abbrev Behind : RunStatus → List RunStatus → Type 0
Behind RunStatus.awaiting_approval h = Memᴰ RunStatus.running h
Behind RunStatus.reviewing h = Memᴰ RunStatus.running h
Behind RunStatus.auditing h = Memᴰ RunStatus.reviewing h × Memᴰ RunStatus.running h
Behind _ h = Unit

abbrev BehindHead : List RunStatus → Type 0
BehindHead [] = Unit
BehindHead (s ∷ past) = Behind s past

Behind-step :
    {s t : RunStatus} (past : List RunStatus) → s ⟶ t → Behind s past → Behind t (s ∷ past)
Behind-step past accept b = tt
Behind-step past plan b = tt
Behind-step past start b = tt
Behind-step past ask_owner b = Memᴰ.head refl
Behind-step past resume b = tt
Behind-step past send_to_review b = Memᴰ.head refl
Behind-step past rework b = tt
Behind-step past send_to_audit b = (Memᴰ.head refl, Memᴰ.tail b)
Behind-step past review_again b = Memᴰ.tail b.1
Behind-step past (finish a) b = tt
Behind-step past (break_down a) b = tt
Behind-step past lapse b = tt
Behind-step past (cancel a) b = tt

behind :
    {goal : GoalContract} {gates : BTreeSet GuardRequirement} {h : List RunStatus}
    → History goal gates h
    → BehindHead h
behind created = tt
behind {goal} {gates} (moved {s} {past} t evidence r v) =
    Behind-step past (validate-⟶ s t (some goal) evidence gates v) (behind r)

-- The statuses that a policy sends a run through.
abbrev pub Passed : (audit review : Bool) → List RunStatus → Type 0
Passed audit review past =
    (audit ≡ true → Memᴰ RunStatus.auditing past × Memᴰ RunStatus.reviewing past)
    × (review ≡ true → Memᴰ RunStatus.reviewing past)
    × Memᴰ RunStatus.running past

module _ (goal : GoalContract) (gates : BTreeSet GuardRequirement) where
  abbrev pub needs_audit : Bool
  needs_audit = goal.permission_profile.audit_required || contains GuardRequirement.auditor gates

  abbrev pub needs_review : Bool
  needs_review = goal.permission_profile.review_required || contains GuardRequirement.reviewer gates

  Passed-gate :
      (s : RunStatus) (past : List RunStatus)
      → s ≡ required_completion_gate goal.permission_profile gates
      → Behind s past
      → Passed needs_audit needs_review (s ∷ past)
  unfolding required_completion_gate
  Passed-gate RunStatus.running past e b =
      (λ a. absurd (ground arith), λ r. absurd (ground arith), Memᴰ.head refl)
  Passed-gate RunStatus.reviewing past e b =
      (λ a. absurd (ground arith), λ r. Memᴰ.head refl, Memᴰ.tail b)
  Passed-gate RunStatus.auditing past e b =
      (λ a. (Memᴰ.head refl, Memᴰ.tail b.0), λ r. Memᴰ.tail b.0, Memᴰ.tail b.1)
  Passed-gate s past e b = absurd (ground arith)

  -- However a run came to be completed, it was running before; it was in review before if the
  -- goal or a guard asks for a review; and it was in audit and in review before if the goal or a
  -- guard asks for an audit.
  pub completed-Passed :
      (past : List RunStatus)
      → History goal gates (RunStatus.completed ∷ past)
      → Passed needs_audit needs_review past
  completed-Passed past (moved {s} {past = p} t evidence r v) =
      let (g, e, eg, ee, proven) = (validate-completed_iff s (some goal) evidence gates).0 v in
      let same : goal ≡ g = cc eg in Passed-gate s p (rw same proven.gate) (behind r)
