-- ===== src/Replay/Completed.antt =====
-- The runs that `replay_run` gives, and what the events of one that has completed must have been.
use mathlib.Core.List.{Mem}
use mathlib.Core.Logic.Or
use ovca_core.Prelude.{true, ◌≡◌, Option, some, List, ◌∷◌, ◌++◌, ok}
use ovca_core.Collections.Order.{string_ord}
use ovca_core.Collections.BTreeSet.{BTreeSet, contains}
use ovca_core.Goal.Ids.{AuditDecisionId, EvidenceId, ReviewDecisionId, RunId, role_ord}
use ovca_core.Goal.Task.{GoalContract}
use ovca_core.Goal.Evidence.{CompletionEvidence, ReviewAuditResolution}
use ovca_core.Goal.Run.{RunEvent, RunEventPayload, RunStatus, run_status_ord}
use ovca_core.Goal.Transition.Completion.{IsProven}
use ovca_core.ReviewAudit.Decisions.{evaluate_review_audit}
use ovca_core.ReviewAudit.Gate.{HasPassed}
use ovca_core.Replay.{ReplayedRun}
use ovca_core.Replay.Steps.{ReplayState, evaluation_context, first}
use ovca_core.Replay.History.{
  reviews_of, audits_of, evidence_of, claims_of, requirements_in, attached_by, gates_of, all_of,
  status_after,
}
use ovca_core.Replay.Reflects.{Reflects}

-- A stream in which the run completes: one of its transitions leads to `completed`, and the events
-- before that one alone have recorded all that it takes.
pub record IsFinished {Value : Type 0} (goal : Option GoalContract) (run_id : RunId)
    (events : List (RunEvent Value)) : Type 0 where
  pub goal_contract : GoalContract
  pub claim : CompletionEvidence
  pub before : List (RunEvent Value)
  pub completing : RunEvent Value
  pub after : List (RunEvent Value)
  pub review_id : Option ReviewDecisionId
  pub audit_id : Option AuditDecisionId
  pub in_stream : events ≡ before ++ completing ∷ after
  pub completes :
      completing.payload
      ≡ RunEventPayload.status_transition (status_after RunStatus.draft before) RunStatus.completed
  pub goal_given : goal ≡ some goal_contract
  pub claimed : first (all_of claims_of before) ≡ some claim
  pub proven :
      IsProven
        (status_after RunStatus.draft before)
        goal_contract
        claim
        (gates_of (all_of requirements_in before))
  pub attached :
      (id : EvidenceId)
      → Mem id claim.evidence_refs
      → contains id (all_of attached_by before) ≡ true
  pub gate_passed :
      HasPassed
        (record {
          expected_run_id = run_id;
          goal_contract = goal_contract;
          completion_evidence = claim;
          evidence_catalog = all_of evidence_of before;
          guard_requirements = gates_of (all_of requirements_in before);
        })
        (first (all_of reviews_of before))
        (first (all_of audits_of before))
        review_id
        audit_id

-- What the tests of a transition to `completed` have seen.
record HasGate (goal : Option GoalContract) (s : ReplayState) : Type 0 where
  pub given : GoalContract
  pub seen : CompletionEvidence
  pub named_review : Option ReviewDecisionId
  pub named_audit : Option AuditDecisionId
  pub goal_found : goal ≡ some given
  pub claim_found : s.replayed.completion_evidence ≡ some seen
  pub all_attached :
      (id : EvidenceId) → Mem id seen.evidence_refs → contains id s.evidence_ids ≡ true
  pub resolved :
      evaluate_review_audit
        (evaluation_context s.replayed.run_record.id given seen s.replayed)
        (first s.replayed.review_decisions)
        (first s.replayed.audit_decisions)
      ≡ ok (ReviewAuditResolution.pass named_review named_audit)

module _ {Value : Type 0} (goal : Option GoalContract) (run_id : RunId) where
  abbrev FinishedIfCompleted : List (RunEvent Value) → ReplayedRun → Type 0
  FinishedIfCompleted events run =
      run.run_record.status ≡ RunStatus.completed → IsFinished goal run_id events
