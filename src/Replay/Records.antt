-- ===== src/Replay/Records.antt =====
-- What one event changes of a run and of the sets of identifiers.
use ovca_core.Prelude.{
  ℕ, ◌≡◌, inl, inr, refl, sym, ◌∙◌, ap, Bool, true, false, ◌||◌, [], ◌∷◌, ok, arith, Bool-cases,
  Option-cases,
}
use ovca_core.Collections.Order.{string_ord, ◌=?◌, =?_iff}
use ovca_core.Collections.BTreeMap.{get}
use ovca_core.Collections.BTreeSet.{BTreeSet, contains, contains-insert}
use ovca_core.Goal.Policy.{ReviewAuditRequirements, RunGuardProjection}
use ovca_core.Goal.Ids.{EvidenceId, Role, role_ord, TaskId}
use ovca_core.Goal.Task.{TaskStatus, task_status_ord}
use ovca_core.Goal.Evidence.{AuditDecision, CompletionEvidence, EvidenceRef, ReviewDecision}
use ovca_core.Goal.Run.{
  CoordinatorFinalResponse, ExecutionPlan, SpecialistOutput, run_status_ord, RunEventPayload,
}
use ovca_core.Replay.Steps.{
  ReplayState, record_plan, change_task_status, attach_evidence, record_evidence,
  record_guard_outcome, record_requirements, record_review, record_audit, record_completion,
  record_output, record_response,
}
use ovca_core.Replay.History.{
  reviews_of, audits_of, evidence_of, claims_of, requirements_in, attached_by, status_of, or_first,
  followed_by,
}

-- The change that the payload of an event makes.
pub record Records (p : RunEventPayload) (s s' : ReplayState) : Type 0 where
  pub same_id : s'.replayed.run_record.id ≡ s.replayed.run_record.id
  pub status_moves : s'.replayed.run_record.status ≡ status_of p s.replayed.run_record.status
  pub reviews_grow :
      s'.replayed.review_decisions ≡ followed_by s.replayed.review_decisions (reviews_of p)
  pub audits_grow :
      s'.replayed.audit_decisions ≡ followed_by s.replayed.audit_decisions (audits_of p)
  pub evidence_grows :
      s'.replayed.evidence_references ≡ followed_by s.replayed.evidence_references (evidence_of p)
  pub claim_given :
      s'.replayed.completion_evidence ≡ or_first s.replayed.completion_evidence (claims_of p)
  pub requirements_given :
      s'.replayed.review_audit_requirements
      ≡ or_first s.replayed.review_audit_requirements (requirements_in p)
  pub attached_grows :
      (k : EvidenceId)
      → contains k s'.evidence_ids ≡ (contains k s.evidence_ids || contains k (attached_by p))

or_false : (b : Bool) → (b || false) ≡ b
or_false true = refl
or_false false = refl

-- A payload that records nothing changes the status at most.
pub unchanged :
    (p : RunEventPayload) (s s' : ReplayState)
    → (reviews_of p ≡ [])
      × (audits_of p ≡ [])
      × (evidence_of p ≡ [])
      × (claims_of p ≡ [])
      × (requirements_in p ≡ [])
      × (attached_by p ≡ [])
    → s'.replayed.run_record.id ≡ s.replayed.run_record.id
    → s'.replayed.run_record.status ≡ status_of p s.replayed.run_record.status
    → s'.replayed.review_decisions ≡ s.replayed.review_decisions
    → s'.replayed.audit_decisions ≡ s.replayed.audit_decisions
    → s'.replayed.evidence_references ≡ s.replayed.evidence_references
    → s'.replayed.completion_evidence ≡ s.replayed.completion_evidence
    → s'.replayed.review_audit_requirements ≡ s.replayed.review_audit_requirements
    → s'.evidence_ids ≡ s.evidence_ids
    → Records p s s'
unfolding contains
unchanged p s s' empty i status reviews audits evidence claim requirements ids =
    let (pr, pa, pe, pc, pq, pt) = empty in
    record {
      same_id = i;
      status_moves = status;
      reviews_grow = rw pr reviews;
      audits_grow = rw pa audits;
      evidence_grows = rw pe evidence;
      claim_given = rw pc claim;
      requirements_given = rw pq requirements;
      attached_grows =
          λ k. rw pt (ap (contains k) ids ∙ sym (or_false (contains k s.evidence_ids)));
    }

module _ (sequence : ℕ) (s s' : ReplayState) where
  pub record_plan-Records :
      (declared_tasks : BTreeSet TaskId) (p : ExecutionPlan)
      → record_plan sequence declared_tasks p s ≡ ok s'
      → Records (RunEventPayload.execution_plan_recorded p) s s'
  unfolding record_plan
  record_plan-Records declared_tasks p h =
      unchanged _ s s' (refl, refl, refl, refl, refl, refl) (ground arith) (ground arith)
        (ground arith) (ground arith) (ground arith) (ground arith) (ground arith) (ground arith)

  pub change_task_status-Records :
      (id : TaskId) (from to : TaskStatus)
      → change_task_status sequence id from to s ≡ ok s'
      → Records (RunEventPayload.task_status_changed id from to) s s'
  unfolding change_task_status
  change_task_status-Records id from to h = elim (Option-cases (get id s.replayed.task_statuses)) [
    | inl missing ↦ absurd (ground arith)
    | inr (current, e) ↦
        unchanged _ s s' (refl, refl, refl, refl, refl, refl) (ground arith) (ground arith)
          (ground arith) (ground arith) (ground arith) (ground arith) (ground arith) (ground arith)
  ]

  pub record_evidence-Records :
      (p : EvidenceRef)
      → record_evidence sequence p s ≡ ok s'
      → Records (RunEventPayload.evidence_reference_recorded p) s s'
  unfolding record_evidence contains
  record_evidence-Records p h = record {
    same_id = ground arith;
    status_moves = ground arith;
    reviews_grow = ground arith;
    audits_grow = ground arith;
    evidence_grows = ground arith;
    claim_given = ground arith;
    requirements_given = ground arith;
    attached_grows = λ k. ground (arith, contains-insert k p.id s.evidence_ids);
  }

  pub record_guard_outcome-Records :
      (p : RunGuardProjection)
      → record_guard_outcome sequence p s ≡ ok s'
      → Records (RunEventPayload.guard_outcome_recorded p) s s'
  unfolding record_guard_outcome
  record_guard_outcome-Records p h =
      unchanged _ s s' (refl, refl, refl, refl, refl, refl) (ground arith) (ground arith)
        (ground arith) (ground arith) (ground arith) (ground arith) (ground arith) (ground arith)

  pub record_requirements-Records :
      (p : ReviewAuditRequirements)
      → record_requirements sequence p s ≡ ok s'
      → Records (RunEventPayload.review_audit_requirements_recorded p) s s'
  unfolding record_requirements contains
  record_requirements-Records p h = record {
    same_id = ground arith;
    status_moves = ground arith;
    reviews_grow = ground arith;
    audits_grow = ground arith;
    evidence_grows = ground arith;
    claim_given = ground arith;
    requirements_given = ground arith;
    attached_grows = ground arith;
  }

  pub record_output-Records :
      (role : Role) (declared_tasks : BTreeSet TaskId) (p : SpecialistOutput)
      → record_output sequence role declared_tasks p s ≡ ok s'
      → Records (RunEventPayload.specialist_output_recorded p) s s'
  unfolding record_output
  record_output-Records role declared_tasks p h =
      unchanged _ s s' (refl, refl, refl, refl, refl, refl) (ground arith) (ground arith)
        (ground arith) (ground arith) (ground arith) (ground arith) (ground arith) (ground arith)

  pub record_response-Records :
      (role : Role) (p : CoordinatorFinalResponse)
      → record_response sequence role p s ≡ ok s'
      → Records (RunEventPayload.coordinator_final_response_recorded p) s s'
  unfolding record_response
  record_response-Records role p h =
      unchanged _ s s' (refl, refl, refl, refl, refl, refl) (ground arith) (ground arith)
        (ground arith) (ground arith) (ground arith) (ground arith) (ground arith) (ground arith)

  pub record_review-Records :
      (role : Role) (d : ReviewDecision)
      → record_review sequence role d s ≡ ok s'
      → Records (RunEventPayload.review_decision_recorded d) s s'
  unfolding record_review contains
  record_review-Records role d h = record {
    same_id = ground arith;
    status_moves = ground arith;
    reviews_grow = ground arith;
    audits_grow = ground arith;
    evidence_grows = ground arith;
    claim_given = ground arith;
    requirements_given = ground arith;
    attached_grows = ground arith;
  }

  pub record_audit-Records :
      (role : Role) (d : AuditDecision)
      → record_audit sequence role d s ≡ ok s'
      → Records (RunEventPayload.audit_decision_recorded d) s s'
  unfolding record_audit contains
  record_audit-Records role d h = record {
    same_id = ground arith;
    status_moves = ground arith;
    reviews_grow = ground arith;
    audits_grow = ground arith;
    evidence_grows = ground arith;
    claim_given = ground arith;
    requirements_given = ground arith;
    attached_grows = ground arith;
  }

  pub record_completion-Records :
      (c : CompletionEvidence)
      → record_completion sequence c s ≡ ok s'
      → Records (RunEventPayload.completion_evidence_recorded c) s s'
  unfolding record_completion contains
  record_completion-Records c h = record {
    same_id = ground arith;
    status_moves = ground arith;
    reviews_grow = ground arith;
    audits_grow = ground arith;
    evidence_grows = ground arith;
    claim_given = ground arith;
    requirements_given = ground arith;
    attached_grows = ground arith;
  }

already :
    (id k : EvidenceId) (s : BTreeSet EvidenceId)
    → contains id s ≡ true
    → contains k s ≡ (contains k s || contains k (id ∷ []))
unfolding contains
already id k s h = elim (Bool-cases (k =? id)) [
  | inl e ↦ let same : k ≡ id = (=?_iff k id).0 e in rw same (ground (arith, h))
  | inr e ↦ ground arith
]

pub attach_evidence-Records :
    (id : EvidenceId) (s : ReplayState)
    → Records (RunEventPayload.evidence_attached id) s (attach_evidence id s)
unfolding attach_evidence contains
attach_evidence-Records id s = elim (Bool-cases (contains id s.evidence_ids)) [
  | inl old ↦ rw old (record {
    same_id = refl;
    status_moves = refl;
    reviews_grow = refl;
    audits_grow = refl;
    evidence_grows = refl;
    claim_given = refl;
    requirements_given = refl;
    attached_grows = λ k. already id k s.evidence_ids old;
  })
  | inr new ↦ rw new (record {
    same_id = refl;
    status_moves = refl;
    reviews_grow = refl;
    audits_grow = refl;
    evidence_grows = refl;
    claim_given = refl;
    requirements_given = refl;
    attached_grows = λ k. ground (arith, contains-insert k id s.evidence_ids);
  })
]
