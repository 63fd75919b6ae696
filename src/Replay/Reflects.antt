-- ===== src/Replay/Reflects.antt =====
-- The replay of a stream against what its events record.
use mathlib.Core.List.{append-nil, append_assoc}
use ovca_core.Prelude.{
  ◌≡◌, refl, sym, subst, ◌∙◌, ap, Option, List, [], ◌∷◌, ◌++◌, ◌||◌, ok, arith, inl, inr,
  Result-cases,
}
use ovca_core.Collections.Order.{string_ord}
use ovca_core.Collections.BTreeSet.{BTreeSet, contains}
use ovca_core.Goal.Ids.{EvidenceId, RunId, TaskId}
use ovca_core.Goal.Task.{GoalContract}
use ovca_core.Goal.Run.{RunEvent, RunEventPayload, RunStatus, run_status_ord}
use ovca_core.Replay.{ReplayedRun}
use ovca_core.Replay.Steps.{ReplayState, apply_payload, counted, apply_events, first}
use ovca_core.Replay.History.{
  reviews_of, audits_of, evidence_of, claims_of, requirements_in, attached_by, status_of, all_of,
  status_after, all_of-append, status_after-append, first-append, or_first, followed_by-append,
  contains-append,
}
use ovca_core.Replay.Records.{
  Records, unchanged, record_plan-Records, change_task_status-Records, record_evidence-Records,
  record_guard_outcome-Records, record_requirements-Records, record_output-Records,
  record_response-Records, record_review-Records, record_audit-Records, record_completion-Records,
  attach_evidence-Records,
}
use ovca_core.Replay.Transition.{transition_status-IsMoved, transition_status-Records}

module _ {Value : Type 0} where
  -- A run that is what the events so far have recorded.
  pub record IsOf (run_id : RunId) (past : List (RunEvent Value)) (run : ReplayedRun) : Type 0 where
    pub of_id : run.run_record.id ≡ run_id
    pub of_status : run.run_record.status ≡ status_after RunStatus.draft past
    pub of_reviews : run.review_decisions ≡ all_of reviews_of past
    pub of_audits : run.audit_decisions ≡ all_of audits_of past
    pub of_evidence : run.evidence_references ≡ all_of evidence_of past
    pub of_claim : run.completion_evidence ≡ first (all_of claims_of past)
    pub of_requirements : run.review_audit_requirements ≡ first (all_of requirements_in past)

  -- The same of the variables of the loop.
  pub record Reflects (run_id : RunId) (past : List (RunEvent Value)) (s : ReplayState)
      : Type 0 where
    pub run_is : IsOf run_id past s.replayed
    pub attached :
        (k : EvidenceId) → contains k s.evidence_ids ≡ contains k (all_of attached_by past)

  first_of-append :
      {A : Type 0} (f : RunEventPayload → List A) (past : List (RunEvent Value))
      (e : RunEvent Value) (o : Option A)
      → o ≡ first (all_of f past)
      → or_first o (f e.payload) ≡ first (all_of f (past ++ e ∷ []))
  first_of-append f past e o h =
      rw (h, all_of-append f past e) (sym (first-append (all_of f past) (f e.payload)))

  list_of-append :
      {A : Type 0} (f : RunEventPayload → List A) (past : List (RunEvent Value))
      (e : RunEvent Value) (xs : List A)
      → xs ≡ all_of f past
      → xs ++ f e.payload ≡ all_of f (past ++ e ∷ [])
  list_of-append f past e xs h = rw (h, all_of-append f past e) refl

  pub Reflects-step :
      (run_id : RunId) (past : List (RunEvent Value)) (e : RunEvent Value) (s s' : ReplayState)
      → Reflects run_id past s
      → Records e.payload s s'
      → Reflects run_id (past ++ e ∷ []) (counted e s')
  unfolding counted
  Reflects-step run_id past e s s' r c =
      let i = r.run_is in
      record {
        run_is = record {
          of_id = c.same_id ∙ i.of_id;
          of_status =
              c.status_moves
              ∙ ap (status_of e.payload) i.of_status
              ∙ sym (status_after-append RunStatus.draft past e);
          of_reviews =
              c.reviews_grow
              ∙ followed_by-append s.replayed.review_decisions (reviews_of e.payload)
              ∙ list_of-append reviews_of past e s.replayed.review_decisions i.of_reviews;
          of_audits =
              c.audits_grow
              ∙ followed_by-append s.replayed.audit_decisions (audits_of e.payload)
              ∙ list_of-append audits_of past e s.replayed.audit_decisions i.of_audits;
          of_evidence =
              c.evidence_grows
              ∙ followed_by-append s.replayed.evidence_references (evidence_of e.payload)
              ∙ list_of-append evidence_of past e s.replayed.evidence_references i.of_evidence;
          of_claim =
              c.claim_given
              ∙ first_of-append claims_of past e s.replayed.completion_evidence i.of_claim;
          of_requirements =
              c.requirements_given
              ∙ first_of-append requirements_in past e s.replayed.review_audit_requirements
                  i.of_requirements;
        };
        attached = λ k.
            c.attached_grows k
            ∙ ap (λ b. b || contains k (attached_by e.payload)) (r.attached k)
            ∙ sym (contains-append k (all_of attached_by past) (attached_by e.payload))
            ∙ ap (contains k) (sym (all_of-append attached_by past e));
      }

  module _ (goal : Option GoalContract) (declared_tasks : BTreeSet TaskId) where
    pub apply_payload-Records :
        (event : RunEvent Value) (payload : RunEventPayload) (s s' : ReplayState)
        → apply_payload goal declared_tasks event payload s ≡ ok s'
        → Records payload s s'
    unfolding apply_payload
    apply_payload-Records event (RunEventPayload.status_transition from to) s s' h =
        transition_status-Records event.sequence event.occurred_at goal from to s s'
          (transition_status-IsMoved event.sequence event.occurred_at goal from to s s' h)
    apply_payload-Records event (RunEventPayload.run_created c) s s' h =
        unchanged _ s s' (refl, refl, refl, refl, refl, refl) (ground arith) (ground arith)
          (ground arith) (ground arith) (ground arith) (ground arith) (ground arith) (ground arith)
    apply_payload-Records event (RunEventPayload.note_recorded n) s s' h =
        unchanged _ s s' (refl, refl, refl, refl, refl, refl) (ground arith) (ground arith)
          (ground arith) (ground arith) (ground arith) (ground arith) (ground arith) (ground arith)
    apply_payload-Records event (RunEventPayload.execution_plan_recorded p) s s' h =
        record_plan-Records event.sequence s s' declared_tasks p h
    apply_payload-Records event (RunEventPayload.task_status_changed id from to) s s' h =
        change_task_status-Records event.sequence s s' id from to h
    apply_payload-Records event (RunEventPayload.evidence_attached id) s s' h =
        subst (Records (RunEventPayload.evidence_attached id) s) (cc h)
          (attach_evidence-Records id s)
    apply_payload-Records event (RunEventPayload.evidence_reference_recorded p) s s' h =
        record_evidence-Records event.sequence s s' p h
    apply_payload-Records event (RunEventPayload.guard_outcome_recorded p) s s' h =
        record_guard_outcome-Records event.sequence s s' p h
    apply_payload-Records event (RunEventPayload.review_audit_requirements_recorded p) s s' h =
        record_requirements-Records event.sequence s s' p h
    apply_payload-Records event (RunEventPayload.review_decision_recorded d) s s' h =
        record_review-Records event.sequence s s' event.producer_role d h
    apply_payload-Records event (RunEventPayload.audit_decision_recorded d) s s' h =
        record_audit-Records event.sequence s s' event.producer_role d h
    apply_payload-Records event (RunEventPayload.completion_evidence_recorded c) s s' h =
        record_completion-Records event.sequence s s' c h
    apply_payload-Records event (RunEventPayload.specialist_output_recorded p) s s' h =
        record_output-Records event.sequence s s' event.producer_role declared_tasks p h
    apply_payload-Records event (RunEventPayload.coordinator_final_response_recorded p) s s' h =
        record_response-Records event.sequence s s' event.producer_role p h

    pub apply_first :
        (x : RunEvent Value) (events : List (RunEvent Value)) (s s' : ReplayState)
        → apply_events goal declared_tasks (x ∷ events) s ≡ ok s'
        → (next : ReplayState) × (apply_payload goal declared_tasks x x.payload s ≡ ok next)
          × (apply_events goal declared_tasks events (counted x next) ≡ ok s')
    unfolding apply_events
    apply_first x events s s' h =
        elim (Result-cases (apply_payload goal declared_tasks x x.payload s)) [
          | inr (inl (e, ee)) ↦ absurd (ground arith)
          | inr (inr ep) ↦ absurd (ground arith)
          | inl (next, en) ↦ (next, en, ground arith)
        ]

    -- The events of a stream, one after the other, from a state that reflects the events before.
    pub apply_events-Reflects :
        (run_id : RunId) (past events : List (RunEvent Value)) (s s' : ReplayState)
        → Reflects run_id past s
        → apply_events goal declared_tasks events s ≡ ok s'
        → Reflects run_id (past ++ events) s'
    unfolding apply_events
    apply_events-Reflects run_id past [] s s' r h =
        let e : s ≡ s' = cc h in rw (append-nil past) (subst (Reflects run_id past) e r)
    apply_events-Reflects run_id past (x ∷ events) s s' r h =
        let (next, en, rest) = apply_first x events s s' h in
        rw (← append_assoc past (x ∷ []) events) (
          apply_events-Reflects run_id (past ++ x ∷ []) events (counted x next) s'
            (Reflects-step run_id past x s next r (apply_payload-Records x x.payload s next en))
            rest)
