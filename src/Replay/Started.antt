-- ===== src/Replay/Started.antt =====
-- A replay that succeeds, taken apart into its loop and what the loop starts from.
use ovca_core.Prelude.{
  ◌≡◌, refl, Option, List, [], ◌∷◌, ok, arith, inl, inr, Result-cases, subst, sym,
}
use ovca_core.Collections.Order.{=?_iff, string_ord}
use ovca_core.Collections.BTreeSet.{BTreeSet, contains}
use ovca_core.Goal.Ids.{TaskId}
use ovca_core.Goal.Task.{GoalContract}
use ovca_core.Goal.Run.{RunCreated, RunEvent, RunEventPayload, RunStatus, run_status_ord}
use ovca_core.Replay.{ReplayedRun}
use ovca_core.Replay.Chain.{validate_event_chain}
use ovca_core.Replay.Steps.{ReplayState, apply_events}
use ovca_core.Replay.Run.{replay_run, replay_payload, replay_created, declare_tasks, initial_replay}
use ovca_core.Replay.Reflects.{IsOf, Reflects, apply_events-Reflects}

module _ {Value : Type 0} where
  pub record IsRun (events : List (RunEvent Value)) (goal : Option GoalContract) (run : ReplayedRun)
      : Type 0 where
    pub declared : BTreeSet TaskId
    pub start : ReplayState
    pub last : ReplayState
    pub start-Reflects : Reflects {Value = Value} start.replayed.run_record.id [] start
    pub start_draft : start.replayed.run_record.status ≡ RunStatus.draft
    pub ran : apply_events goal declared events start ≡ ok last
    pub gives : last.replayed ≡ run

  initial-Reflects :
      (event : RunEvent Value) (created : RunCreated)
      → created.status ≡ RunStatus.draft
      → Reflects {Value = Value} event.run_id [] (initial_replay event created)
  unfolding contains
  initial-Reflects event created draft = record {
    run_is = record {
      of_id = refl;
      of_status = draft;
      of_reviews = refl;
      of_audits = refl;
      of_evidence = refl;
      of_claim = refl;
      of_requirements = refl;
    };
    attached = λ k. refl;
  }

  replay_created-IsRun :
      (event : RunEvent Value) (created : RunCreated) (events : List (RunEvent Value))
      (goal : Option GoalContract) (run : ReplayedRun)
      → replay_created event created events goal ≡ ok run
      → IsRun events goal run
  unfolding replay_created
  replay_created-IsRun event created events goal run h =
      elim (Result-cases (declare_tasks event.sequence [] created.task_ids)) [
        | inr (inl (e, ee)) ↦ absurd (ground arith)
        | inr (inr ep) ↦ absurd (ground arith)
        | inl (declared, ed) ↦
            elim (Result-cases (apply_events goal declared events (initial_replay event created))) [
              | inr (inl (e, ee)) ↦ absurd (ground arith)
              | inr (inr ep) ↦ absurd (ground arith)
              | inl (last, el) ↦
                  let draft : created.status ≡ RunStatus.draft =
                    (=?_iff created.status RunStatus.draft).0 (ground arith) in
                  record {
                    declared = declared;
                    start = initial_replay event created;
                    last = last;
                    start-Reflects = initial-Reflects event created draft;
                    start_draft = draft;
                    ran = el;
                    gives = ground arith;
                  }
            ]
      ]

  replay_payload-IsRun :
      (event : RunEvent Value) (payload : RunEventPayload) (events : List (RunEvent Value))
      (goal : Option GoalContract) (run : ReplayedRun)
      → replay_payload event payload events goal ≡ ok run
      → IsRun events goal run
  replay_payload-IsRun event (RunEventPayload.run_created c) events goal run h =
      replay_created-IsRun event c events goal run h
  replay_payload-IsRun event (RunEventPayload.execution_plan_recorded p) events goal run h =
      absurd (cc h)
  replay_payload-IsRun event (RunEventPayload.status_transition x y) events goal run h =
      absurd (cc h)
  replay_payload-IsRun event (RunEventPayload.task_status_changed i x y) events goal run h =
      absurd (cc h)
  replay_payload-IsRun event (RunEventPayload.evidence_attached i) events goal run h = absurd (cc h)
  replay_payload-IsRun event (RunEventPayload.evidence_reference_recorded p) events goal run h =
      absurd (cc h)
  replay_payload-IsRun event (RunEventPayload.guard_outcome_recorded p) events goal run h =
      absurd (cc h)
  replay_payload-IsRun event (RunEventPayload.review_audit_requirements_recorded p) events goal run
        h =
      absurd (cc h)
  replay_payload-IsRun event (RunEventPayload.review_decision_recorded p) events goal run h =
      absurd (cc h)
  replay_payload-IsRun event (RunEventPayload.audit_decision_recorded p) events goal run h =
      absurd (cc h)
  replay_payload-IsRun event (RunEventPayload.completion_evidence_recorded p) events goal run h =
      absurd (cc h)
  replay_payload-IsRun event (RunEventPayload.specialist_output_recorded p) events goal run h =
      absurd (cc h)
  replay_payload-IsRun event (RunEventPayload.coordinator_final_response_recorded p) events goal run
        h =
      absurd (cc h)
  replay_payload-IsRun event (RunEventPayload.note_recorded p) events goal run h = absurd (cc h)

  pub replay_run-IsRun :
      (events : List (RunEvent Value)) (goal : Option GoalContract) (run : ReplayedRun)
      → replay_run events goal ≡ ok run
      → IsRun events goal run
  unfolding replay_run
  replay_run-IsRun [] goal run h = absurd (ground (arith, h))
  replay_run-IsRun (x ∷ events) goal run h =
      elim (Result-cases (validate_event_chain (x ∷ events))) [
        | inr (inl (e, ee)) ↦ absurd (ground arith)
        | inr (inr ep) ↦ absurd (ground arith)
        | inl (id, ei) ↦ replay_payload-IsRun x x.payload (x ∷ events) goal run (ground arith)
      ]

  -- A replayed run has the status that the transitions of the stream lead to from a draft, the
  -- reviews, audits and evidence that its events record, in their order, and the first completion
  -- evidence and the first requirements among them.
  pub replay_run-IsOf :
      (events : List (RunEvent Value)) (goal : Option GoalContract) (run : ReplayedRun)
      → replay_run events goal ≡ ok run
      → IsOf run.run_record.id events run
  replay_run-IsOf events goal run h =
      let r = replay_run-IsRun events goal run h in
      let all =
        apply_events-Reflects goal r.declared r.start.replayed.run_record.id [] events r.start
          r.last r.start-Reflects r.ran in
      let is = subst (IsOf r.start.replayed.run_record.id events) r.gives all.run_is in
      subst (λ i. IsOf i events run) (sym is.of_id) is
