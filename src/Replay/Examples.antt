-- ===== src/Replay/Examples.antt =====
-- A run of a goal that needs a review and an audit, from its creation to its completion.
use ovca_core.Prelude.{ℕ, String, ◌≡◌, ◌↔◌, refl, Option, none, some, List, [], ◌∷◌, ok, is_blank}
use ovca_core.Collections.Order.{string_ord, pair_ord}
use ovca_core.Collections.BTreeMap.{get, insert, collect_from}
use ovca_core.Collections.BTreeSet.{contains, extend, insert as add}
use ovca_core.ReviewAudit.{declared_criteria, completion_satisfied_criteria, nonblank_values_from}
use ovca_core.ReviewAudit.Evidence.{
  validate_context, validate_goal, goal_criteria_from, goal_criteria_of_kinds, validate_integrity,
  catalog_from, completion_refs_from, positions_from, satisfied_from, validate_completion_evidence,
  validate_completion_catalog,
}
use ovca_core.ReviewAudit.Assessments.{
  criteria_of_kinds, seen_from, all_seen, in_order_from, validate_criterion_coverage,
  satisfied_criteria, alignment_of_kinds, is_required, derive_verdict, distinct_refs_from,
  is_unsorted, known_refs, validate_assessment_evidence, assessments_from, validate_assessments,
}
use ovca_core.ReviewAudit.Decisions.{
  check_review_fields, validate_review_decision, check_audit_fields, validate_audit_decision,
  derive_review_audit_policy, resolve_verdicts, evaluate_review_audit,
}
use ovca_core.Goal.Ids.{EventId, Role, role_ord}
use ovca_core.Goal.Run.{RunEvent, RunEventPayload, RunStatus, run_status_ord}
use ovca_core.Goal.Transition.{
  is_listed, missing_criteria, require_criteria, required_completion_gate, validate_completion,
  validate_contract_version, validate_run_transition,
  validate_run_transition_with_guard_requirements,
}
use ovca_core.ReviewAudit.Examples.{reviewed_goal, completion_claim, log, review, audit}
use ovca_core.Replay.{ReplayedRun}
use ovca_core.Replay.Chain.{is_run_created, check_event, chain_from, validate_event_chain}
use ovca_core.Replay.Steps.{
  reject_unattached, check_completed, moved_record, transition_status, record_evidence,
  check_assessments, validate_decision_binding, validate_decision_role, record_review, record_audit,
  record_completion, apply_payload, counted, apply_events,
}
use ovca_core.Replay.Run.{declare_tasks, replay_created, replay_run}
use ovca_core.Replay.Links.{IsStream, validate_event_chain_iff}
use ovca_core.Replay.Reflects.{IsOf}
use ovca_core.Replay.Started.{replay_run-IsOf}

abbrev event : ℕ → EventId → Option EventId → Role → RunEventPayload → RunEvent String
event n id previous role payload = record {
  contract_version = 1;
  id = id;
  run_id = "run";
  sequence = n;
  previous_event_id = previous;
  occurred_at = n;
  producer_role = role;
  payload = payload;
  metadata = [];
}

abbrev stream : List (RunEvent String)
stream =
    event 0 "e0" none Role.coordinator (
      RunEventPayload.run_created (record {
        project_id = "project";
        goal_id = "goal";
        task_ids = [];
        status = RunStatus.draft;
        created_at = 1;
        updated_at = 1;
        started_at = none;
        finished_at = none;
      }))
    ∷ event 1 "e1" (some "e0") Role.engineer (RunEventPayload.evidence_reference_recorded log)
    ∷ event 2 "e2" (some "e1") Role.engineer
        (RunEventPayload.completion_evidence_recorded completion_claim)
    ∷ event 3 "e3" (some "e2") Role.coordinator
        (RunEventPayload.status_transition RunStatus.draft RunStatus.accepted)
    ∷ event 4 "e4" (some "e3") Role.coordinator
        (RunEventPayload.status_transition RunStatus.accepted RunStatus.planned)
    ∷ event 5 "e5" (some "e4") Role.coordinator
        (RunEventPayload.status_transition RunStatus.planned RunStatus.running)
    ∷ event 6 "e6" (some "e5") Role.coordinator
        (RunEventPayload.status_transition RunStatus.running RunStatus.reviewing)
    ∷ event 7 "e7" (some "e6") Role.reviewer (RunEventPayload.review_decision_recorded review)
    ∷ event 8 "e8" (some "e7") Role.coordinator
        (RunEventPayload.status_transition RunStatus.reviewing RunStatus.auditing)
    ∷ event 9 "e9" (some "e8") Role.auditor (RunEventPayload.audit_decision_recorded audit)
    ∷ event 10 "e10" (some "e9") Role.coordinator
        (RunEventPayload.status_transition RunStatus.auditing RunStatus.completed)
    ∷ []

abbrev finished : ReplayedRun
finished = record {
  run_record = record {
    contract_version = 1;
    id = "run";
    project_id = "project";
    goal_id = "goal";
    task_ids = [];
    status = RunStatus.completed;
    event_count = 11;
    last_event_sequence = some 10;
    last_event_id = some "e10";
    evidence_refs = "log" ∷ [];
    created_at = 1;
    updated_at = 10;
    started_at = some 5;
    finished_at = some 10;
  };
  execution_plan = none;
  task_statuses = [];
  evidence_references = log ∷ [];
  guard_outcomes = [];
  review_audit_requirements = none;
  review_decisions = review ∷ [];
  audit_decisions = audit ∷ [];
  completion_evidence = some completion_claim;
  specialist_outputs = [];
  coordinator_final_response = none;
}

stream_replays : replay_run stream (some reviewed_goal) ≡ ok finished
unfolding replay_run replay_created declare_tasks validate_event_chain chain_from check_event
    is_run_created apply_events counted apply_payload record_completion record_audit record_review
    validate_decision_role validate_decision_binding check_assessments record_evidence
    transition_status moved_record check_completed reject_unattached is_listed missing_criteria
    require_criteria required_completion_gate validate_completion validate_contract_version
    validate_run_transition validate_run_transition_with_guard_requirements evaluate_review_audit
    validate_audit_decision check_audit_fields derive_review_audit_policy resolve_verdicts
    validate_review_decision check_review_fields validate_context validate_goal goal_criteria_from
    goal_criteria_of_kinds validate_integrity catalog_from completion_refs_from positions_from
    satisfied_from validate_completion_evidence validate_completion_catalog criteria_of_kinds
    seen_from all_seen in_order_from validate_criterion_coverage satisfied_criteria
    alignment_of_kinds is_required derive_verdict distinct_refs_from is_unsorted known_refs
    validate_assessment_evidence assessments_from validate_assessments declared_criteria
    completion_satisfied_criteria nonblank_values_from is_blank get insert contains extend add
    collect_from
stream_replays = refl

validate_event_chain_iff_example : (validate_event_chain stream ≡ ok "run") ↔ IsStream "run" stream
validate_event_chain_iff_example = validate_event_chain_iff stream "run"

replay_run-IsOf_example : IsOf "run" stream finished
replay_run-IsOf_example = replay_run-IsOf stream (some reviewed_goal) finished stream_replays
