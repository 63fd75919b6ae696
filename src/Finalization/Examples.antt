-- ===== src/Finalization/Examples.antt =====
-- A run whose Coordinator answers after a note.
use ovca_core.Prelude.{String, none, some, [], ◌∷◌, ok, ◌≡◌, ◌↔◌, refl}
use ovca_core.Goal.Ids.{Role}
use ovca_core.Goal.Run.{CoordinatorFinalResponse, RunEvent, RunEventPayload}
use ovca_core.Finalization.{
  FinalizationKernel, new_kernel, accept, finalize, replay_event, replay_from, replay,
}
use ovca_core.Finalization.Once.{AtMostOnce, replay_iff_AtMostOnce, replay-finalize}

abbrev note : RunEvent String
note = record {
  contract_version = 1;
  id = "event-1";
  run_id = "run";
  sequence = 1;
  previous_event_id = none;
  occurred_at = 5;
  producer_role = Role.engineer;
  payload = RunEventPayload.note_recorded "built";
  metadata = [];
}

abbrev answer : CoordinatorFinalResponse
answer = record { contract_version = 1; response = "done"; evidence_refs = [] }

abbrev answering : RunEvent String
answering = record note {
  id = "event-2";
  sequence = 2;
  previous_event_id = some "event-1";
  producer_role = Role.coordinator;
  payload = RunEventPayload.coordinator_final_response_recorded answer;
}

abbrev answered : FinalizationKernel
answered = record { final_response = some answer }

replay_iff_AtMostOnce_example :
    (replay (note ∷ answering ∷ []) ≡ ok answered) ↔ AtMostOnce (note ∷ answering ∷ []) answered
replay_iff_AtMostOnce_example = replay_iff_AtMostOnce (note ∷ answering ∷ []) answered

note_replayed : replay (note ∷ []) ≡ ok new_kernel
unfolding replay replay_from replay_event
note_replayed = refl

answer_accepted :
    finalize new_kernel Role.coordinator answer
    ≡ ok (RunEventPayload.coordinator_final_response_recorded answer, answered)
unfolding finalize accept
answer_accepted = refl

replay-finalize_example : replay (note ∷ answering ∷ []) ≡ ok answered
replay-finalize_example =
    replay-finalize (note ∷ []) new_kernel answered answer answering note_replayed answer_accepted
