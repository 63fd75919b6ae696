-- ===== src/Replay/Run.antt =====
-- `replay_run`.
use ovca_core.Prelude.{
  ℕ, Option, none, some, List, [], ◌∷◌, map, ok, panic, ◌>>=◌, ◌>>◌, reject_if, not,
}
use ovca_core.Collections.Order.{◌=?◌, string_ord}
use ovca_core.Collections.BTreeMap.{collect_from}
use ovca_core.Collections.BTreeSet.{BTreeSet, contains, insert}
use ovca_core.Goal.Ids.{TaskId}
use ovca_core.Goal.Task.{GoalContract, TaskStatus}
use ovca_core.Goal.Run.{RunCreated, RunEvent, RunEventPayload, RunRecord, RunStatus, run_status_ord}
use ovca_core.Replay.{ReplayError, Replayed, ReplayedRun}
use ovca_core.Replay.Chain.{validate_event_chain}
use ovca_core.Replay.Steps.{ReplayState, apply_events}

abbrev pub check_goal_contract : RunCreated → Option GoalContract → Replayed (Unit {0})
check_goal_contract created none = ok tt
check_goal_contract created (some goal) = do
  reject_if (not (goal.id =? created.goal_id))
      (ReplayError.goal_contract_id_mismatch created.goal_id goal.id)
  reject_if (not (goal.project_id =? created.project_id))
      (ReplayError.goal_contract_project_id_mismatch created.project_id goal.project_id)

-- The loop that collects the declared tasks.
unfoldable pub declare_tasks : ℕ → BTreeSet TaskId → List TaskId → Replayed (BTreeSet TaskId)
declare_tasks sequence declared_tasks [] = ok declared_tasks
declare_tasks sequence declared_tasks (task_id ∷ rest) = do
  reject_if (contains task_id declared_tasks) (ReplayError.duplicate_declared_task sequence task_id)
  declare_tasks sequence (insert task_id declared_tasks) rest

module _ {Value : Type 0} where
  abbrev pub initial_record : RunEvent Value → RunCreated → RunRecord
  initial_record first created = record {
    contract_version = first.contract_version;
    id = first.run_id;
    project_id = created.project_id;
    goal_id = created.goal_id;
    task_ids = created.task_ids;
    status = created.status;
    event_count = 0;
    last_event_sequence = none;
    last_event_id = none;
    evidence_refs = [];
    created_at = created.created_at;
    updated_at = created.updated_at;
    started_at = created.started_at;
    finished_at = created.finished_at;
  }

  abbrev pub initial_replay : RunEvent Value → RunCreated → ReplayState
  initial_replay first created = record {
    replayed = record {
      run_record = initial_record first created;
      execution_plan = none;
      task_statuses = collect_from [] (map (λ id. (id, TaskStatus.pending)) created.task_ids);
      evidence_references = [];
      guard_outcomes = [];
      review_audit_requirements = none;
      review_decisions = [];
      audit_decisions = [];
      completion_evidence = none;
      specialist_outputs = [];
      coordinator_final_response = none;
    };
    evidence_ids = [];
    review_decision_ids = [];
    audit_decision_ids = [];
  }

  -- After the `let … else`.
  unfoldable pub replay_created :
      RunEvent Value
      → RunCreated
      → List (RunEvent Value)
      → Option GoalContract
      → Replayed ReplayedRun
  replay_created first created events goal = do
    reject_if (not (created.status =? RunStatus.draft))
        (ReplayError.initial_run_status_mismatch first.id RunStatus.draft created.status)
    check_goal_contract created goal
    declared_tasks ← declare_tasks first.sequence [] created.task_ids
    last ← apply_events goal declared_tasks events (initial_replay first created)
    ok last.replayed

  -- The last case is `unreachable!()`.
  abbrev pub replay_payload :
      RunEvent Value
      → RunEventPayload
      → List (RunEvent Value)
      → Option GoalContract
      → Replayed ReplayedRun
  replay_payload first (RunEventPayload.run_created created) events goal =
      replay_created first created events goal
  replay_payload first _ events goal = panic

  abbrev pub replay_valid : List (RunEvent Value) → Option GoalContract → Replayed ReplayedRun
  replay_valid [] goal = panic
  replay_valid (first ∷ events) goal = replay_payload first first.payload (first ∷ events) goal

  unfoldable pub replay_run : List (RunEvent Value) → Option GoalContract → Replayed ReplayedRun
  replay_run events goal = do run_id ← validate_event_chain events; replay_valid events goal
