-- ===== src/Lifecycle/Terminal.antt =====
-- `apply_completion`, `apply_cancellation` and `apply_failure`.
use ovca_core.Prelude.{
  String, Bool, true, false, not, ◌&&◌, ◌||◌, Option, none, some, ok, err, ◌>>=◌, ◌>>◌, reject_if,
  ok_or, expect, leb, if◌then◌else◌,
}
use ovca_core.Collections.Order.{◌=?◌, string_ord}
use ovca_core.Collections.BTreeMap.{get, insert}
use ovca_core.Goal.Ids.{
  DateTime, IdempotencyKey, LeaseId, Role, role_ord, TaskId, WorkerId,
  goal_runtime_contract_version,
}
use ovca_core.Goal.Task.{
  TaskStatus, task_status_ord, TaskTerminalOutcome, same_outcome, TaskTerminalRecord,
}
use ovca_core.Lifecycle.State.{
  Attempt, CancellationRequest, CompletionRequest, ExecutionLifecycleError,
  ExecutionLifecycleKernel, FailureRequest, TaskExecutionSnapshot, validate_role,
}
use ovca_core.Lifecycle.Release.{require_active_owner, release_current_lease}

unfoldable pub is_ended : TaskStatus → Bool
is_ended TaskStatus.completed = true
is_ended TaskStatus.failed = true
is_ended TaskStatus.cancelled = true
is_ended _ = false

abbrev pub ended_status : TaskTerminalOutcome → TaskStatus
ended_status TaskTerminalOutcome.completed = TaskStatus.completed
ended_status TaskTerminalOutcome.cancelled = TaskStatus.cancelled

-- The arguments that `apply_terminal` is called with.
pub record TerminalRequest : Type 0 where
  pub task_id : TaskId
  pub worker_id : WorkerId
  pub worker_role : Role
  pub lease_id : LeaseId
  pub idempotency_key : IdempotencyKey
  pub occurred_at : DateTime
  pub outcome : TaskTerminalOutcome
  pub reason : Option String

-- A terminal request for a task that already has a terminal record.
unfoldable pub repeat_terminal : TerminalRequest → TaskTerminalRecord → Attempt TaskTerminalRecord
repeat_terminal request existing =
    if existing.idempotency_key =? request.idempotency_key
      && same_outcome existing.outcome request.outcome
    then (if not (existing.worker_id =? request.worker_id)
          || not (existing.lease_id =? request.lease_id)
        then err (ExecutionLifecycleError.terminal_retry_identity_mismatch request.task_id)
        else ok existing)
    else err (
        ExecutionLifecycleError.idempotency_key_conflict request.task_id existing.idempotency_key
          request.idempotency_key)

abbrev pub new_terminal_record : ExecutionLifecycleKernel → TerminalRequest → TaskTerminalRecord
new_terminal_record k request = record {
  contract_version = goal_runtime_contract_version;
  run_id = k.run_id;
  task_id = request.task_id;
  worker_id = request.worker_id;
  lease_id = request.lease_id;
  idempotency_key = request.idempotency_key;
  outcome = request.outcome;
  occurred_at = request.occurred_at;
  reason = request.reason;
}

-- A terminal request for a task that has none.
unfoldable pub end_task :
    ExecutionLifecycleKernel
    → TerminalRequest
    → TaskExecutionSnapshot
    → Attempt (TaskTerminalRecord × ExecutionLifecycleKernel)
unfolding is_ended
end_task k request state = do
  reject_if (is_ended state.status)
      (ExecutionLifecycleError.task_not_claimable request.task_id state.status)
  lease ←
      require_active_owner k request.task_id request.worker_id request.worker_role request.lease_id
        request.occurred_at
  let terminal = new_terminal_record k request
  let released = release_current_lease request.task_id k
  state' ← expect (get request.task_id released.state)
  ok (
    terminal,
    record released {
      state =
          insert request.task_id
            (record state' {
              status = ended_status request.outcome;
              terminal_record = some terminal;
            })
            released.state;
    },
  )

-- The two ways that `apply_terminal` goes, by whether there is a terminal record.
unfoldable pub terminate :
    ExecutionLifecycleKernel
    → TerminalRequest
    → TaskExecutionSnapshot
    → Option TaskTerminalRecord
    → Attempt (TaskTerminalRecord × ExecutionLifecycleKernel)
terminate k request state none = end_task k request state
terminate k request state (some existing) = do
  terminal ← repeat_terminal request existing
  ok (terminal, k)

unfoldable pub apply_terminal :
    ExecutionLifecycleKernel
    → TerminalRequest
    → Attempt (TaskTerminalRecord × ExecutionLifecycleKernel)
apply_terminal k request = do
  task ← ok_or (get request.task_id k.tasks) (ExecutionLifecycleError.unknown_task request.task_id)
  validate_role request.task_id task.assigned_role request.worker_role
  state ← expect (get request.task_id k.state)
  terminate k request state state.terminal_record

-- The arguments that `apply_completion` passes on.
abbrev pub completion_request : CompletionRequest → TerminalRequest
completion_request request = record {
  task_id = request.task_id;
  worker_id = request.worker_id;
  worker_role = request.worker_role;
  lease_id = request.lease_id;
  idempotency_key = request.idempotency_key;
  occurred_at = request.occurred_at;
  outcome = TaskTerminalOutcome.completed;
  reason = none;
}

unfoldable pub apply_completion :
    ExecutionLifecycleKernel
    → CompletionRequest
    → Attempt (TaskTerminalRecord × ExecutionLifecycleKernel)
apply_completion k request = apply_terminal k (completion_request request)

-- The arguments that `apply_cancellation` passes on.
abbrev pub cancellation_request : CancellationRequest → TerminalRequest
cancellation_request request = record {
  task_id = request.task_id;
  worker_id = request.worker_id;
  worker_role = request.worker_role;
  lease_id = request.lease_id;
  idempotency_key = request.idempotency_key;
  occurred_at = request.occurred_at;
  outcome = TaskTerminalOutcome.cancelled;
  reason = request.reason;
}

unfoldable pub apply_cancellation :
    ExecutionLifecycleKernel
    → CancellationRequest
    → Attempt (TaskTerminalRecord × ExecutionLifecycleKernel)
apply_cancellation k request = apply_terminal k (cancellation_request request)

-- The status after a failed attempt.
unfoldable pub status_after_failure : ExecutionLifecycleKernel → TaskExecutionSnapshot → TaskStatus
status_after_failure k state =
    if leb k.retry_budget.max_attempts state.attempts then TaskStatus.failed else TaskStatus.ready

unfoldable pub apply_failure :
    ExecutionLifecycleKernel → FailureRequest → Attempt (TaskStatus × ExecutionLifecycleKernel)
apply_failure k request = do
  lease ←
      require_active_owner k request.task_id request.worker_id request.worker_role request.lease_id
        request.now
  let released = release_current_lease request.task_id k
  state ← expect (get request.task_id released.state)
  let status = status_after_failure k state
  ok (
    status,
    record released {
      state =
          insert request.task_id
            (record state { status = status; last_failure_reason = some request.reason })
            released.state;
    },
  )
