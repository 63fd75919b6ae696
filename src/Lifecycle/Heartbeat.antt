-- ===== src/Lifecycle/Heartbeat.antt =====
-- `apply_heartbeat`.
use ovca_core.Prelude.{
  String, not, some, List, [], ◌∷◌, ok, ◌>>=◌, ◌>>◌, reject_if, ok_or, expect, leb,
}
use ovca_core.Collections.Order.{◌=?◌, string_ord}
use ovca_core.Collections.BTreeMap.{BTreeMap, get, insert, modify}
use ovca_core.Goal.Ids.{DateTime, role_ord}
use ovca_core.Goal.Task.{TaskLease, task_status_ord}
use ovca_core.Lifecycle.State.{
  Attempt, ExecutionLifecycleError, ExecutionLifecycleKernel, HeartbeatRequest, WriteKeyOwner,
  validate_role,
}

-- The loop of a heartbeat over the keys of its lease.
unfoldable pub extend_owners :
    DateTime → List String → BTreeMap String WriteKeyOwner → Attempt (BTreeMap String WriteKeyOwner)
extend_owners expires_at [] owners = ok owners
extend_owners expires_at (write_key ∷ rest) owners = do
  owner ← expect (get write_key owners)
  extend_owners expires_at rest
      (modify write_key (λ (o : WriteKeyOwner). record o { expires_at = expires_at }) owners)

unfoldable pub apply_heartbeat :
    ExecutionLifecycleKernel → HeartbeatRequest → Attempt (TaskLease × ExecutionLifecycleKernel)
apply_heartbeat k request = do
  task ← ok_or (get request.task_id k.tasks) (ExecutionLifecycleError.unknown_task request.task_id)
  validate_role request.task_id task.assigned_role request.worker_role
  state ← expect (get request.task_id k.state)
  lease ← ok_or state.current_lease (ExecutionLifecycleError.no_current_lease request.task_id)
  reject_if (not (lease.worker_id =? request.worker_id))
      (ExecutionLifecycleError.worker_mismatch request.task_id)
  reject_if (not (lease.lease_id =? request.lease_id))
      (ExecutionLifecycleError.lease_mismatch request.task_id)
  reject_if (leb lease.expires_at request.now)
      (ExecutionLifecycleError.stale_heartbeat request.task_id)
  reject_if (leb request.expires_at lease.expires_at)
      (ExecutionLifecycleError.non_extending_heartbeat request.task_id)
  let lease' = record lease { heartbeat_at = request.now; expires_at = request.expires_at }
  owners ← extend_owners request.expires_at lease.write_keys k.write_key_owners
  ok (
    lease',
    record k {
      state = insert request.task_id (record state { current_lease = some lease' }) k.state;
      write_key_owners = owners;
    },
  )
