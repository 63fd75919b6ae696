-- ===== src/Lifecycle/Release.antt =====
-- `require_active_owner` and `release_current_lease`.
use ovca_core.Prelude.{
  String, not, ◌||◌, Option, none, some, ok, ◌>>=◌, ◌>>◌, reject_if, ok_or, expect, leb,
}
use ovca_core.Collections.Order.{◌=?◌, string_ord}
use ovca_core.Collections.BTreeMap.{BTreeMap, get, insert, retain}
use ovca_core.Collections.BTreeSet.{contains}
use ovca_core.Goal.Ids.{DateTime, LeaseId, Role, role_ord, TaskId, WorkerId}
use ovca_core.Goal.Task.{TaskLease, TaskStatus, task_status_ord}
use ovca_core.Lifecycle.State.{
  Attempt, ExecutionLifecycleError, ExecutionLifecycleKernel, TaskExecutionSnapshot, WriteKeyOwner,
  validate_role,
}

unfoldable pub require_active_owner :
    ExecutionLifecycleKernel → TaskId → WorkerId → Role → LeaseId → DateTime → Attempt TaskLease
require_active_owner k task_id worker_id worker_role lease_id now = do
  task ← ok_or (get task_id k.tasks) (ExecutionLifecycleError.unknown_task task_id)
  validate_role task_id task.assigned_role worker_role
  state ← expect (get task_id k.state)
  reject_if (not (state.status =? TaskStatus.running))
      (ExecutionLifecycleError.task_not_claimable task_id state.status)
  lease ← ok_or state.current_lease (ExecutionLifecycleError.no_current_lease task_id)
  reject_if (not (lease.worker_role =? worker_role))
      (ExecutionLifecycleError.role_mismatch task_id lease.worker_role worker_role)
  reject_if (not (lease.worker_id =? worker_id)) (ExecutionLifecycleError.worker_mismatch task_id)
  reject_if (not (lease.lease_id =? lease_id)) (ExecutionLifecycleError.lease_mismatch task_id)
  reject_if (leb lease.expires_at now) (ExecutionLifecycleError.lease_expired task_id)
  ok lease

-- `write_key_owners.retain(…)` of `release_current_lease`, for the lease that was taken.
unfoldable pub release_keys :
    TaskId → TaskLease → BTreeMap String WriteKeyOwner → BTreeMap String WriteKeyOwner
release_keys task_id lease = retain λ write_key owner.
    not (contains write_key lease.write_keys)
    || not (owner.task_id =? task_id)
    || not (owner.lease_id =? lease.lease_id)

abbrev release_taken :
    TaskId
    → TaskExecutionSnapshot
    → Option TaskLease
    → ExecutionLifecycleKernel
    → ExecutionLifecycleKernel
release_taken task_id state none k = k
release_taken task_id state (some lease) k = record k {
  state = insert task_id (record state { current_lease = none }) k.state;
  write_key_owners = release_keys task_id lease k.write_key_owners;
}

abbrev release_state :
    TaskId → Option TaskExecutionSnapshot → ExecutionLifecycleKernel → ExecutionLifecycleKernel
release_state task_id none k = k
release_state task_id (some state) k = release_taken task_id state state.current_lease k

unfoldable pub release_current_lease : TaskId → ExecutionLifecycleKernel → ExecutionLifecycleKernel
release_current_lease task_id k = release_state task_id (get task_id k.state) k
