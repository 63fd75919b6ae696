-- ===== src/Lifecycle/Claim.antt =====
-- `apply_claim` and `claim`. A command works on a copy of the kernel, which replaces it on success and
-- is dropped on an error; so an error leaves the kernel as it was.
use ovca_core.Prelude.{
  ℕ, ◌+◌, ◌%◌, ◌^◌, String, Bool, not, ◌&&◌, Option, none, some, List, [], ◌∷◌, ok, err, ◌>>=◌,
  ◌>>◌, reject_if, ok_or, expect, ltb, leb,
}
use ovca_core.Collections.Order.{◌=?◌, string_ord}
use ovca_core.Collections.BTreeMap.{BTreeMap, get, insert, retain}
use ovca_core.Collections.BTreeSet.{collect}
use ovca_core.Goal.Ids.{DateTime, role_ord, TaskId, goal_runtime_contract_version}
use ovca_core.Goal.Task.{Task, TaskLease, TaskStatus, task_status_ord}
use ovca_core.Lifecycle.State.{
  Attempt, ClaimRequest, ExecutionLifecycleError, ExecutionLifecycleKernel, TaskExecutionSnapshot,
  WriteKeyOwner, validate_role,
}

-- The `match` on the status of the task that is claimed.
unfoldable pub check_claimable : ClaimRequest → TaskStatus → Option TaskLease → Attempt (Unit {0})
check_claimable request TaskStatus.pending lease = ok tt
check_claimable request TaskStatus.ready lease = ok tt
check_claimable request TaskStatus.running (some lease) =
    reject_if (ltb request.now lease.expires_at)
      (ExecutionLifecycleError.active_task_lease request.task_id lease.lease_id)
check_claimable request status lease =
    err (ExecutionLifecycleError.task_not_claimable request.task_id status)

unfoldable pub check_dependencies :
    ExecutionLifecycleKernel → TaskId → List TaskId → Attempt (Unit {0})
check_dependencies k task_id [] = ok tt
check_dependencies k task_id (dependency_id ∷ rest) = do
  dependency ← expect (get dependency_id k.state)
  reject_if (not (dependency.status =? TaskStatus.completed))
      (ExecutionLifecycleError.dependency_incomplete task_id dependency_id dependency.status)
  check_dependencies k task_id rest

abbrev conflicts : ClaimRequest → WriteKeyOwner → Bool
conflicts request owner = ltb request.now owner.expires_at && not (owner.task_id =? request.task_id)

check_owner : ClaimRequest → String → Option WriteKeyOwner → Attempt (Unit {0})
check_owner request write_key none = ok tt
check_owner request write_key (some owner) =
    reject_if (conflicts request owner)
      (ExecutionLifecycleError.write_key_conflict write_key owner.task_id)

unfoldable pub check_write_keys :
    ClaimRequest → BTreeMap String WriteKeyOwner → List String → Attempt (Unit {0})
unfolding check_owner
check_write_keys request owners [] = ok tt
check_write_keys request owners (write_key ∷ rest) =
    check_owner request write_key (get write_key owners) >> check_write_keys request owners rest

-- The loop that makes the new lease the owner of each of its keys.
unfoldable pub own_keys :
    WriteKeyOwner → List String → BTreeMap String WriteKeyOwner → BTreeMap String WriteKeyOwner
own_keys owner [] owners = owners
own_keys owner (write_key ∷ rest) owners = own_keys owner rest (insert write_key owner owners)

unfoldable pub is_live : DateTime → WriteKeyOwner → Bool
is_live now owner = ltb now owner.expires_at

-- The lease and the state that a claim ends with, once all its tests have passed.
abbrev pub new_lease : ExecutionLifecycleKernel → ClaimRequest → Task → ℕ → TaskLease
new_lease k request task attempt = record {
  contract_version = goal_runtime_contract_version;
  run_id = k.run_id;
  task_id = request.task_id;
  worker_id = request.worker_id;
  worker_role = request.worker_role;
  lease_id = request.lease_id;
  write_keys = collect task.write_keys;
  attempt = attempt;
  max_attempts = k.retry_budget.max_attempts;
  claimed_at = request.now;
  heartbeat_at = request.now;
  expires_at = request.expires_at;
}

abbrev pub new_owner : ClaimRequest → WriteKeyOwner
new_owner request = record {
  task_id = request.task_id;
  worker_id = request.worker_id;
  lease_id = request.lease_id;
  expires_at = request.expires_at;
}

unfoldable pub claimed :
    ExecutionLifecycleKernel
    → ClaimRequest
    → Task
    → TaskExecutionSnapshot
    → ℕ
    → ExecutionLifecycleKernel
claimed k request task current attempt =
    let live = retain (λ _ owner. is_live request.now owner) k.write_key_owners in
    record k {
      write_key_owners = own_keys (new_owner request) (collect task.write_keys) live;
      state =
          insert request.task_id
            (record {
              status = TaskStatus.running;
              attempts = attempt;
              current_lease = some (new_lease k request task attempt);
              terminal_record = none;
              last_failure_reason = current.last_failure_reason;
            })
            k.state;
    }

-- `current.attempts + 1` on u32, as it wraps in a release build.
unfoldable pub apply_claim :
    ExecutionLifecycleKernel → ClaimRequest → Attempt (TaskLease × ExecutionLifecycleKernel)
apply_claim k request = do
  task ← ok_or (get request.task_id k.tasks) (ExecutionLifecycleError.unknown_task request.task_id)
  validate_role request.task_id task.assigned_role request.worker_role
  reject_if (leb request.expires_at request.now)
      (ExecutionLifecycleError.invalid_lease_expiry request.task_id)
  current ← expect (get request.task_id k.state)
  check_claimable request current.status current.current_lease
  check_dependencies k request.task_id task.dependencies
  let attempt = (current.attempts + 1) % 2 ^ 32
  reject_if (ltb k.retry_budget.max_attempts attempt)
      (ExecutionLifecycleError.retry_exhausted request.task_id k.retry_budget.max_attempts)
  check_write_keys request k.write_key_owners (collect task.write_keys)
  ok (new_lease k request task attempt, claimed k request task current attempt)
