-- ===== src/Lifecycle/Invariant/OnClaim.antt =====
-- What `apply_claim` has seen when it succeeds.
use ovca_core.Prelude.{
  ◌+◌, ◌%◌, ◌^◌, ◌≤◌, ◌<◌, String, true, ◌≡◌, inl, inr, some, List, [], ◌∷◌, arith, ok, Bool-cases,
  Option-cases, subst, if◌then◌else◌, refl,
}
use ovca_core.Collections.Order.{◌=?◌, string_ord, =?_iff}
use ovca_core.Collections.BTreeMap.{BTreeMap, get, insert, get-insert}
use ovca_core.Collections.BTreeMap.Sorted.{IsSorted, insert-IsSorted}
use ovca_core.Collections.BTreeSet.{contains, collect}
use ovca_core.Goal.Ids.{Role, role_ord, TaskId}
use ovca_core.Goal.Task.{Task, TaskLease, TaskStatus}
use ovca_core.Lifecycle.State.{
  ClaimRequest, ExecutionLifecycleKernel, TaskExecutionSnapshot, WriteKeyOwner, validate_role,
}
use ovca_core.Lifecycle.Claim.{
  apply_claim, check_claimable, check_dependencies, check_write_keys, own_keys, new_lease, claimed,
}
use ovca_core.Lifecycle.Invariant.{is_running}

-- What a successful claim has seen.
pub record ClaimFacts (k : ExecutionLifecycleKernel) (r : ClaimRequest) (l : TaskLease)
    (k' : ExecutionLifecycleKernel) : Type 0 where
  pub task : Task
  pub current : TaskExecutionSnapshot
  pub task_found : get r.task_id k.tasks ≡ some task
  pub state_found : get r.task_id k.state ≡ some current
  pub role_fits : validate_role r.task_id task.assigned_role r.worker_role ≡ ok tt
  pub unexpired : r.now < r.expires_at
  pub claimable : check_claimable r current.status current.current_lease ≡ ok tt
  pub dependencies_done : check_dependencies k r.task_id task.dependencies ≡ ok tt
  pub attempt_left : (current.attempts + 1) % 2 ^ 32 ≤ k.retry_budget.max_attempts
  pub keys_free : check_write_keys r k.write_key_owners (collect task.write_keys) ≡ ok tt
  pub lease_made : l ≡ new_lease k r task ((current.attempts + 1) % 2 ^ 32)
  pub kernel_made : k' ≡ claimed k r task current ((current.attempts + 1) % 2 ^ 32)

pub apply_claim-facts :
    (k : ExecutionLifecycleKernel) (r : ClaimRequest) (l : TaskLease)
    (k' : ExecutionLifecycleKernel)
    → apply_claim k r ≡ ok (l, k')
    → ClaimFacts k r l k'
unfolding apply_claim
apply_claim-facts k r l k' h = elim (Option-cases (get r.task_id k.tasks)) [
  | inl e ↦ absurd (ground arith)
  | inr (task, e) ↦ elim (Option-cases (get r.task_id k.state)) [
    | inl e' ↦ absurd (ground arith)
    | inr (current, e') ↦ record {
      task = task;
      current = current;
      task_found = e;
      state_found = e';
      role_fits = ground arith;
      unexpired = ground arith;
      claimable = ground arith;
      dependencies_done = ground arith;
      attempt_left = ground arith;
      keys_free = ground arith;
      lease_made = ground arith;
      kernel_made = ground arith;
    }
  ]
]

pub get-own_keys :
    (key : String) (o : WriteKeyOwner) (keys : List String) (m : BTreeMap String WriteKeyOwner)
    → get key (own_keys o keys m) ≡ (if contains key keys then some o else get key m)
unfolding own_keys contains
get-own_keys key o [] m = refl
get-own_keys key o (j ∷ keys) m =
    ground (arith, get-own_keys key o keys (insert j o m), get-insert key j o m)

pub own_keys-IsSorted :
    (o : WriteKeyOwner) (keys : List String) (m : BTreeMap String WriteKeyOwner)
    → IsSorted m
    → IsSorted (own_keys o keys m)
unfolding own_keys
own_keys-IsSorted o [] m s = s
own_keys-IsSorted o (j ∷ keys) m s =
    own_keys-IsSorted o keys (insert j o m) (insert-IsSorted j o m s)

-- A key of the claim has no live owner but the task itself.
pub no_conflict :
    (r : ClaimRequest) (owners : BTreeMap String WriteKeyOwner) (keys : List String) (key : String)
    (o : WriteKeyOwner)
    → check_write_keys r owners keys ≡ ok tt
    → contains key keys ≡ true
    → get key owners ≡ some o
    → r.now < o.expires_at
    → (o.task_id =? r.task_id) ≡ true
unfolding check_write_keys contains
no_conflict r owners [] key o h c e live = cc
no_conflict r owners (j ∷ keys) key o h c e live = elim (Bool-cases (key =? j)) [
  | inl same ↦
      let ej : key ≡ j = (=?_iff key j).0 same in
      let found : get j owners ≡ some o = subst (λ (x : String). get x owners ≡ some o) ej e in
      ground arith
  | inr other ↦ no_conflict r owners keys key o (ground arith) (ground arith) e live
]

pub validate_role-eq :
    (id : TaskId) (expected actual : Role)
    → validate_role id expected actual ≡ ok tt
    → actual ≡ expected
unfolding validate_role
validate_role-eq id expected actual h = (=?_iff actual expected).0 (ground arith)

-- A running task that can be claimed has a lease that has expired.
pub claimable-expired :
    (r : ClaimRequest) (s : TaskStatus) (l : TaskLease)
    → check_claimable r s (some l) ≡ ok tt
    → is_running s ≡ true
    → l.expires_at ≤ r.now
unfolding check_claimable
claimable-expired r TaskStatus.running l h e = ground arith
claimable-expired r TaskStatus.pending l h e = absurd cc
claimable-expired r TaskStatus.ready l h e = absurd cc
claimable-expired r TaskStatus.completed l h e = absurd cc
claimable-expired r TaskStatus.cancelled l h e = absurd cc
claimable-expired r TaskStatus.failed l h e = absurd cc
claimable-expired r TaskStatus.awaiting_approval l h e = absurd cc
claimable-expired r TaskStatus.reviewing l h e = absurd cc
