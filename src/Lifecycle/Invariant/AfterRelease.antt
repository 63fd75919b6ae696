-- ===== src/Lifecycle/Invariant/AfterRelease.antt =====
-- The kernel after `require_active_owner` and `release_current_lease`.
use ovca_core.Prelude.{
  ◌≤◌, ◌<◌, String, Bool, true, not, ◌||◌, ◌≡◌, inl, inr, none, some, arith, ok, Bool-cases,
  Option-cases, subst, ◌∙◌, refl,
}
use ovca_core.Collections.Order.{◌=?◌, string_ord, =?_iff}
use ovca_core.Collections.BTreeMap.{get, insert}
use ovca_core.Collections.BTreeMap.Sorted.{retain-IsSorted, get-retain}
use ovca_core.Collections.BTreeMap.Entries.{ForAll-insert, contains_key-insert, get-retain_of}
use ovca_core.Collections.BTreeSet.{contains}
use ovca_core.Goal.Ids.{DateTime, LeaseId, Role, role_ord, TaskId, WorkerId}
use ovca_core.Goal.Task.{Task, TaskLease, TaskStatus, task_status_ord}
use ovca_core.Lifecycle.State.{ExecutionLifecycleKernel, TaskExecutionSnapshot, WriteKeyOwner}
use ovca_core.Lifecycle.Release.{require_active_owner, release_current_lease, release_keys}
use ovca_core.Lifecycle.Invariant.{Holds, IsValid, IsTaskValid, HasValidLease, owner_of}
use ovca_core.Lifecycle.Invariant.Update.{
  Holds-insert, Holds-insert_ne, Holds-lease, HasValidLease-later,
}

-- What `require_active_owner` has seen when it returns a lease.
pub record OwnerFacts (k : ExecutionLifecycleKernel) (id : TaskId) (worker : WorkerId)
    (lease_id : LeaseId) (now : DateTime) (l : TaskLease) : Type 0 where
  pub task : Task
  pub state : TaskExecutionSnapshot
  pub task_found : get id k.tasks ≡ some task
  pub state_found : get id k.state ≡ some state
  pub running : state.status ≡ TaskStatus.running
  pub lease_found : state.current_lease ≡ some l
  pub worker_owns : l.worker_id ≡ worker
  pub lease_named : l.lease_id ≡ lease_id
  pub unexpired : now < l.expires_at

pub require_active_owner-facts :
    (k : ExecutionLifecycleKernel) (id : TaskId) (worker : WorkerId) (role : Role)
    (lease_id : LeaseId) (now : DateTime) (l : TaskLease)
    → require_active_owner k id worker role lease_id now ≡ ok l
    → OwnerFacts k id worker lease_id now l
unfolding require_active_owner
require_active_owner-facts k id worker role lease_id now l h =
    elim (Option-cases (get id k.tasks)) [
      | inl e ↦ absurd (ground arith)
      | inr (task, e) ↦ elim (Option-cases (get id k.state)) [
        | inl e' ↦ absurd (ground arith)
        | inr (state, e') ↦ elim (Option-cases state.current_lease) [
          | inl n ↦ absurd (ground arith)
          | inr (lease, el) ↦
              let same : lease ≡ l = ground arith in
              record {
                task = task;
                state = state;
                task_found = e;
                state_found = e';
                running = (=?_iff state.status TaskStatus.running).0 (ground arith);
                lease_found = rw (← same) el;
                worker_owns = rw (← same) ((=?_iff lease.worker_id worker).0 (ground arith));
                lease_named = rw (← same) ((=?_iff lease.lease_id lease_id).0 (ground arith));
                unexpired = rw (← same) (ground arith);
              }
        ]
      ]
    ]

-- The kernel after the release of a lease and the write of its task.
abbrev pub freed :
    ExecutionLifecycleKernel → TaskId → TaskLease → TaskExecutionSnapshot → ExecutionLifecycleKernel
freed k id lease s = record k {
  state = insert id s k.state;
  write_key_owners = release_keys id lease k.write_key_owners;
}

module _ (k : ExecutionLifecycleKernel) (clock later : DateTime) (id : TaskId) (worker : WorkerId)
    (lease_id : LeaseId) (now : DateTime) (l : TaskLease)
    (f : OwnerFacts k id worker lease_id now l) (s : TaskExecutionSnapshot)
    (no_lease : s.current_lease ≡ none) (s_valid : IsTaskValid k.retry_budget.max_attempts id s)
    (v : IsValid k clock) (forth : clock ≤ later) where
  is_kept : String → WriteKeyOwner → Bool
  is_kept key o =
      not (contains key l.write_keys) || not (o.task_id =? id) || not (o.lease_id =? l.lease_id)

  freed-owners_held :
      (key : String) (o : WriteKeyOwner)
      → get key (release_keys id l k.write_key_owners) ≡ some o
      → (l : TaskLease) × Holds (insert id s k.state) o.task_id l
        × (contains key l.write_keys ≡ true)
        × (o ≡ owner_of o.task_id l)
  unfolding release_keys is_kept
  freed-owners_held key o e =
      let kept = get-retain key is_kept k.write_key_owners v.owners_sorted in
      let found : get key k.write_key_owners ≡ some o = ground (arith, kept) in
      let (l0, h0, c, eo) = v.owners_held key o found in
      elim (Bool-cases (o.task_id =? id)) [
        | inl same ↦
            let ei : o.task_id ≡ id = (=?_iff o.task_id id).0 same in
            let h1 = subst (λ (i : TaskId). Holds k.state i l0) ei h0 in
            let le = Holds-lease k.state id f.state l0 f.state_found h1 in
            let el : l0 ≡ l = cc (le, f.lease_found) in
            let c' = subst (λ (x : TaskLease). contains key x.write_keys ≡ true) el c in
            let named : o.lease_id ≡ l.lease_id = cc (eo, el) in
            let same_lease = (=?_iff o.lease_id l.lease_id).1 named in absurd (ground (arith, kept))
        | inr other ↦ (l0, Holds-insert_ne k.state id s o.task_id l0 other h0, c, eo)
      ]

  freed-leases_own :
      (i : TaskId) (l1 : TaskLease)
      → Holds (insert id s k.state) i l1
      → later < l1.expires_at
      → (key : String) → contains key l1.write_keys ≡ true
      → get key (release_keys id l k.write_key_owners) ≡ some (owner_of i l1)
  unfolding release_keys is_kept
  freed-leases_own i l1 h alive key c = elim (Holds-insert k.state id s i l1 h) [
    | inl (ei, el) ↦ absurd (cc (el, no_lease))
    | inr (other, old) ↦
        let own = v.leases_own i l1 old (omega arith) key c in
        get-retain_of key (owner_of i l1) is_kept k.write_key_owners v.owners_sorted own
          (ground arith)
  ]

  freed-HasValidLease : HasValidLease k.run_id k.retry_budget.max_attempts later k.tasks id s
  freed-HasValidLease t l' et el = absurd (cc (el, no_lease))

  pub freed-IsValid : IsValid (freed k id l s) later
  unfolding release_keys is_kept
  freed-IsValid = record {
    limit_positive = v.limit_positive;
    limit_bounded = v.limit_bounded;
    same_tasks = λ i. contains_key-insert i id s k.state (rw f.state_found refl) ∙ v.same_tasks i;
    dependencies_known = v.dependencies_known;
    tasks_valid =
        ForAll-insert (IsTaskValid k.retry_budget.max_attempts) id s k.state s_valid v.tasks_valid;
    leases_valid =
        ForAll-insert (HasValidLease k.run_id k.retry_budget.max_attempts later k.tasks) id s
          k.state freed-HasValidLease
          λ i s' e.
            HasValidLease-later k.run_id k.retry_budget.max_attempts clock later k.tasks i s' forth
              (v.leases_valid i s' e);
    owners_sorted = retain-IsSorted is_kept k.write_key_owners v.owners_sorted;
    owners_held = freed-owners_held;
    leases_own = freed-leases_own;
  }

pub release-freed :
    (k : ExecutionLifecycleKernel) (id : TaskId) (s : TaskExecutionSnapshot) (l : TaskLease)
    → get id k.state ≡ some s
    → s.current_lease ≡ some l
    → release_current_lease id k ≡ freed k id l (record s { current_lease = none })
unfolding release_current_lease
release-freed k id s l e el = rw (e, el) refl
