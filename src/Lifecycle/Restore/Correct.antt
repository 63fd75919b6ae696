-- ===== src/Lifecycle/Restore/Correct.antt =====
-- What `restore` accepts.
use ovca_core.Prelude.{
  ℕ, ◌+◌, ◌^◌, ◌≤◌, ◌<◌, subst, ◌≡◌, inl, inr, refl, sym, ◌∙◌, Option, List, [], ok, arith,
  Result-cases, ap,
}
use ovca_core.Collections.Order.{◌=?◌, string_ord, =?_iff, =?_refl}
use ovca_core.Collections.BTreeMap.{get, keys}
use ovca_core.Collections.BTreeMap.Sorted.{IsSorted}
use ovca_core.Collections.BTreeMap.Extensional.{IsSorted-keys, contains_key-keys}
use ovca_core.Collections.Equality.{
  Decides, ord-Decides, same_list-Decides, same_option-Decides, same_map-Decides,
}
use ovca_core.Goal.Ids.{DateTime, GoalId, LeaseId, RunId, TaskId, WorkerId}
use ovca_core.Goal.Task.{RetryBudget, Task, TaskLease}
use ovca_core.Lifecycle.State.{
  ExecutionLifecycleKernel, ExecutionLifecycleSnapshot, WriteKeyOwner, snapshot,
}
use ovca_core.Lifecycle.Init.{new}
use ovca_core.Lifecycle.Invariant.{IsValid, Holds, IsLeaseValid}
use ovca_core.Lifecycle.Invariant.AfterNew.{new-facts, new-IsValid}
use ovca_core.Lifecycle.Restore.{check_states, restore, same_owner}
use ovca_core.Lifecycle.Restore.States.{AreTaken, check_states-AreTaken}
use ovca_core.Scheduler.Tasks.{index_tasks-IsSorted}

abbrev owner_at : TaskId → WorkerId → LeaseId → DateTime → WriteKeyOwner
owner_at task_id worker_id lease_id expires_at = record {
  task_id = task_id;
  worker_id = worker_id;
  lease_id = lease_id;
  expires_at = expires_at;
}

pub same_owner-Decides : Decides same_owner
same_owner-Decides a b = (
  λ h.
      let e1 : a.task_id ≡ b.task_id = (=?_iff a.task_id b.task_id).0 (ground arith) in
      let e2 : a.worker_id ≡ b.worker_id = (=?_iff a.worker_id b.worker_id).0 (ground arith) in
      let e3 : a.lease_id ≡ b.lease_id = (=?_iff a.lease_id b.lease_id).0 (ground arith) in
      let e4 : a.expires_at ≡ b.expires_at = ground arith in
      let e : owner_at a.task_id a.worker_id a.lease_id a.expires_at
          ≡ owner_at b.task_id b.worker_id b.lease_id b.expires_at =
        rw (e1, e2, e3, e4) refl in
      e,
  λ e. rw e (ground (arith, =?_refl b.task_id, =?_refl b.worker_id, =?_refl b.lease_id)),
)

-- What `restore` has seen of a snapshot when it takes it; `start` is the kernel that `new` makes.
pub record IsRestored (run_id : RunId) (ts : List Task) (b : RetryBudget)
    (snap : ExecutionLifecycleSnapshot) (start : ExecutionLifecycleKernel) : Type 0 where
  pub made : new run_id ts b ≡ ok start
  pub same_run : snap.run_id ≡ run_id
  pub same_goal : snap.goal_id ≡ start.goal_id
  pub same_limit : snap.max_attempts ≡ b.max_attempts
  pub same_keys : keys snap.tasks ≡ keys start.tasks
  pub derived :
      check_states start.run_id b.max_attempts start.tasks snap.tasks [] ≡ ok snap.write_key_owners

abbrev pub with_state :
    ExecutionLifecycleKernel → ExecutionLifecycleSnapshot → ExecutionLifecycleKernel
with_state start snap = record start {
  state = snap.tasks;
  write_key_owners = snap.write_key_owners;
}

pub restore-facts :
    (run_id : RunId) (ts : List Task) (b : RetryBudget) (snap : ExecutionLifecycleSnapshot)
    (k : ExecutionLifecycleKernel)
    → restore run_id ts b snap ≡ ok k
    → (start : ExecutionLifecycleKernel) × IsRestored run_id ts b snap start
      × (k ≡ with_state start snap)
unfolding restore
restore-facts run_id ts b snap k h = elim (Result-cases (new run_id ts b)) [
  | inr (inl (e, ee)) ↦ absurd (ground arith)
  | inr (inr ep) ↦ absurd (ground arith)
  | inl (start, made) ↦
      elim (Result-cases (check_states start.run_id b.max_attempts start.tasks snap.tasks [])) [
        | inr (inl (e, ee)) ↦ absurd (ground arith)
        | inr (inr ep) ↦ absurd (ground arith)
        | inl (owners, eo) ↦
            let same : snap.write_key_owners ≡ owners =
              (same_map-Decides same_owner same_owner-Decides snap.write_key_owners owners).0
                (ground arith) in
            (
              start,
              record {
                made = made;
                same_run = (=?_iff snap.run_id run_id).0 (ground arith);
                same_goal =
                    (same_option-Decides ◌=?◌ ord-Decides snap.goal_id start.goal_id).0
                      (ground arith);
                same_limit = ground arith;
                same_keys =
                    (same_list-Decides ◌=?◌ ord-Decides (keys snap.tasks) (keys start.tasks)).0
                      (ground arith);
                derived = cc (eo, same);
              },
              ground arith,
            )
      ]
]

pub IsRestored-restore :
    (run_id : RunId) (ts : List Task) (b : RetryBudget) (snap : ExecutionLifecycleSnapshot)
    (start : ExecutionLifecycleKernel)
    → IsRestored run_id ts b snap start
    → restore run_id ts b snap ≡ ok (with_state start snap)
unfolding restore
IsRestored-restore run_id ts b snap start f = ground (
  arith,
  f.made,
  f.derived,
  f.same_limit,
  (=?_iff snap.run_id run_id).1 f.same_run,
  (same_option-Decides ◌=?◌ ord-Decides snap.goal_id start.goal_id).1 f.same_goal,
  (same_list-Decides ◌=?◌ ord-Decides (keys snap.tasks) (keys start.tasks)).1 f.same_keys,
  (same_map-Decides same_owner same_owner-Decides snap.write_key_owners snap.write_key_owners).1
      refl,
)

-- The instant at which a lease is valid is any after its heartbeat.
pub IsLeaseValid-at :
    (run_id : RunId) (limit : ℕ) (was clock : DateTime) (id : TaskId) (t : Task) (n : ℕ)
    (l : TaskLease)
    → IsLeaseValid run_id limit was id t n l
    → l.heartbeat_at ≤ clock
    → IsLeaseValid run_id limit clock id t n l
IsLeaseValid-at run_id limit was clock id t n l v h = record {
  lease_version = v.lease_version;
  lease_run = v.lease_run;
  lease_task = v.lease_task;
  lease_role = v.lease_role;
  lease_keys = v.lease_keys;
  lease_attempt = v.lease_attempt;
  lease_limit = v.lease_limit;
  heartbeat_after_claim = v.heartbeat_after_claim;
  heartbeat_before_expiry = v.heartbeat_before_expiry;
  heartbeat_past = h;
}

pub IsRestored-AreTaken :
    (run_id : RunId) (ts : List Task) (b : RetryBudget) (snap : ExecutionLifecycleSnapshot)
    (start : ExecutionLifecycleKernel)
    → IsRestored run_id ts b snap start
    → AreTaken start.run_id start.retry_budget.max_attempts start.tasks snap.tasks []
        snap.write_key_owners
IsRestored-AreTaken run_id ts b snap start f =
    let made = (new-facts run_id ts b start f.made).kernel_made in
    let sorted_tasks : IsSorted start.tasks =
      subst (λ (x : ExecutionLifecycleKernel). IsSorted x.tasks) (sym made)
        (index_tasks-IsSorted ts) in
    let sorted = IsSorted-keys snap.tasks start.tasks f.same_keys sorted_tasks in
    let eb : b ≡ start.retry_budget =
      ap (λ (x : ExecutionLifecycleKernel). x.retry_budget) (sym made) in
    subst
      (λ (x : RetryBudget).
        AreTaken start.run_id x.max_attempts start.tasks snap.tasks [] snap.write_key_owners)
      eb
      (check_states-AreTaken start.run_id b.max_attempts start.tasks snap.tasks []
        snap.write_key_owners sorted f.derived)

taken-IsValid :
    (start : ExecutionLifecycleKernel) (snap : ExecutionLifecycleSnapshot) (clock : DateTime)
    → IsValid start 0
    → keys snap.tasks ≡ keys start.tasks
    → AreTaken start.run_id start.retry_budget.max_attempts start.tasks snap.tasks []
        snap.write_key_owners
    → ((id : TaskId) (l : TaskLease) → Holds snap.tasks id l → l.heartbeat_at ≤ clock)
    → IsValid (with_state start snap) clock
unfolding get
taken-IsValid start snap clock v same taken past = record {
  limit_positive = v.limit_positive;
  limit_bounded = v.limit_bounded;
  same_tasks = λ id. contains_key-keys id snap.tasks start.tasks same;
  dependencies_known = v.dependencies_known;
  tasks_valid = λ id s e. (taken.all_fit id s e).0;
  leases_valid = λ id s e t l et el.
      IsLeaseValid-at start.run_id start.retry_budget.max_attempts l.heartbeat_at clock id t
        s.attempts l (taken.leases_fit id s t l e et el) (past id l (s, e, el));
  owners_sorted = taken.owners_stay_sorted tt;
  owners_held = λ key o e. elim (taken.owners_from key o e) [
    | inl before ↦ absurd (cc before)
    | inr held ↦ held
  ];
  leases_own = λ id l held alive key c. taken.all_owned id l key held c;
}

abbrev snapshot_at :
    RunId → Option GoalId → ℕ → ExecutionLifecycleSnapshot → ExecutionLifecycleSnapshot
snapshot_at run_id goal_id max_attempts snap = record {
  run_id = run_id;
  goal_id = goal_id;
  max_attempts = max_attempts;
  tasks = snap.tasks;
  write_key_owners = snap.write_key_owners;
}

restored-snapshot :
    (run_id : RunId) (ts : List Task) (b : RetryBudget) (snap : ExecutionLifecycleSnapshot)
    (start : ExecutionLifecycleKernel)
    → IsRestored run_id ts b snap start
    → snapshot (with_state start snap) ≡ snap
unfolding snapshot
restored-snapshot run_id ts b snap start f =
    let made = (new-facts run_id ts b start f.made).kernel_made in
    let e1 : start.run_id ≡ snap.run_id =
      ap (λ (x : ExecutionLifecycleKernel). x.run_id) made ∙ sym f.same_run in
    let e2 : start.goal_id ≡ snap.goal_id = sym f.same_goal in
    let e3 : start.retry_budget.max_attempts ≡ snap.max_attempts =
      ap (λ (x : ExecutionLifecycleKernel). x.retry_budget.max_attempts) made ∙ sym f.same_limit in
    let e : snapshot_at start.run_id start.goal_id start.retry_budget.max_attempts snap
        ≡ snapshot_at snap.run_id snap.goal_id snap.max_attempts snap =
      rw (e1, e2, e3) refl in
    e

-- A kernel that is restored, with a retry budget below the largest u32, from a snapshot whose
-- heartbeats are not after the instant `clock`, has the invariant at that instant, and its snapshot
-- is the one that it was restored from.
pub restore-IsValid :
    (run_id : RunId) (ts : List Task) (b : RetryBudget) (snap : ExecutionLifecycleSnapshot)
    (k : ExecutionLifecycleKernel) (clock : DateTime)
    → b.max_attempts + 1 < 2 ^ 32
    → ((id : TaskId) (l : TaskLease) → Holds snap.tasks id l → l.heartbeat_at ≤ clock)
    → restore run_id ts b snap ≡ ok k
    → IsValid k clock × (snapshot k ≡ snap)
restore-IsValid run_id ts b snap k clock bound past h =
    let (start, f, e) = restore-facts run_id ts b snap k h in
    let taken = IsRestored-AreTaken run_id ts b snap start f in
    rw e (
      taken-IsValid start snap clock (new-IsValid run_id ts b start bound f.made) f.same_keys taken
          past,
      restored-snapshot run_id ts b snap start f,
    )
