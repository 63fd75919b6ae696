-- ===== src/Lifecycle/Invariant/Update.antt =====
-- Facts that the proofs about the single commands share.
use ovca_core.Prelude.{ℕ, ◌≤◌, false, ◌≡◌, ◌⊎◌, inl, inr, some, arith, Bool-cases, ◌∙◌}
use ovca_core.Collections.Order.{◌=?◌, string_ord, =?_iff}
use ovca_core.Collections.BTreeMap.{BTreeMap, get, insert, get-insert}
use ovca_core.Collections.BTreeMap.Entries.{get-insert_self, get-insert_ne}
use ovca_core.Goal.Ids.{DateTime, RunId, TaskId}
use ovca_core.Goal.Task.{Task, TaskLease}
use ovca_core.Lifecycle.State.{ExecutionLifecycleKernel, TaskExecutionSnapshot}
use ovca_core.Lifecycle.Invariant.{Holds, HasValidLease, IsValid}

-- After the state of one task is written, the leases are those of the others and the written one.
pub Holds-insert :
    (state : BTreeMap TaskId TaskExecutionSnapshot) (id : TaskId) (s : TaskExecutionSnapshot)
    (i : TaskId) (l : TaskLease)
    → Holds (insert id s state) i l
    → ((i ≡ id) × (s.current_lease ≡ some l)) ⊎ (((i =? id) ≡ false) × Holds state i l)
Holds-insert state id s i l (s', e, h) = elim (Bool-cases (i =? id)) [
  | inl same ↦
      let ei : i ≡ id = (=?_iff i id).0 same in
      let es : s ≡ s' = ground (arith, get-insert i id s state) in inl (ei, rw es h)
  | inr other ↦ inr (other, (s', ground (arith, get-insert i id s state), h))
]

pub Holds-insert_ne :
    (state : BTreeMap TaskId TaskExecutionSnapshot) (id : TaskId) (s : TaskExecutionSnapshot)
    (i : TaskId) (l : TaskLease)
    → (i =? id) ≡ false
    → Holds state i l
    → Holds (insert id s state) i l
Holds-insert_ne state id s i l other (s', e, h) = (s', get-insert_ne i id s state other ∙ e, h)

pub Holds-insert_self :
    (state : BTreeMap TaskId TaskExecutionSnapshot) (id : TaskId) (s : TaskExecutionSnapshot)
    (l : TaskLease)
    → s.current_lease ≡ some l
    → Holds (insert id s state) id l
Holds-insert_self state id s l h = (s, get-insert_self id s state, h)

-- The state of a task is unique.
pub Holds-lease :
    (state : BTreeMap TaskId TaskExecutionSnapshot) (id : TaskId) (s : TaskExecutionSnapshot)
    (l : TaskLease)
    → get id state ≡ some s
    → Holds state id l
    → s.current_lease ≡ some l
Holds-lease state id s l e (s', e', h) = let es : s' ≡ s = cc (e, e') in rw (← es) h

-- A lease that was valid stays so as time goes on.
pub HasValidLease-later :
    (run_id : RunId) (limit : ℕ) (clock later : DateTime) (tasks : BTreeMap TaskId Task)
    (id : TaskId) (s : TaskExecutionSnapshot)
    → clock ≤ later
    → HasValidLease run_id limit clock tasks id s
    → HasValidLease run_id limit later tasks id s
HasValidLease-later run_id limit clock later tasks id s h v t l et el =
    let w = v t l et el in
    record {
      lease_version = w.lease_version;
      lease_run = w.lease_run;
      lease_task = w.lease_task;
      lease_role = w.lease_role;
      lease_keys = w.lease_keys;
      lease_attempt = w.lease_attempt;
      lease_limit = w.lease_limit;
      heartbeat_after_claim = w.heartbeat_after_claim;
      heartbeat_before_expiry = w.heartbeat_before_expiry;
      heartbeat_past = omega (arith, w.heartbeat_past);
    }

-- The invariant stays as time goes on.
pub IsValid-later :
    (k : ExecutionLifecycleKernel) (clock later : DateTime)
    → clock ≤ later
    → IsValid k clock
    → IsValid k later
IsValid-later k clock later h v = record {
  limit_positive = v.limit_positive;
  limit_bounded = v.limit_bounded;
  same_tasks = v.same_tasks;
  dependencies_known = v.dependencies_known;
  tasks_valid = v.tasks_valid;
  leases_valid = λ id s e.
      HasValidLease-later k.run_id k.retry_budget.max_attempts clock later k.tasks id s h
        (v.leases_valid id s e);
  owners_sorted = v.owners_sorted;
  owners_held = v.owners_held;
  leases_own = λ id l held alive. v.leases_own id l held (omega arith);
}
