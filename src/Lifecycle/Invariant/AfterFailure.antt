-- ===== src/Lifecycle/Invariant/AfterFailure.antt =====
-- The kernel after `apply_failure`.
use ovca_core.Prelude.{
  ◌≤◌, ◌<◌, ◌≡◌, ◌⊎◌, inl, inr, none, some, leb, arith, ok, Bool-cases, Result-cases, subst, refl,
}
use ovca_core.Collections.Order.{string_ord}
use ovca_core.Collections.BTreeMap.{get}
use ovca_core.Collections.BTreeMap.Entries.{get-insert_self, insert-insert}
use ovca_core.Goal.Ids.{DateTime}
use ovca_core.Goal.Task.{TaskLease, TaskStatus}
use ovca_core.Lifecycle.State.{
  Attempt, FailureRequest, ExecutionLifecycleKernel, TaskExecutionSnapshot,
}
use ovca_core.Lifecycle.Release.{require_active_owner}
use ovca_core.Lifecycle.Terminal.{apply_failure, status_after_failure}
use ovca_core.Lifecycle.Invariant.{AttemptsFit, recorded_outcome, outcome_of, IsValid, IsTaskValid}
use ovca_core.Lifecycle.Invariant.AfterRelease.{
  require_active_owner-facts, release-freed, freed, freed-IsValid,
}

-- The snapshot of a task whose attempt has failed.
abbrev pub failed :
    ExecutionLifecycleKernel → FailureRequest → TaskExecutionSnapshot → TaskExecutionSnapshot
failed k r s = record s {
  status = status_after_failure k s;
  current_lease = none;
  last_failure_reason = some r.reason;
}

abbrev pub failing_owner : ExecutionLifecycleKernel → FailureRequest → Attempt TaskLease
failing_owner k r = require_active_owner k r.task_id r.worker_id r.worker_role r.lease_id r.now

-- A failure that the owner of an active lease reports ends the attempt and frees the keys.
pub apply_failure-run :
    (k : ExecutionLifecycleKernel) (r : FailureRequest) (s : TaskExecutionSnapshot) (l : TaskLease)
    → get r.task_id k.state ≡ some s
    → failing_owner k r ≡ ok l
    → apply_failure k r ≡ ok (status_after_failure k s, freed k r.task_id l (failed k r s))
unfolding apply_failure status_after_failure
apply_failure-run k r s l e el =
    let f =
      require_active_owner-facts k r.task_id r.worker_id r.worker_role r.lease_id r.now l el in
    let es : f.state ≡ s = cc (f.state_found, e) in
    let found : s.current_lease ≡ some l = rw (← es) f.lease_found in
    let freed_eq = release-freed k r.task_id s l e found in
    let again = get-insert_self r.task_id (record s { current_lease = none }) k.state in
    let twice =
      insert-insert r.task_id (failed k r s) (record s { current_lease = none }) k.state in
    rw (el, freed_eq, again, twice) refl

pub apply_failure-owner :
    (k : ExecutionLifecycleKernel) (r : FailureRequest) (x : TaskStatus)
    (k' : ExecutionLifecycleKernel)
    → apply_failure k r ≡ ok (x, k')
    → (l : TaskLease) × (failing_owner k r ≡ ok l)
unfolding apply_failure
apply_failure-owner k r x k' h = elim (Result-cases (failing_owner k r)) [
  | inl (l, el) ↦ (l, el)
  | inr (inl (_, ex)) ↦ absurd (ground arith)
  | inr (inr ex) ↦ absurd (ground arith)
]

-- A failure leaves the task ready when it has attempts left and failed when it has none.
pub status_after_failure-cases :
    (k : ExecutionLifecycleKernel) (s : TaskExecutionSnapshot)
    → ((k.retry_budget.max_attempts ≤ s.attempts) × (status_after_failure k s ≡ TaskStatus.failed))
      ⊎ ((s.attempts < k.retry_budget.max_attempts) × (status_after_failure k s ≡ TaskStatus.ready))
unfolding status_after_failure
status_after_failure-cases k s = elim (Bool-cases (leb k.retry_budget.max_attempts s.attempts)) [
  | inl h ↦ inl (ground arith, ground arith)
  | inr h ↦ inr (ground arith, ground arith)
]

failed-IsTaskValid :
    (k : ExecutionLifecycleKernel) (r : FailureRequest) (s : TaskExecutionSnapshot)
    → s.status ≡ TaskStatus.running
    → IsTaskValid k.retry_budget.max_attempts r.task_id s
    → IsTaskValid k.retry_budget.max_attempts r.task_id (failed k r s)
failed-IsTaskValid k r s e v =
    let fit : (1 ≤ s.attempts) × (s.attempts ≤ k.retry_budget.max_attempts) =
      subst (λ (x : TaskStatus). AttemptsFit x s.attempts k.retry_budget.max_attempts) e
        v.attempts_fit in
    let unrecorded : outcome_of s.terminal_record ≡ none =
      subst (λ (x : TaskStatus). outcome_of s.terminal_record ≡ recorded_outcome x) e
        v.recorded_when_ended in
    elim (status_after_failure-cases k s) [
      | inl (h, x) ↦ record {
        attempts_fit = rw x (omega (arith, fit.1, h));
        leased_when_running = rw x refl;
        recorded_when_ended = rw x unrecorded;
      }
      | inr (h, x) ↦ record {
        attempts_fit = rw x h;
        leased_when_running = rw x refl;
        recorded_when_ended = rw x unrecorded;
      }
    ]

pub apply_failure-IsValid :
    (k : ExecutionLifecycleKernel) (clock : DateTime) (r : FailureRequest) (x : TaskStatus)
    (k' : ExecutionLifecycleKernel)
    → IsValid k clock
    → clock ≤ r.now
    → apply_failure k r ≡ ok (x, k')
    → IsValid k' r.now
apply_failure-IsValid k clock r x k' v forth h =
    let (l, el) = apply_failure-owner k r x k' h in
    let f =
      require_active_owner-facts k r.task_id r.worker_id r.worker_role r.lease_id r.now l el in
    let made : freed k r.task_id l (failed k r f.state) ≡ k' =
      cc (apply_failure-run k r f.state l f.state_found el, h) in
    let valid =
      failed-IsTaskValid k r f.state f.running (v.tasks_valid r.task_id f.state f.state_found) in
    subst (λ (y : ExecutionLifecycleKernel). IsValid y r.now) made
      (freed-IsValid k clock r.now r.task_id r.worker_id r.lease_id r.now l f (failed k r f.state)
        refl valid v forth)
