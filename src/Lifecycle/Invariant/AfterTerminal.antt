-- ===== src/Lifecycle/Invariant/AfterTerminal.antt =====
-- The kernel after `apply_terminal`.
use ovca_core.Prelude.{
  ℕ, ◌≤◌, false, ◌≡◌, inl, inr, Option, none, some, arith, ok, Option-cases, Result-cases, subst,
  refl,
}
use ovca_core.Collections.Order.{string_ord}
use ovca_core.Collections.BTreeMap.{get}
use ovca_core.Collections.BTreeMap.Entries.{get-insert_self, insert-insert}
use ovca_core.Goal.Ids.{DateTime, role_ord}
use ovca_core.Goal.Task.{
  TaskLease, TaskStatus, task_status_ord, TaskTerminalOutcome, TaskTerminalRecord,
}
use ovca_core.Lifecycle.State.{Attempt, ExecutionLifecycleKernel, TaskExecutionSnapshot}
use ovca_core.Lifecycle.Release.{require_active_owner}
use ovca_core.Lifecycle.Terminal.{
  TerminalRequest, apply_terminal, end_task, is_ended, repeat_terminal, terminate, ended_status,
  new_terminal_record,
}
use ovca_core.Lifecycle.Invariant.{AttemptsFit, is_running, recorded_outcome, IsValid, IsTaskValid}
use ovca_core.Lifecycle.Invariant.Update.{IsValid-later}
use ovca_core.Lifecycle.Invariant.AfterRelease.{
  freed-IsValid, require_active_owner-facts, freed, release-freed,
}

-- The snapshot of a task that a terminal command has ended.
abbrev pub ended :
    ExecutionLifecycleKernel → TerminalRequest → TaskExecutionSnapshot → TaskExecutionSnapshot
ended k r s = record s {
  status = ended_status r.outcome;
  current_lease = none;
  terminal_record = some (new_terminal_record k r);
}

abbrev owner_check : ExecutionLifecycleKernel → TerminalRequest → Attempt TaskLease
owner_check k r =
    require_active_owner k r.task_id r.worker_id r.worker_role r.lease_id r.occurred_at

-- The first terminal command of the owner of an active lease ends the task and frees the keys.
pub end_task-run :
    (k : ExecutionLifecycleKernel) (r : TerminalRequest) (s : TaskExecutionSnapshot) (l : TaskLease)
    → get r.task_id k.state ≡ some s
    → owner_check k r ≡ ok l
    → end_task k r s ≡ ok (new_terminal_record k r, freed k r.task_id l (ended k r s))
unfolding end_task is_ended
end_task-run k r s l e el =
    let f =
      require_active_owner-facts k r.task_id r.worker_id r.worker_role r.lease_id r.occurred_at l
        el in
    let es : f.state ≡ s = cc (f.state_found, e) in
    let found : s.current_lease ≡ some l = rw (← es) f.lease_found in
    let going : is_ended s.status ≡ false = rw (← es, f.running) refl in
    let freed_eq = release-freed k r.task_id s l e found in
    let again = get-insert_self r.task_id (record s { current_lease = none }) k.state in
    let twice = insert-insert r.task_id (ended k r s) (record s { current_lease = none }) k.state in
    rw (going, el, freed_eq, again, twice) refl

pub end_task-owner :
    (k : ExecutionLifecycleKernel) (r : TerminalRequest) (s : TaskExecutionSnapshot)
    (t : TaskTerminalRecord) (k' : ExecutionLifecycleKernel)
    → end_task k r s ≡ ok (t, k')
    → (l : TaskLease) × (owner_check k r ≡ ok l)
unfolding end_task
end_task-owner k r s t k' h = elim (Result-cases (owner_check k r)) [
  | inl (l, el) ↦ (l, el)
  | inr (inl (x, ex)) ↦ absurd (ground arith)
  | inr (inr ex) ↦ absurd (ground arith)
]

-- What a terminal command has found, and the way it went.
pub apply_terminal-cases :
    (k : ExecutionLifecycleKernel) (r : TerminalRequest) (t : TaskTerminalRecord)
    (k' : ExecutionLifecycleKernel)
    → apply_terminal k r ≡ ok (t, k')
    → (s : TaskExecutionSnapshot) × (get r.task_id k.state ≡ some s)
      × (terminate k r s s.terminal_record ≡ ok (t, k'))
unfolding apply_terminal
apply_terminal-cases k r t k' h = elim (Option-cases (get r.task_id k.tasks)) [
  | inl e ↦ absurd (ground arith)
  | inr (task, e) ↦ elim (Option-cases (get r.task_id k.state)) [
    | inl e' ↦ absurd (ground arith)
    | inr (s, e') ↦ (s, e', ground arith)
  ]
]

-- A command for a task that has ended changes nothing.
pub terminate-old :
    (k : ExecutionLifecycleKernel) (r : TerminalRequest) (s : TaskExecutionSnapshot)
    (old t : TaskTerminalRecord) (k' : ExecutionLifecycleKernel)
    → terminate k r s (some old) ≡ ok (t, k')
    → k ≡ k'
unfolding terminate
terminate-old k r s old t k' h = elim (Result-cases (repeat_terminal r old)) [
  | inl (x, ex) ↦ ground arith
  | inr (inl (x, ex)) ↦ absurd (ground arith)
  | inr (inr ex) ↦ absurd (ground arith)
]

ended-IsTaskValid :
    (k : ExecutionLifecycleKernel) (r : TerminalRequest) (s : TaskExecutionSnapshot) (limit : ℕ)
    → s.status ≡ TaskStatus.running
    → IsTaskValid limit r.task_id s
    → IsTaskValid limit r.task_id (ended k r s)
ended-IsTaskValid k r s limit e v = record {
  attempts_fit =
      let fit : (1 ≤ s.attempts) × (s.attempts ≤ limit) =
        subst (λ (x : TaskStatus). AttemptsFit x s.attempts limit) e v.attempts_fit in
      elim (r.outcome) as (λ o. AttemptsFit (ended_status o) s.attempts limit) [
        | TaskTerminalOutcome.completed ↦ fit
        | TaskTerminalOutcome.cancelled ↦ fit
      ];
  leased_when_running = elim (r.outcome) as (λ o. false ≡ is_running (ended_status o)) [
    | TaskTerminalOutcome.completed ↦ refl
    | TaskTerminalOutcome.cancelled ↦ refl
  ];
  recorded_when_ended = elim (r.outcome) as (λ o. some o ≡ recorded_outcome (ended_status o)) [
    | TaskTerminalOutcome.completed ↦ refl
    | TaskTerminalOutcome.cancelled ↦ refl
  ];
}

end_task-IsValid :
    (k : ExecutionLifecycleKernel) (clock : DateTime) (r : TerminalRequest)
    (s : TaskExecutionSnapshot) (t : TaskTerminalRecord) (k' : ExecutionLifecycleKernel)
    → IsValid k clock
    → clock ≤ r.occurred_at
    → get r.task_id k.state ≡ some s
    → end_task k r s ≡ ok (t, k')
    → IsValid k' r.occurred_at
end_task-IsValid k clock r s t k' v forth e h =
    let (l, el) = end_task-owner k r s t k' h in
    let f =
      require_active_owner-facts k r.task_id r.worker_id r.worker_role r.lease_id r.occurred_at l
        el in
    let es : f.state ≡ s = cc (f.state_found, e) in
    let running : s.status ≡ TaskStatus.running = rw (← es) f.running in
    let made : freed k r.task_id l (ended k r s) ≡ k' = cc (end_task-run k r s l e el, h) in
    let valid =
      ended-IsTaskValid k r s k.retry_budget.max_attempts running (v.tasks_valid r.task_id s e) in
    subst (λ (x : ExecutionLifecycleKernel). IsValid x r.occurred_at) made
      (freed-IsValid k clock r.occurred_at r.task_id r.worker_id r.lease_id r.occurred_at l f
        (ended k r s) refl valid v forth)

pub apply_terminal-IsValid :
    (k : ExecutionLifecycleKernel) (clock : DateTime) (r : TerminalRequest) (t : TaskTerminalRecord)
    (k' : ExecutionLifecycleKernel)
    → IsValid k clock
    → clock ≤ r.occurred_at
    → apply_terminal k r ≡ ok (t, k')
    → IsValid k' r.occurred_at
unfolding terminate
apply_terminal-IsValid k clock r t k' v forth h =
    let (s, e, w) = apply_terminal-cases k r t k' h in
    elim (Option-cases s.terminal_record) [
      | inl n ↦
          end_task-IsValid k clock r s t k' v forth e
            (subst (λ (x : Option TaskTerminalRecord). terminate k r s x ≡ ok (t, k')) n w)
      | inr (old, n) ↦
          let w' = subst (λ (x : Option TaskTerminalRecord). terminate k r s x ≡ ok (t, k')) n w in
          let same : k ≡ k' = terminate-old k r s old t k' w' in
          subst (λ (x : ExecutionLifecycleKernel). IsValid x r.occurred_at) same
            (IsValid-later k clock r.occurred_at forth v)
    ]
