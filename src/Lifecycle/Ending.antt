-- ===== src/Lifecycle/Ending.antt =====
-- What becomes of a task that has ended.
use ovca_core.Prelude.{
  ℕ, true, false, ◌≡◌, inl, inr, Option, some, List, [], ◌∷◌, arith, ok, err, panic, Bool-cases,
  Option-cases, subst, ◌∙◌, refl,
}
use ovca_core.Collections.Order.{◌=?◌, string_ord, =?_iff, =?_refl}
use ovca_core.Collections.BTreeMap.{get, insert}
use ovca_core.Collections.BTreeMap.Entries.{get-insert_self, get-insert_ne}
use ovca_core.Goal.Ids.{DateTime, TaskId}
use ovca_core.Goal.Task.{
  Task, TaskLease, TaskStatus, TaskTerminalOutcome, same_outcome, TaskTerminalRecord,
}
use ovca_core.Lifecycle.State.{
  Attempt, ClaimRequest, ExecutionLifecycleKernel, TaskExecutionSnapshot, validate_role,
}
use ovca_core.Lifecycle.Claim.{apply_claim, check_claimable, claimed}
use ovca_core.Lifecycle.Heartbeat.{apply_heartbeat}
use ovca_core.Lifecycle.Terminal.{
  TerminalRequest, completion_request, cancellation_request, apply_terminal, apply_completion,
  apply_cancellation, apply_failure, terminate, repeat_terminal, is_ended, new_terminal_record,
}
use ovca_core.Lifecycle.Commands.{
  Command, claims, heartbeats, completes, cancels, fails, instant, settle, claim, heartbeat,
  complete, cancel, fail, run, run_all,
}
use ovca_core.Lifecycle.Invariant.{IsValid, is_running}
use ovca_core.Lifecycle.Invariant.OnClaim.{apply_claim-facts}
use ovca_core.Lifecycle.Invariant.AfterHeartbeat.{apply_heartbeat-facts}
use ovca_core.Lifecycle.Invariant.AfterRelease.{require_active_owner-facts, freed}
use ovca_core.Lifecycle.Invariant.AfterTerminal.{
  end_task-owner, end_task-run, apply_terminal-cases, terminate-old, ended,
}
use ovca_core.Lifecycle.Invariant.AfterFailure.{apply_failure-owner, apply_failure-run, failed}
use ovca_core.Lifecycle.Invariant.Runs.{InOrder, run-IsValid}

apply_terminal-known :
    (k : ExecutionLifecycleKernel) (r : TerminalRequest) (t : TaskTerminalRecord)
    (k' : ExecutionLifecycleKernel)
    → apply_terminal k r ≡ ok (t, k')
    → (task : Task) × (get r.task_id k.tasks ≡ some task)
      × (validate_role r.task_id task.assigned_role r.worker_role ≡ ok tt)
unfolding apply_terminal
apply_terminal-known k r t k' h = elim (Option-cases (get r.task_id k.tasks)) [
  | inl e ↦ absurd (ground arith)
  | inr (task, e) ↦ (task, e, ground arith)
]

apply_terminal-run :
    (k : ExecutionLifecycleKernel) (r : TerminalRequest) (task : Task) (s : TaskExecutionSnapshot)
    → get r.task_id k.tasks ≡ some task
    → validate_role r.task_id task.assigned_role r.worker_role ≡ ok tt
    → get r.task_id k.state ≡ some s
    → apply_terminal k r ≡ terminate k r s s.terminal_record
unfolding apply_terminal
apply_terminal-run k r task s et role es = rw (et, role, es) refl

same_outcome_refl : (o : TaskTerminalOutcome) → same_outcome o o ≡ true
same_outcome_refl TaskTerminalOutcome.completed = refl
same_outcome_refl TaskTerminalOutcome.cancelled = refl

repeat_terminal-own :
    (k : ExecutionLifecycleKernel) (r : TerminalRequest)
    → repeat_terminal r (new_terminal_record k r) ≡ ok (new_terminal_record k r)
unfolding repeat_terminal
repeat_terminal-own k r =
    rw
      (
        =?_refl r.idempotency_key,
        same_outcome_refl r.outcome,
        =?_refl r.worker_id,
        =?_refl r.lease_id,
      )
      refl

-- A terminal request that has succeeded succeeds again with the same record, and the second time
-- the kernel stays as it is.
pub apply_terminal-twice :
    (k : ExecutionLifecycleKernel) (r : TerminalRequest) (t : TaskTerminalRecord)
    (k' : ExecutionLifecycleKernel)
    → apply_terminal k r ≡ ok (t, k')
    → apply_terminal k' r ≡ ok (t, k')
unfolding terminate
apply_terminal-twice k r t k' h =
    let (s, e, w) = apply_terminal-cases k r t k' h in
    let (task, et, role) = apply_terminal-known k r t k' h in
    elim (Option-cases s.terminal_record) [
      | inl n ↦
          let w' = subst (λ (x : Option TaskTerminalRecord). terminate k r s x ≡ ok (t, k')) n w in
          let (l, el) = end_task-owner k r s t k' w' in
          let next = freed k r.task_id l (ended k r s) in
          let done = end_task-run k r s l e el in
          let ek : next ≡ k' = cc (done, w') in
          let et' : new_terminal_record k r ≡ t = cc (done, w') in
          let again =
            apply_terminal-run next r task (ended k r s) et role
              (get-insert_self r.task_id (ended k r s) k.state) in
          let repeated = repeat_terminal-own k r in rw (← ek, ← et') (again ∙ (rw repeated refl))
      | inr (old, n) ↦
          let w' = subst (λ (x : Option TaskTerminalRecord). terminate k r s x ≡ ok (t, k')) n w in
          let same : k ≡ k' = terminate-old k r s old t k' w' in
          subst (λ (x : ExecutionLifecycleKernel). apply_terminal x r ≡ ok (t, k')) same h
    ]

claimable-open :
    (r : ClaimRequest) (x : TaskStatus) (o : Option TaskLease)
    → check_claimable r x o ≡ ok tt
    → is_ended x ≡ false
unfolding check_claimable is_ended
claimable-open r TaskStatus.pending o h = refl
claimable-open r TaskStatus.ready o h = refl
claimable-open r TaskStatus.running o h = refl
claimable-open r TaskStatus.awaiting_approval o h = refl
claimable-open r TaskStatus.reviewing o h = refl
claimable-open r TaskStatus.completed o h = cc
claimable-open r TaskStatus.failed o h = cc
claimable-open r TaskStatus.cancelled o h = cc

running-open : (x : TaskStatus) → is_running x ≡ true → is_ended x ≡ false
unfolding is_ended
running-open TaskStatus.running h = refl
running-open TaskStatus.pending h = refl
running-open TaskStatus.ready h = refl
running-open TaskStatus.awaiting_approval h = refl
running-open TaskStatus.reviewing h = refl
running-open TaskStatus.completed h = cc
running-open TaskStatus.failed h = cc
running-open TaskStatus.cancelled h = cc

-- The state that a command leaves, at a task that it does not write.
insert-keeps :
    (k : ExecutionLifecycleKernel) (id j : TaskId) (s cur new : TaskExecutionSnapshot)
    → get id k.state ≡ some s
    → is_ended s.status ≡ true
    → get j k.state ≡ some cur
    → is_ended cur.status ≡ false
    → get id (insert j new k.state) ≡ some s
insert-keeps k id j s cur new e over ej going = elim (Bool-cases (id =? j)) [
  | inl same ↦
      let eij : id ≡ j = (=?_iff id j).0 same in
      let ec : cur ≡ s = cc (e, ej, eij) in absurd (cc (over, going, ec))
  | inr other ↦ get-insert_ne id j new k.state other ∙ e
]

settle-keeps :
    {A : Type 0}
    → (k : ExecutionLifecycleKernel) (id : TaskId) (s : TaskExecutionSnapshot)
      (x : Attempt (A × ExecutionLifecycleKernel))
    → get id k.state ≡ some s
    → ((a : A) (k' : ExecutionLifecycleKernel) → x ≡ ok (a, k') → get id k'.state ≡ some s)
    → get id (settle k x).1.state ≡ some s
settle-keeps k id s (ok (a, k')) e h = h a k' refl
settle-keeps k id s (err x) e h = e
settle-keeps k id s panic e h = e

claimed-keeps :
    (k : ExecutionLifecycleKernel) (r : ClaimRequest) (task : Task) (cur : TaskExecutionSnapshot)
    (n : ℕ) (id : TaskId) (s : TaskExecutionSnapshot)
    → get id k.state ≡ some s
    → is_ended s.status ≡ true
    → get r.task_id k.state ≡ some cur
    → is_ended cur.status ≡ false
    → get id (claimed k r task cur n).state ≡ some s
unfolding claimed
claimed-keeps k r task cur n id s e over ec going =
    insert-keeps k id r.task_id s cur _ e over ec going

apply_terminal-keeps :
    (k : ExecutionLifecycleKernel) (r : TerminalRequest) (t : TaskTerminalRecord)
    (k' : ExecutionLifecycleKernel) (id : TaskId) (s : TaskExecutionSnapshot)
    → get id k.state ≡ some s
    → is_ended s.status ≡ true
    → apply_terminal k r ≡ ok (t, k')
    → get id k'.state ≡ some s
unfolding terminate
apply_terminal-keeps k r t k' id s e over h =
    let (cur, ec, w) = apply_terminal-cases k r t k' h in
    elim (Option-cases cur.terminal_record) [
      | inl n ↦
          let w' =
            subst (λ (x : Option TaskTerminalRecord). terminate k r cur x ≡ ok (t, k')) n w in
          let (l, el) = end_task-owner k r cur t k' w' in
          let f =
            require_active_owner-facts k r.task_id r.worker_id r.worker_role r.lease_id
              r.occurred_at l el in
          let made : freed k r.task_id l (ended k r cur) ≡ k' =
            cc (end_task-run k r cur l ec el, w') in
          let going : is_ended f.state.status ≡ false =
            running-open f.state.status (rw f.running refl) in
          rw (← made)
            (insert-keeps k id r.task_id s f.state (ended k r cur) e over f.state_found going)
      | inr (old, n) ↦
          let w' =
            subst (λ (x : Option TaskTerminalRecord). terminate k r cur x ≡ ok (t, k')) n w in
          rw (← terminate-old k r cur old t k' w') e
    ]

-- No command changes a task that has completed, failed or been cancelled.
pub run-ended :
    (k : ExecutionLifecycleKernel) (clock : DateTime) (c : Command) (id : TaskId)
    (s : TaskExecutionSnapshot)
    → IsValid k clock
    → get id k.state ≡ some s
    → is_ended s.status ≡ true
    → get id (run k c).state ≡ some s
unfolding run claim heartbeat complete cancel fail apply_completion apply_cancellation
run-ended k clock (claims r) id s v e over = settle-keeps k id s (apply_claim k r) e λ l k' h.
    let f = apply_claim-facts k r l k' h in
    let going = claimable-open r f.current.status f.current.current_lease f.claimable in
    rw f.kernel_made (claimed-keeps k r f.task f.current _ id s e over f.state_found going)
run-ended k clock (heartbeats r) id s v e over =
    settle-keeps k id s (apply_heartbeat k r) e λ l k' h.
      let f = apply_heartbeat-facts k r l k' h in
      let leased = (v.tasks_valid r.task_id f.state f.state_found).leased_when_running in
      let going = running-open f.state.status (rw (← leased, f.lease_found) refl) in
      rw f.kernel_made (
        insert-keeps k id r.task_id s f.state (record f.state { current_lease = some l }) e over
          f.state_found going)
run-ended k clock (completes r) id s v e over =
    settle-keeps k id s (apply_completion k r) e
      λ t k' h. apply_terminal-keeps k (completion_request r) t k' id s e over h
run-ended k clock (cancels r) id s v e over =
    settle-keeps k id s (apply_cancellation k r) e
      λ t k' h. apply_terminal-keeps k (cancellation_request r) t k' id s e over h
run-ended k clock (fails r) id s v e over = settle-keeps k id s (apply_failure k r) e λ x k' h.
    let (l, el) = apply_failure-owner k r x k' h in
    let f =
      require_active_owner-facts k r.task_id r.worker_id r.worker_role r.lease_id r.now l el in
    let made : freed k r.task_id l (failed k r f.state) ≡ k' =
      cc (apply_failure-run k r f.state l f.state_found el, h) in
    let going = running-open f.state.status (rw f.running refl) in
    rw (← made)
      (insert-keeps k id r.task_id s f.state (failed k r f.state) e over f.state_found going)

-- From a kernel with the invariant, commands whose instants do not go back leave the state of a task
-- that has completed, failed or been cancelled as it is.
pub run_all-ended :
    (k : ExecutionLifecycleKernel) (clock : DateTime) (cs : List Command) (id : TaskId)
    (s : TaskExecutionSnapshot)
    → IsValid k clock
    → InOrder clock cs
    → get id k.state ≡ some s
    → is_ended s.status ≡ true
    → get id (run_all k cs).state ≡ some s
unfolding run_all
run_all-ended k clock [] id s v o e over = e
run_all-ended k clock (c ∷ cs) id s v o e over =
    run_all-ended (run k c) (instant c) cs id s (run-IsValid k clock c v o.0) o.1
      (run-ended k clock c id s v e over) over
