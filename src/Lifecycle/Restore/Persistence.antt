-- ===== src/Lifecycle/Restore/Persistence.antt =====
-- What the commands leave as `new` made it, and what they write that `restore` looks at.
use ovca_core.Prelude.{
  String, ◌≡◌, inl, inr, Option, some, List, [], ◌∷◌, ok, err, panic, arith, Option-cases, subst,
  sym, refl, ◌∙◌,
}
use ovca_core.Collections.Order.{string_ord}
use ovca_core.Collections.BTreeMap.{BTreeMap, get, insert, keys}
use ovca_core.Collections.BTreeMap.Sorted.{IsSorted}
use ovca_core.Collections.BTreeMap.Entries.{ForAll, ForAll-insert}
use ovca_core.Collections.BTreeMap.Extensional.{IsSorted-keys, keys-insert}
use ovca_core.Goal.Ids.{DateTime, RunId, TaskId}
use ovca_core.Goal.Task.{TaskTerminalRecord}
use ovca_core.Lifecycle.State.{
  Attempt, ExecutionLifecycleKernel, TaskExecutionSnapshot, WriteKeyOwner,
}
use ovca_core.Lifecycle.Claim.{apply_claim, claimed}
use ovca_core.Lifecycle.Heartbeat.{apply_heartbeat}
use ovca_core.Lifecycle.Terminal.{
  TerminalRequest, completion_request, cancellation_request, apply_terminal, terminate,
  apply_completion, apply_cancellation, apply_failure, new_terminal_record,
}
use ovca_core.Lifecycle.Commands.{
  Command, claims, heartbeats, completes, cancels, fails, instant, settle, claim, heartbeat,
  complete, cancel, fail, run, run_all,
}
use ovca_core.Lifecycle.Invariant.{IsValid}
use ovca_core.Lifecycle.Invariant.OnClaim.{apply_claim-facts}
use ovca_core.Lifecycle.Invariant.AfterHeartbeat.{apply_heartbeat-facts}
use ovca_core.Lifecycle.Invariant.AfterRelease.{require_active_owner-facts, freed}
use ovca_core.Lifecycle.Invariant.AfterTerminal.{
  end_task-owner, end_task-run, apply_terminal-cases, terminate-old, ended,
}
use ovca_core.Lifecycle.Invariant.AfterFailure.{apply_failure-owner, apply_failure-run, failed}
use ovca_core.Lifecycle.Invariant.Runs.{InOrder, run-IsValid}
use ovca_core.Lifecycle.Restore.Facts.{
  FailedOnlyTried, IsRecordOf, AttemptsFit-attempts, leased-attempts,
}

-- What the well-formedness of a kernel does not say of a task's failures and record.
pub record IsFit (run_id : RunId) (id : TaskId) (s : TaskExecutionSnapshot) : Type 0 where
  pub tried : FailedOnlyTried s
  pub recorded : (r : TaskTerminalRecord) → s.terminal_record ≡ some r → IsRecordOf run_id id r

pub record Persists (k k' : ExecutionLifecycleKernel) : Type 0 where
  pub run_persists : k'.run_id ≡ k.run_id
  pub goal_persists : k'.goal_id ≡ k.goal_id
  pub budget_persists : k'.retry_budget ≡ k.retry_budget
  pub tasks_persist : k'.tasks ≡ k.tasks
  pub keys_persist : keys k'.state ≡ keys k.state
  pub fits_persist : ForAll (IsFit k.run_id) k.state → ForAll (IsFit k.run_id) k'.state

pub Persists-refl : (k : ExecutionLifecycleKernel) → Persists k k
Persists-refl k = record {
  run_persists = refl;
  goal_persists = refl;
  budget_persists = refl;
  tasks_persist = refl;
  keys_persist = refl;
  fits_persist = λ all. all;
}

Persists-trans :
    (k k' k'' : ExecutionLifecycleKernel) → Persists k k' → Persists k' k'' → Persists k k''
Persists-trans k k' k'' p q = record {
  run_persists = q.run_persists ∙ p.run_persists;
  goal_persists = q.goal_persists ∙ p.goal_persists;
  budget_persists = q.budget_persists ∙ p.budget_persists;
  tasks_persist = q.tasks_persist ∙ p.tasks_persist;
  keys_persist = q.keys_persist ∙ p.keys_persist;
  fits_persist = λ all.
      subst (λ (x : RunId). ForAll (IsFit x) k''.state) p.run_persists
        (q.fits_persist (
          subst (λ (x : RunId). ForAll (IsFit x) k'.state) (sym p.run_persists)
            (p.fits_persist all)));
}

abbrev written :
    ExecutionLifecycleKernel
    → TaskId
    → TaskExecutionSnapshot
    → BTreeMap String WriteKeyOwner
    → ExecutionLifecycleKernel
written k id s owners = record k { state = insert id s k.state; write_key_owners = owners }

-- The write of a task's state persists when it leaves the state fit.
written-Persists :
    (k : ExecutionLifecycleKernel) (id : TaskId) (cur new : TaskExecutionSnapshot)
    (owners : BTreeMap String WriteKeyOwner)
    → IsSorted k.state
    → get id k.state ≡ some cur
    → (IsFit k.run_id id cur → IsFit k.run_id id new)
    → Persists k (written k id new owners)
written-Persists k id cur new owners sorted e fit = record {
  run_persists = refl;
  goal_persists = refl;
  budget_persists = refl;
  tasks_persist = refl;
  keys_persist = keys-insert id new cur k.state sorted e;
  fits_persist = λ all. ForAll-insert (IsFit k.run_id) id new k.state (fit (all id cur e)) all;
}

settle-Persists :
    {A : Type 0}
    → (k : ExecutionLifecycleKernel) (x : Attempt (A × ExecutionLifecycleKernel))
    → ((a : A) (k' : ExecutionLifecycleKernel) → x ≡ ok (a, k') → Persists k k')
    → Persists k (settle k x).1
settle-Persists k (ok (a, k')) h = h a k' refl
settle-Persists k (err e) h = Persists-refl k
settle-Persists k panic h = Persists-refl k

apply_terminal-Persists :
    (k : ExecutionLifecycleKernel) (r : TerminalRequest) (t : TaskTerminalRecord)
    (k' : ExecutionLifecycleKernel)
    → IsSorted k.state
    → apply_terminal k r ≡ ok (t, k')
    → Persists k k'
unfolding terminate
apply_terminal-Persists k r t k' sorted h =
    let (s, e, w) = apply_terminal-cases k r t k' h in
    elim (Option-cases s.terminal_record) [
      | inl n ↦
          let w' = subst (λ (x : Option TaskTerminalRecord). terminate k r s x ≡ ok (t, k')) n w in
          let (l, el) = end_task-owner k r s t k' w' in
          let made : freed k r.task_id l (ended k r s) ≡ k' = cc (end_task-run k r s l e el, w') in
          subst (λ (x : ExecutionLifecycleKernel). Persists k x) made
            (written-Persists k r.task_id s (ended k r s) _ sorted e λ fit. record {
              tried = fit.tried;
              recorded = λ t et.
                  let same : new_terminal_record k r ≡ t = cc et in
                  subst (λ (x : TaskTerminalRecord). IsRecordOf k.run_id r.task_id x) same
                    (record { record_version = refl; record_run = refl; record_task = refl });
            })
      | inr (old, n) ↦
          let w' = subst (λ (x : Option TaskTerminalRecord). terminate k r s x ≡ ok (t, k')) n w in
          subst (λ (x : ExecutionLifecycleKernel). Persists k x) (terminate-old k r s old t k' w')
            (Persists-refl k)
    ]

run-Persists :
    (k : ExecutionLifecycleKernel) (clock : DateTime) (c : Command)
    → IsValid k clock
    → IsSorted k.state
    → Persists k (run k c)
unfolding run claim heartbeat complete cancel fail apply_completion apply_cancellation claimed
run-Persists k clock (claims r) v sorted = settle-Persists k (apply_claim k r) λ l k' h.
    let f = apply_claim-facts k r l k' h in
    let small =
      (AttemptsFit-attempts f.current.status f.current.attempts k.retry_budget.max_attempts
        (v.tasks_valid r.task_id f.current f.state_found).attempts_fit).0 in
    rw f.kernel_made (
      written-Persists k r.task_id f.current _ _ sorted f.state_found λ fit. record {
        tried = λ none_yet. absurd (omega (arith, none_yet, small, v.limit_bounded));
        recorded = λ t et. absurd (cc et);
      })
run-Persists k clock (heartbeats r) v sorted = settle-Persists k (apply_heartbeat k r) λ l k' h.
    let f = apply_heartbeat-facts k r l k' h in
    rw f.kernel_made (
      written-Persists k r.task_id f.state _ _ sorted f.state_found
        λ fit. record { tried = fit.tried; recorded = fit.recorded })
run-Persists k clock (completes r) v sorted =
    settle-Persists k (apply_completion k r)
      λ t k' h. apply_terminal-Persists k (completion_request r) t k' sorted h
run-Persists k clock (cancels r) v sorted =
    settle-Persists k (apply_cancellation k r)
      λ t k' h. apply_terminal-Persists k (cancellation_request r) t k' sorted h
run-Persists k clock (fails r) v sorted = settle-Persists k (apply_failure k r) λ x k' h.
    let (l, el) = apply_failure-owner k r x k' h in
    let f =
      require_active_owner-facts k r.task_id r.worker_id r.worker_role r.lease_id r.now l el in
    let made : freed k r.task_id l (failed k r f.state) ≡ k' =
      cc (apply_failure-run k r f.state l f.state_found el, h) in
    let tried_once =
      leased-attempts k.retry_budget.max_attempts r.task_id f.state l
        (v.tasks_valid r.task_id f.state f.state_found) f.lease_found in
    subst (λ (x : ExecutionLifecycleKernel). Persists k x) made
      (written-Persists k r.task_id f.state (failed k r f.state) _ sorted f.state_found λ fit.
        record {
          tried = λ none_yet. absurd (omega (arith, none_yet, tried_once));
          recorded = fit.recorded;
        })

pub run_all-Persists :
    (k : ExecutionLifecycleKernel) (clock : DateTime) (cs : List Command)
    → IsValid k clock
    → InOrder clock cs
    → IsSorted k.state
    → Persists k (run_all k cs)
unfolding run_all
run_all-Persists k clock [] v order sorted = Persists-refl k
run_all-Persists k clock (c ∷ cs) v order sorted =
    let step = run-Persists k clock c v sorted in
    Persists-trans k (run k c) (run_all (run k c) cs) step (
      run_all-Persists (run k c) (instant c) cs (run-IsValid k clock c v order.0) order.1
        (IsSorted-keys (run k c).state k.state step.keys_persist sorted))
