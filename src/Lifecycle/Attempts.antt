-- ===== src/Lifecycle/Attempts.antt =====
-- The attempts that the commands of the kernel give a task, counted by the leases they grant.
use ovca_core.Prelude.{
  ℕ, ◌+◌, ◌^◌, ◌≤◌, ◌<◌, ◌≡◌, refl, ap, ◌∙◌, subst, Option, some, none, List, [], ◌∷◌, ok, err,
  panic, inl, inr, arith, Bool-cases, Option-cases, if◌then◌else◌,
}
use ovca_core.Collections.Order.{◌=?◌, =?_iff, string_ord}
use ovca_core.Collections.BTreeMap.{BTreeMap, get, insert}
use ovca_core.Collections.BTreeMap.Entries.{get-insert_self, get-insert_ne}
use ovca_core.Goal.Ids.{DateTime, RunId, TaskId}
use ovca_core.Goal.Task.{RetryBudget, Task, TaskLease, TaskStatus, TaskTerminalRecord}
use ovca_core.Lifecycle.State.{
  Attempt, ClaimRequest, ExecutionLifecycleKernel, TaskExecutionSnapshot,
}
use ovca_core.Lifecycle.Init.{new}
use ovca_core.Lifecycle.Claim.{apply_claim, claimed}
use ovca_core.Lifecycle.Heartbeat.{apply_heartbeat}
use ovca_core.Lifecycle.Terminal.{
  TerminalRequest, completion_request, cancellation_request, apply_terminal, terminate,
  apply_completion, apply_cancellation, apply_failure,
}
use ovca_core.Lifecycle.Commands.{
  Command, claims, heartbeats, completes, cancels, fails, settle, claim, heartbeat, complete,
  cancel, fail, instant, run, run_all,
}
use ovca_core.Lifecycle.Invariant.{AttemptsFit, IsValid}
use ovca_core.Lifecycle.Invariant.OnClaim.{apply_claim-facts}
use ovca_core.Lifecycle.Invariant.AfterClaim.{attempt-no_wrap}
use ovca_core.Lifecycle.Invariant.AfterHeartbeat.{apply_heartbeat-facts}
use ovca_core.Lifecycle.Invariant.AfterRelease.{require_active_owner-facts, freed}
use ovca_core.Lifecycle.Invariant.AfterTerminal.{
  end_task-owner, end_task-run, apply_terminal-cases, terminate-old, ended,
}
use ovca_core.Lifecycle.Invariant.AfterFailure.{apply_failure-owner, apply_failure-run, failed}
use ovca_core.Lifecycle.Invariant.AfterNew.{new-attempts, new-facts, new-IsValid}
use ovca_core.Lifecycle.Invariant.Runs.{InOrder, run-IsValid}
use ovca_core.Lifecycle.Budget.{run_all-Keeps}
use ovca_core.Lifecycle.Safety.{new-run_all-IsValid}

-- Whether a command grants the task a lease.
abbrev one_if_granted : Attempt TaskLease → ℕ
one_if_granted (ok l) = 1
one_if_granted _ = 0

abbrev pub granted : TaskId → ExecutionLifecycleKernel → Command → ℕ
granted id k (claims r) = if id =? r.task_id then one_if_granted (claim k r).0 else 0
granted id k _ = 0

-- How many claims of a task, of all that are made, are answered with a lease.
abbrev pub leases_granted : TaskId → ExecutionLifecycleKernel → List Command → ℕ
leases_granted id k [] = 0
leases_granted id k (c ∷ cs) = granted id k c + leases_granted id (run k c) cs

abbrev attempts_in : Option TaskExecutionSnapshot → ℕ
attempts_in none = 0
attempts_in (some s) = s.attempts

abbrev tried : TaskId → ExecutionLifecycleKernel → ℕ
tried id k = attempts_in (get id k.state)

abbrev States : Type 0
States = BTreeMap TaskId TaskExecutionSnapshot

-- A change of a task that leaves its counter alone leaves all counters alone.
attempts_in-insert :
    (id i : TaskId) (s s' : TaskExecutionSnapshot) (m : States)
    → get i m ≡ some s
    → s'.attempts ≡ s.attempts
    → attempts_in (get id (insert i s' m)) ≡ attempts_in (get id m)
attempts_in-insert id i s s' m e same = elim (Bool-cases (id =? i)) [
  | inl h ↦ let here : id ≡ i = (=?_iff id i).0 h in rw (here, get-insert_self i s' m, e) same
  | inr h ↦ rw (get-insert_ne id i s' m h) refl
]

settle-tried :
    {A : Type 0}
    → (id : TaskId) (k : ExecutionLifecycleKernel) (x : Attempt (A × ExecutionLifecycleKernel))
    → ((a : A) (k' : ExecutionLifecycleKernel) → x ≡ ok (a, k') → tried id k' ≡ tried id k)
    → tried id (settle k x).1 ≡ tried id k
settle-tried id k (ok (a, k')) h = h a k' refl
settle-tried id k (err e) h = refl
settle-tried id k panic h = refl

apply_terminal-tried :
    (id : TaskId) (k : ExecutionLifecycleKernel) (r : TerminalRequest) (t : TaskTerminalRecord)
    (k' : ExecutionLifecycleKernel)
    → apply_terminal k r ≡ ok (t, k')
    → tried id k' ≡ tried id k
unfolding terminate
apply_terminal-tried id k r t k' h =
    let (s, e, w) = apply_terminal-cases k r t k' h in
    elim (Option-cases s.terminal_record) [
      | inl n ↦
          let w' = subst (λ (x : Option TaskTerminalRecord). terminate k r s x ≡ ok (t, k')) n w in
          let (l, el) = end_task-owner k r s t k' w' in
          let made : freed k r.task_id l (ended k r s) ≡ k' = cc (end_task-run k r s l e el, w') in
          rw (← made) (attempts_in-insert id r.task_id s (ended k r s) k.state e refl)
      | inr (old, n) ↦
          let w' = subst (λ (x : Option TaskTerminalRecord). terminate k r s x ≡ ok (t, k')) n w in
          rw (← terminate-old k r s old t k' w') refl
    ]

apply_claim-tried :
    (id : TaskId) (k : ExecutionLifecycleKernel) (clock : DateTime) (r : ClaimRequest)
    (l : TaskLease) (k' : ExecutionLifecycleKernel)
    → IsValid k clock
    → apply_claim k r ≡ ok (l, k')
    → tried id k' ≡ tried id k + (if id =? r.task_id then 1 else 0)
unfolding claimed
apply_claim-tried id k clock r l k' v h =
    let f = apply_claim-facts k r l k' h in
    let up = attempt-no_wrap k clock r f.current v f.state_found f.claimable in
    rw f.kernel_made (elim (Bool-cases (id =? r.task_id)) [
      | inl same ↦
          let here : id ≡ r.task_id = (=?_iff id r.task_id).0 same in
          rw (same, here, get-insert_self r.task_id _ k.state, f.state_found) up
      | inr other ↦ rw (other, get-insert_ne id r.task_id _ k.state other) (omega arith)
    ])

claim-tried :
    (id : TaskId) (k : ExecutionLifecycleKernel) (clock : DateTime) (r : ClaimRequest)
    (x : Attempt (TaskLease × ExecutionLifecycleKernel))
    → IsValid k clock
    → apply_claim k r ≡ x
    → tried id (settle k x).1
      ≡ tried id k + (if id =? r.task_id then one_if_granted (settle k x).0 else 0)
claim-tried id k clock r (ok (l, k')) v e = apply_claim-tried id k clock r l k' v e
claim-tried id k clock r (err x) v e = ground arith
claim-tried id k clock r panic v e = ground arith

unchanged_by : {n m : ℕ} → n ≡ m → n ≡ m + 0
unchanged_by h = omega (arith, h)

-- A command raises the counter of a task exactly when it grants it a lease.
run-tried :
    (id : TaskId) (k : ExecutionLifecycleKernel) (clock : DateTime) (c : Command)
    → IsValid k clock
    → tried id (run k c) ≡ tried id k + granted id k c
unfolding run claim heartbeat complete cancel fail apply_completion apply_cancellation
run-tried id k clock (claims r) v = claim-tried id k clock r (apply_claim k r) v refl
run-tried id k clock (heartbeats r) v = unchanged_by (
    settle-tried id k (apply_heartbeat k r) λ l k' h.
      let f = apply_heartbeat-facts k r l k' h in
      rw f.kernel_made (attempts_in-insert id r.task_id f.state _ k.state f.state_found refl))
run-tried id k clock (completes r) v = unchanged_by (
    settle-tried id k (apply_completion k r)
      λ t k' h. apply_terminal-tried id k (completion_request r) t k' h)
run-tried id k clock (cancels r) v = unchanged_by (
    settle-tried id k (apply_cancellation k r)
      λ t k' h. apply_terminal-tried id k (cancellation_request r) t k' h)
run-tried id k clock (fails r) v = unchanged_by (
    settle-tried id k (apply_failure k r) λ x k' h.
      let (l, el) = apply_failure-owner k r x k' h in
      let f =
        require_active_owner-facts k r.task_id r.worker_id r.worker_role r.lease_id r.now l el in
      let made : freed k r.task_id l (failed k r f.state) ≡ k' =
        cc (apply_failure-run k r f.state l f.state_found el, h) in
      rw (← made)
        (attempts_in-insert id r.task_id f.state (failed k r f.state) k.state f.state_found refl))

run_all-tried :
    (id : TaskId) (k : ExecutionLifecycleKernel) (clock : DateTime) (cs : List Command)
    → IsValid k clock
    → InOrder clock cs
    → tried id (run_all k cs) ≡ tried id k + leases_granted id k cs
unfolding run_all
run_all-tried id k clock [] v o = omega arith
run_all-tried id k clock (c ∷ cs) v o = omega (
  arith,
  run-tried id k clock c v,
  run_all-tried id (run k c) (instant c) cs (run-IsValid k clock c v o.0) o.1,
)

new-tried :
    (run_id : RunId) (tasks : List Task) (budget : RetryBudget) (k : ExecutionLifecycleKernel)
    (id : TaskId)
    → new run_id tasks budget ≡ ok k
    → tried id k ≡ 0
new-tried run_id tasks budget k id made = elim (Option-cases (get id k.state)) [
  | inl e ↦ rw e refl
  | inr (s, e) ↦ rw e (new-attempts run_id tasks budget k id s made e)
]

AttemptsFit-bound : (x : TaskStatus) (n limit : ℕ) → AttemptsFit x n limit → n ≤ limit
AttemptsFit-bound TaskStatus.pending n limit fit = omega arith
AttemptsFit-bound TaskStatus.ready n limit fit = omega arith
AttemptsFit-bound TaskStatus.running n limit fit = fit.1
AttemptsFit-bound TaskStatus.completed n limit fit = fit.1
AttemptsFit-bound TaskStatus.cancelled n limit fit = fit.1
AttemptsFit-bound TaskStatus.failed n limit fit = omega arith
AttemptsFit-bound TaskStatus.awaiting_approval n limit fit = absurd fit
AttemptsFit-bound TaskStatus.reviewing n limit fit = absurd fit

-- In a kernel that `new` makes from a retry budget below the largest u32, after any commands whose
-- instants do not go back, the counter of a task is the number of its claims that were answered with
-- a lease, and there are no more of those than the budget allows.
pub run_all-attempts :
    (run_id : RunId) (tasks : List Task) (budget : RetryBudget) (k : ExecutionLifecycleKernel)
    (commands : List Command) (id : TaskId) (s : TaskExecutionSnapshot)
    → budget.max_attempts + 1 < 2 ^ 32
    → new run_id tasks budget ≡ ok k
    → InOrder 0 commands
    → get id (run_all k commands).state ≡ some s
    → (s.attempts ≡ leases_granted id k commands)
      × (leases_granted id k commands ≤ budget.max_attempts)
run_all-attempts run_id tasks budget k commands id s bound made order e =
    let v = new-run_all-IsValid run_id tasks budget k commands bound made order in
    let same : (run_all k commands).retry_budget ≡ budget =
      run_all-Keeps k commands
      ∙ ap (λ x. x.retry_budget) (new-facts run_id tasks budget k made).kernel_made in
    let fit : s.attempts ≤ budget.max_attempts = rw (← same) (
      AttemptsFit-bound s.status s.attempts (run_all k commands).retry_budget.max_attempts
        (v.tasks_valid id s e).attempts_fit) in
    let counted : s.attempts ≡ leases_granted id k commands = omega (
      arith,
      ap attempts_in e,
      run_all-tried id k 0 commands (new-IsValid run_id tasks budget k bound made) order,
      new-tried run_id tasks budget k id made,
    ) in
    (counted, omega (arith, counted, fit))
