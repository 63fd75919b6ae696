-- ===== src/Lifecycle/Dependencies.antt =====
-- The attempts of a task and the dependencies that `apply_claim` looks at.
use ovca_core.Prelude.{
  ℕ, ◌+◌, ◌^◌, ◌≤◌, ◌<◌, true, ◌≡◌, ◌⊎◌, inl, inr, Option, some, List, [], ◌∷◌, ok, err, panic,
  arith, Bool-cases, Option-cases, subst, sym, refl, ◌∙◌,
}
use ovca_core.Collections.Order.{◌=?◌, string_ord, =?_iff}
use ovca_core.Collections.BTreeMap.{get, insert, get-insert}
use ovca_core.Collections.BTreeMap.Entries.{get-insert_ne}
use ovca_core.Collections.BTreeSet.{contains, collect, contains-collect}
use ovca_core.Goal.Ids.{DateTime, RunId, TaskId}
use ovca_core.Goal.Task.{RetryBudget, Task, TaskStatus, task_status_ord, TaskTerminalRecord}
use ovca_core.Lifecycle.State.{
  Attempt, ClaimRequest, ExecutionLifecycleKernel, TaskExecutionSnapshot,
}
use ovca_core.Lifecycle.Init.{new}
use ovca_core.Lifecycle.Claim.{apply_claim, check_dependencies, claimed}
use ovca_core.Lifecycle.Heartbeat.{apply_heartbeat}
use ovca_core.Lifecycle.Terminal.{
  TerminalRequest, completion_request, cancellation_request, apply_terminal, terminate,
  apply_completion, apply_cancellation, apply_failure, is_ended,
}
use ovca_core.Lifecycle.Commands.{
  Command, claims, heartbeats, completes, cancels, fails, instant, settle, claim, heartbeat,
  complete, cancel, fail, run, run_all,
}
use ovca_core.Lifecycle.Invariant.{IsValid}
use ovca_core.Lifecycle.Invariant.OnClaim.{apply_claim-facts}
use ovca_core.Lifecycle.Invariant.AfterHeartbeat.{apply_heartbeat-facts}
use ovca_core.Lifecycle.Invariant.AfterRelease.{require_active_owner-facts, freed}
use ovca_core.Lifecycle.Invariant.AfterTerminal.{
  end_task-owner, end_task-run, apply_terminal-cases, terminate-old, ended,
}
use ovca_core.Lifecycle.Invariant.AfterFailure.{apply_failure-owner, apply_failure-run, failed}
use ovca_core.Lifecycle.Invariant.AfterNew.{new-attempts, new-IsValid}
use ovca_core.Lifecycle.Invariant.Runs.{InOrder, run-IsValid}
use ovca_core.Lifecycle.Ending.{run-ended}

-- The task has completed.
abbrev pub HasCompleted : ExecutionLifecycleKernel → TaskId → Type 0
HasCompleted k id =
    (s : TaskExecutionSnapshot) × (get id k.state ≡ some s) × (s.status ≡ TaskStatus.completed)

-- The dependencies of every task that has had an attempt have completed.
abbrev pub DependenciesDone : ExecutionLifecycleKernel → Type 0
DependenciesDone k =
    (id : TaskId) (t : Task) (s : TaskExecutionSnapshot)
    → get id k.tasks ≡ some t
    → get id k.state ≡ some s
    → 1 ≤ s.attempts
    → (d : TaskId) → contains d (collect t.dependencies) ≡ true
    → HasCompleted k d

check_dependencies-done :
    (k : ExecutionLifecycleKernel) (id : TaskId) (ds : List TaskId) (d : TaskId)
    → check_dependencies k id ds ≡ ok tt
    → contains d (collect ds) ≡ true
    → HasCompleted k d
unfolding check_dependencies
check_dependencies-done k id [] d h c = absurd (ground (arith, contains-collect d []))
check_dependencies-done k id (j ∷ ds) d h c = elim (Option-cases (get j k.state)) [
  | inl e ↦ absurd (ground arith)
  | inr (s, e) ↦ elim (Bool-cases (d =? j)) [
    | inl same ↦
        (s, rw ((=?_iff d j).0 same) e, (=?_iff s.status TaskStatus.completed).0 (ground arith))
    | inr other ↦
        check_dependencies-done k id ds d (ground arith)
          (ground (arith, contains-collect d (j ∷ ds), contains-collect d ds))
  ]
]

-- Where the attempts of a task come from: the kernel before, or a claim that has found its
-- dependencies completed.
abbrev Origin : ExecutionLifecycleKernel → ExecutionLifecycleKernel → Type 0
Origin k k' =
    (id : TaskId) (s' : TaskExecutionSnapshot)
    → get id k'.state ≡ some s'
    → ((s : TaskExecutionSnapshot) × (get id k.state ≡ some s) × (s'.attempts ≡ s.attempts))
      ⊎ ((t : Task) × (get id k.tasks ≡ some t) × (check_dependencies k id t.dependencies ≡ ok tt))

record Step (k k' : ExecutionLifecycleKernel) : Type 0 where
  pub same_tasks : k'.tasks ≡ k.tasks
  pub origin : Origin k k'

stay : (k : ExecutionLifecycleKernel) → Step k k
stay k = record { same_tasks = refl; origin = λ id s e. inl (s, e, refl) }

-- A state that is written with the attempts it had.
write-origin :
    (k : ExecutionLifecycleKernel) (j : TaskId) (cur new : TaskExecutionSnapshot) (id : TaskId)
    (s' : TaskExecutionSnapshot)
    → get j k.state ≡ some cur
    → new.attempts ≡ cur.attempts
    → get id (insert j new k.state) ≡ some s'
    → (s : TaskExecutionSnapshot) × (get id k.state ≡ some s) × (s'.attempts ≡ s.attempts)
write-origin k j cur new id s' ej same e = elim (Bool-cases (id =? j)) [
  | inl here ↦
      let ei : id ≡ j = (=?_iff id j).0 here in
      let en : new ≡ s' = ground (arith, get-insert id j new k.state) in
      (cur, rw ei ej, rw (← en) same)
  | inr other ↦ (s', ground (arith, get-insert id j new k.state), refl)
]

claimed-Step :
    (k : ExecutionLifecycleKernel) (r : ClaimRequest) (t : Task) (cur : TaskExecutionSnapshot)
    (n : ℕ)
    → get r.task_id k.tasks ≡ some t
    → check_dependencies k r.task_id t.dependencies ≡ ok tt
    → Step k (claimed k r t cur n)
unfolding claimed
claimed-Step k r t cur n et done = record {
  same_tasks = refl;
  origin = λ id s' e. elim (Bool-cases (id =? r.task_id)) [
    | inl here ↦
        let ei : id ≡ r.task_id = (=?_iff id r.task_id).0 here in inr (t, rw ei et, rw ei done)
    | inr other ↦ inl (s', sym (get-insert_ne id r.task_id _ k.state other) ∙ e, refl)
  ];
}

settle-Step :
    {A : Type 0}
    → (k : ExecutionLifecycleKernel) (x : Attempt (A × ExecutionLifecycleKernel))
    → ((a : A) (k' : ExecutionLifecycleKernel) → x ≡ ok (a, k') → Step k k')
    → Step k (settle k x).1
settle-Step k (ok (a, k')) h = h a k' refl
settle-Step k (err e) h = stay k
settle-Step k panic h = stay k

apply_terminal-Step :
    (k : ExecutionLifecycleKernel) (r : TerminalRequest) (t : TaskTerminalRecord)
    (k' : ExecutionLifecycleKernel)
    → apply_terminal k r ≡ ok (t, k')
    → Step k k'
unfolding terminate
apply_terminal-Step k r t k' h =
    let (s, e, w) = apply_terminal-cases k r t k' h in
    elim (Option-cases s.terminal_record) [
      | inl n ↦
          let w' = subst (λ (x : Option TaskTerminalRecord). terminate k r s x ≡ ok (t, k')) n w in
          let (l, el) = end_task-owner k r s t k' w' in
          let made : freed k r.task_id l (ended k r s) ≡ k' = cc (end_task-run k r s l e el, w') in
          subst (λ (x : ExecutionLifecycleKernel). Step k x) made
            (record {
              same_tasks = refl;
              origin = λ id s' es. inl (write-origin k r.task_id s (ended k r s) id s' e refl es);
            })
      | inr (old, n) ↦
          let w' = subst (λ (x : Option TaskTerminalRecord). terminate k r s x ≡ ok (t, k')) n w in
          subst (λ (x : ExecutionLifecycleKernel). Step k x) (terminate-old k r s old t k' w')
            (stay k)
    ]

run-Step : (k : ExecutionLifecycleKernel) (c : Command) → Step k (run k c)
unfolding run claim heartbeat complete cancel fail apply_completion apply_cancellation
run-Step k (claims r) = settle-Step k (apply_claim k r) λ l k' h.
    let f = apply_claim-facts k r l k' h in
    rw f.kernel_made (claimed-Step k r f.task f.current _ f.task_found f.dependencies_done)
run-Step k (heartbeats r) = settle-Step k (apply_heartbeat k r) λ l k' h.
    let f = apply_heartbeat-facts k r l k' h in
    rw f.kernel_made (record {
      same_tasks = refl;
      origin = λ id s' es. inl (write-origin k r.task_id f.state _ id s' f.state_found refl es);
    })
run-Step k (completes r) =
    settle-Step k (apply_completion k r)
      λ t k' h. apply_terminal-Step k (completion_request r) t k' h
run-Step k (cancels r) =
    settle-Step k (apply_cancellation k r)
      λ t k' h. apply_terminal-Step k (cancellation_request r) t k' h
run-Step k (fails r) = settle-Step k (apply_failure k r) λ x k' h.
    let (l, el) = apply_failure-owner k r x k' h in
    let f =
      require_active_owner-facts k r.task_id r.worker_id r.worker_role r.lease_id r.now l el in
    let made : freed k r.task_id l (failed k r f.state) ≡ k' =
      cc (apply_failure-run k r f.state l f.state_found el, h) in
    subst (λ (x : ExecutionLifecycleKernel). Step k x) made
      (record {
        same_tasks = refl;
        origin = λ id s' es.
            inl (write-origin k r.task_id f.state (failed k r f.state) id s' f.state_found refl es);
      })

HasCompleted-run :
    (k : ExecutionLifecycleKernel) (clock : DateTime) (c : Command) (d : TaskId)
    → IsValid k clock
    → HasCompleted k d
    → HasCompleted (run k c) d
unfolding is_ended
HasCompleted-run k clock c d v (s, e, done) = (s, run-ended k clock c d s v e (rw done refl), done)

run-DependenciesDone :
    (k : ExecutionLifecycleKernel) (clock : DateTime) (c : Command)
    → IsValid k clock
    → DependenciesDone k
    → DependenciesDone (run k c)
run-DependenciesDone k clock c v all id t s' et es tried d needs =
    let step = run-Step k c in
    let et' : get id k.tasks ≡ some t = rw (← step.same_tasks) et in
    elim (step.origin id s' es) [
      | inl (s, e, same) ↦
          HasCompleted-run k clock c d v (all id t s et' e (omega (arith, tried, same)) d needs)
      | inr (u, eu, done) ↦
          let eq : u ≡ t = cc (eu, et') in
          HasCompleted-run k clock c d v
            (check_dependencies-done k id t.dependencies d (rw (← eq) done) needs)
    ]

run_all-DependenciesDone :
    (k : ExecutionLifecycleKernel) (clock : DateTime) (cs : List Command)
    → IsValid k clock
    → InOrder clock cs
    → DependenciesDone k
    → DependenciesDone (run_all k cs)
unfolding run_all
run_all-DependenciesDone k clock [] v o all = all
run_all-DependenciesDone k clock (c ∷ cs) v o all =
    run_all-DependenciesDone (run k c) (instant c) cs (run-IsValid k clock c v o.0) o.1
      (run-DependenciesDone k clock c v all)

-- In a kernel that `new` makes from a retry budget below the largest u32, after any commands whose
-- instants do not go back, the dependencies of every task that has had an attempt have completed.
pub new-run_all-DependenciesDone :
    (run_id : RunId) (tasks : List Task) (budget : RetryBudget) (k : ExecutionLifecycleKernel)
    (commands : List Command)
    → budget.max_attempts + 1 < 2 ^ 32
    → new run_id tasks budget ≡ ok k
    → InOrder 0 commands
    → DependenciesDone (run_all k commands)
new-run_all-DependenciesDone run_id tasks budget k commands bound made order =
    run_all-DependenciesDone k 0 commands (new-IsValid run_id tasks budget k bound made) order
      λ id t s et es tried d needs.
        absurd (omega (arith, tried, new-attempts run_id tasks budget k id s made es))
