-- ===== src/Lifecycle/Budget.antt =====
-- The retry budget under the commands of the kernel.
use ovca_core.Prelude.{
  ℕ, ◌≡◌, Option, List, [], ◌∷◌, ok, err, panic, inl, inr, Option-cases, subst, refl, ◌∙◌,
}
use ovca_core.Goal.Task.{Task, TaskTerminalRecord}
use ovca_core.Lifecycle.State.{
  Attempt, ClaimRequest, ExecutionLifecycleKernel, TaskExecutionSnapshot,
}
use ovca_core.Lifecycle.Claim.{apply_claim, claimed}
use ovca_core.Lifecycle.Heartbeat.{apply_heartbeat}
use ovca_core.Lifecycle.Terminal.{
  TerminalRequest, completion_request, cancellation_request, apply_terminal, terminate,
  apply_completion, apply_cancellation, apply_failure,
}
use ovca_core.Lifecycle.Commands.{
  Command, claims, heartbeats, completes, cancels, fails, settle, claim, heartbeat, complete,
  cancel, fail, run, run_all,
}
use ovca_core.Lifecycle.Invariant.OnClaim.{apply_claim-facts}
use ovca_core.Lifecycle.Invariant.AfterHeartbeat.{apply_heartbeat-facts}
use ovca_core.Lifecycle.Invariant.AfterRelease.{require_active_owner-facts, freed}
use ovca_core.Lifecycle.Invariant.AfterTerminal.{
  end_task-owner, end_task-run, apply_terminal-cases, terminate-old, ended,
}
use ovca_core.Lifecycle.Invariant.AfterFailure.{apply_failure-owner, apply_failure-run, failed}

abbrev pub Keeps : ExecutionLifecycleKernel → ExecutionLifecycleKernel → Type 0
Keeps k k' = k'.retry_budget ≡ k.retry_budget

claimed-Keeps :
    (k : ExecutionLifecycleKernel) (r : ClaimRequest) (t : Task) (s : TaskExecutionSnapshot) (n : ℕ)
    → Keeps k (claimed k r t s n)
unfolding claimed
claimed-Keeps k r t s n = refl

settle-Keeps :
    {A : Type 0}
    → (k : ExecutionLifecycleKernel) (x : Attempt (A × ExecutionLifecycleKernel))
    → ((a : A) (k' : ExecutionLifecycleKernel) → x ≡ ok (a, k') → Keeps k k')
    → Keeps k (settle k x).1
settle-Keeps k (ok (a, k')) h = h a k' refl
settle-Keeps k (err e) h = refl
settle-Keeps k panic h = refl

apply_terminal-Keeps :
    (k : ExecutionLifecycleKernel) (r : TerminalRequest) (t : TaskTerminalRecord)
    (k' : ExecutionLifecycleKernel)
    → apply_terminal k r ≡ ok (t, k')
    → Keeps k k'
unfolding terminate
apply_terminal-Keeps k r t k' h =
    let (s, e, w) = apply_terminal-cases k r t k' h in
    elim (Option-cases s.terminal_record) [
      | inl n ↦
          let w' = subst (λ (x : Option TaskTerminalRecord). terminate k r s x ≡ ok (t, k')) n w in
          let (l, el) = end_task-owner k r s t k' w' in
          let made : freed k r.task_id l (ended k r s) ≡ k' = cc (end_task-run k r s l e el, w') in
          rw (← made) refl
      | inr (old, n) ↦
          let w' = subst (λ (x : Option TaskTerminalRecord). terminate k r s x ≡ ok (t, k')) n w in
          rw (← terminate-old k r s old t k' w') refl
    ]

run-Keeps : (k : ExecutionLifecycleKernel) (c : Command) → Keeps k (run k c)
unfolding run claim heartbeat complete cancel fail apply_completion apply_cancellation
run-Keeps k (claims r) = settle-Keeps k (apply_claim k r) λ l k' h.
    let f = apply_claim-facts k r l k' h in rw f.kernel_made (claimed-Keeps k r f.task f.current _)
run-Keeps k (heartbeats r) =
    settle-Keeps k (apply_heartbeat k r)
      λ l k' h. rw (apply_heartbeat-facts k r l k' h).kernel_made refl
run-Keeps k (completes r) =
    settle-Keeps k (apply_completion k r)
      λ t k' h. apply_terminal-Keeps k (completion_request r) t k' h
run-Keeps k (cancels r) =
    settle-Keeps k (apply_cancellation k r)
      λ t k' h. apply_terminal-Keeps k (cancellation_request r) t k' h
run-Keeps k (fails r) = settle-Keeps k (apply_failure k r) λ x k' h.
    let (l, el) = apply_failure-owner k r x k' h in
    let f =
      require_active_owner-facts k r.task_id r.worker_id r.worker_role r.lease_id r.now l el in
    let made : freed k r.task_id l (failed k r f.state) ≡ k' =
      cc (apply_failure-run k r f.state l f.state_found el, h) in
    rw (← made) refl

pub run_all-Keeps : (k : ExecutionLifecycleKernel) (cs : List Command) → Keeps k (run_all k cs)
unfolding run_all
run_all-Keeps k [] = refl
run_all-Keeps k (c ∷ cs) = run_all-Keeps (run k c) cs ∙ run-Keeps k c
