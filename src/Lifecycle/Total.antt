-- ===== src/Lifecycle/Total.antt =====
-- The look-ups that the commands of the kernel take for granted.
use ovca_core.Prelude.{
  String, true, ◌≡◌, ◌≢◌, ◌≤◌, inl, inr, Option, none, some, List, [], ◌∷◌, ok, err, panic, arith,
  Option-cases, Result-cases, refl, ◌∙◌, ◌<◌,
}
use ovca_core.Collections.Order.{string_ord, =?_refl}
use ovca_core.Collections.BTreeMap.{BTreeMap, get, contains_key}
use ovca_core.Collections.BTreeSet.{contains, collect, contains-collect}
use ovca_core.Goal.Ids.{DateTime, Role, TaskId, WorkerId, LeaseId}
use ovca_core.Goal.Task.{Task, TaskLease, TaskStatus, TaskTerminalRecord}
use ovca_core.Lifecycle.State.{
  Attempt, ClaimRequest, ExecutionLifecycleKernel, HeartbeatRequest, FailureRequest,
  TaskExecutionSnapshot, WriteKeyOwner, validate_role,
}
use ovca_core.Lifecycle.Claim.{apply_claim, check_claimable, check_dependencies, check_write_keys}
use ovca_core.Lifecycle.Heartbeat.{apply_heartbeat}
use ovca_core.Lifecycle.Release.{require_active_owner}
use ovca_core.Lifecycle.Terminal.{
  TerminalRequest, completion_request, cancellation_request, apply_terminal, apply_completion,
  apply_cancellation, terminate, end_task, repeat_terminal, apply_failure,
}
use ovca_core.Lifecycle.Invariant.{IsValid}
use ovca_core.Lifecycle.Commands.{
  Command, claims, heartbeats, completes, cancels, fails, instant, settle, claim, heartbeat,
  complete, cancel, fail,
}
use ovca_core.Lifecycle.Invariant.AfterHeartbeat.{extend_owners-ok}
use ovca_core.Lifecycle.Invariant.AfterRelease.{require_active_owner-facts}
use ovca_core.Lifecycle.Invariant.AfterTerminal.{end_task-run}
use ovca_core.Lifecycle.Invariant.AfterFailure.{failing_owner, apply_failure-run}

validate_role-total : (id : TaskId) (a b : Role) → validate_role id a b ≢ panic
unfolding validate_role
validate_role-total id a b h = ground arith

check_claimable-total :
    (r : ClaimRequest) (x : TaskStatus) (o : Option TaskLease) → check_claimable r x o ≢ panic
unfolding check_claimable
check_claimable-total r x o h = ground arith

check_write_keys-total :
    (r : ClaimRequest) (owners : BTreeMap String WriteKeyOwner) (keys : List String)
    → check_write_keys r owners keys ≢ panic
unfolding check_write_keys
check_write_keys-total r owners [] h = cc
check_write_keys-total r owners (j ∷ keys) h = elim (Option-cases (get j owners)) [
  | inl e ↦ check_write_keys-total r owners keys (ground arith)
  | inr (o, e) ↦ check_write_keys-total r owners keys (ground arith)
]

check_dependencies-total :
    (k : ExecutionLifecycleKernel) (id : TaskId) (ds : List TaskId)
    → ((d : TaskId) → contains d (collect ds) ≡ true → contains_key d k.state ≡ true)
    → check_dependencies k id ds ≢ panic
unfolding check_dependencies
check_dependencies-total k id [] known h = cc
check_dependencies-total k id (d ∷ ds) known h = elim (Option-cases (get d k.state)) [
  | inl e ↦ ground (arith, known d, contains-collect d (d ∷ ds), =?_refl d)
  | inr (s, e) ↦
      check_dependencies-total k id ds
        (λ j c. known j (ground (arith, contains-collect j (d ∷ ds), contains-collect j ds)))
        (ground arith)
]

-- A task of the kernel has a state.
state-of :
    (k : ExecutionLifecycleKernel) (clock : DateTime) (id : TaskId) (t : Task)
    → IsValid k clock
    → get id k.tasks ≡ some t
    → (s : TaskExecutionSnapshot) × (get id k.state ≡ some s)
state-of k clock id t v e = elim (Option-cases (get id k.state)) [
  | inl n ↦ absurd (ground (arith, v.same_tasks id))
  | inr found ↦ found
]

apply_claim-total :
    (k : ExecutionLifecycleKernel) (clock : DateTime) (r : ClaimRequest)
    → IsValid k clock
    → apply_claim k r ≢ panic
unfolding apply_claim
apply_claim-total k clock r v h = elim (Option-cases (get r.task_id k.tasks)) [
  | inl e ↦ ground arith
  | inr (task, e) ↦
      let (s, es) = state-of k clock r.task_id task v e in
      let known =
        check_dependencies-total k r.task_id task.dependencies
          λ d c. v.same_tasks d ∙ v.dependencies_known r.task_id task e d c in
      ground (
        arith,
        known,
        validate_role-total r.task_id task.assigned_role r.worker_role,
        check_claimable-total r s.status s.current_lease,
        check_write_keys-total r k.write_key_owners (collect task.write_keys),
      )
]

apply_heartbeat-total :
    (k : ExecutionLifecycleKernel) (clock : DateTime) (r : HeartbeatRequest)
    → IsValid k clock
    → clock ≤ r.now
    → apply_heartbeat k r ≢ panic
unfolding apply_heartbeat
apply_heartbeat-total k clock r v forth h = elim (Option-cases (get r.task_id k.tasks)) [
  | inl e ↦ ground arith
  | inr (task, e) ↦
      let (s, es) = state-of k clock r.task_id task v e in
      elim (Option-cases s.current_lease) [
        | inl n ↦ ground (arith, validate_role-total r.task_id task.assigned_role r.worker_role)
        | inr (l, el) ↦
            let alive : r.now < l.expires_at =
              ground (arith, validate_role-total r.task_id task.assigned_role r.worker_role) in
            let (m, em) = extend_owners-ok r.expires_at l.write_keys k.write_key_owners λ key c.
              rw (v.leases_own r.task_id l (s, es, el) (omega (arith, forth, alive)) key c) refl in
            ground (arith, validate_role-total r.task_id task.assigned_role r.worker_role)
      ]
]

require_active_owner-total :
    (k : ExecutionLifecycleKernel) (clock : DateTime) (id : TaskId) (w : WorkerId) (role : Role)
    (lease_id : LeaseId) (now : DateTime)
    → IsValid k clock
    → require_active_owner k id w role lease_id now ≢ panic
unfolding require_active_owner
require_active_owner-total k clock id w role lease_id now v h =
    elim (Option-cases (get id k.tasks)) [
      | inl e ↦ ground arith
      | inr (task, e) ↦
          let (s, es) = state-of k clock id task v e in
          elim (Option-cases s.current_lease) [
            | inl n ↦ ground (arith, validate_role-total id task.assigned_role role)
            | inr (l, el) ↦ ground (arith, validate_role-total id task.assigned_role role)
          ]
    ]

repeat_terminal-total :
    (r : TerminalRequest) (old : TaskTerminalRecord) → repeat_terminal r old ≢ panic
unfolding repeat_terminal
repeat_terminal-total r old h = ground arith

end_task-total :
    (k : ExecutionLifecycleKernel) (clock : DateTime) (r : TerminalRequest)
    (s : TaskExecutionSnapshot)
    → IsValid k clock
    → get r.task_id k.state ≡ some s
    → end_task k r s ≢ panic
unfolding end_task
end_task-total k clock r s v e h =
    elim (Result-cases
      (require_active_owner k r.task_id r.worker_id r.worker_role r.lease_id r.occurred_at)) [
        | inl (l, el) ↦ cc (end_task-run k r s l e el, h)
        | inr (inl (x, ex)) ↦ ground arith
        | inr (inr ex) ↦
            require_active_owner-total k clock r.task_id r.worker_id r.worker_role r.lease_id
              r.occurred_at v ex
      ]

terminate-total :
    (k : ExecutionLifecycleKernel) (clock : DateTime) (r : TerminalRequest)
    (s : TaskExecutionSnapshot) (o : Option TaskTerminalRecord)
    → IsValid k clock
    → get r.task_id k.state ≡ some s
    → terminate k r s o ≢ panic
unfolding terminate
terminate-total k clock r s none v e h = end_task-total k clock r s v e h
terminate-total k clock r s (some old) v e h = ground (arith, repeat_terminal-total r old)

apply_terminal-total :
    (k : ExecutionLifecycleKernel) (clock : DateTime) (r : TerminalRequest)
    → IsValid k clock
    → apply_terminal k r ≢ panic
unfolding apply_terminal
apply_terminal-total k clock r v h = elim (Option-cases (get r.task_id k.tasks)) [
  | inl e ↦ ground arith
  | inr (task, e) ↦
      let (s, es) = state-of k clock r.task_id task v e in
      ground (
        arith,
        validate_role-total r.task_id task.assigned_role r.worker_role,
        terminate-total k clock r s s.terminal_record v es,
      )
]

apply_failure-total :
    (k : ExecutionLifecycleKernel) (clock : DateTime) (r : FailureRequest)
    → IsValid k clock
    → apply_failure k r ≢ panic
unfolding apply_failure
apply_failure-total k clock r v h = elim (Result-cases (failing_owner k r)) [
  | inl (l, el) ↦
      let f =
        require_active_owner-facts k r.task_id r.worker_id r.worker_role r.lease_id r.now l el in
      cc (apply_failure-run k r f.state l f.state_found el, h)
  | inr (inl (x, ex)) ↦ ground arith
  | inr (inr ex) ↦
      require_active_owner-total k clock r.task_id r.worker_id r.worker_role r.lease_id r.now v ex
]

-- The command comes back with a result or an error.
abbrev pub Returns : ExecutionLifecycleKernel → Command → Type 0
Returns k (claims r) = (claim k r).0 ≢ panic
Returns k (heartbeats r) = (heartbeat k r).0 ≢ panic
Returns k (completes r) = (complete k r).0 ≢ panic
Returns k (cancels r) = (cancel k r).0 ≢ panic
Returns k (fails r) = (fail k r).0 ≢ panic

settle-total :
    {A : Type 0}
    → (k : ExecutionLifecycleKernel) (x : Attempt (A × ExecutionLifecycleKernel)) → x ≢ panic
    → (settle k x).0 ≢ panic
settle-total k (ok (a, k')) n h = cc h
settle-total k (err e) n h = cc h
settle-total k panic n h = n refl

-- On a kernel with the invariant, a command whose instant is not before the kernel's clock does not
-- panic: no look-up that the code takes for granted fails.
pub command-Returns :
    (k : ExecutionLifecycleKernel) (clock : DateTime) (c : Command)
    → IsValid k clock
    → clock ≤ instant c
    → Returns k c
unfolding claim heartbeat complete cancel fail apply_completion apply_cancellation
command-Returns k clock (claims r) v forth =
    settle-total k (apply_claim k r) (apply_claim-total k clock r v)
command-Returns k clock (heartbeats r) v forth =
    settle-total k (apply_heartbeat k r) (apply_heartbeat-total k clock r v forth)
command-Returns k clock (completes r) v forth =
    settle-total k (apply_completion k r) (apply_terminal-total k clock (completion_request r) v)
command-Returns k clock (cancels r) v forth =
    settle-total k (apply_cancellation k r)
      (apply_terminal-total k clock (cancellation_request r) v)
command-Returns k clock (fails r) v forth =
    settle-total k (apply_failure k r) (apply_failure-total k clock r v)
