-- ===== src/Lifecycle/Invariant/Runs.antt =====
-- The invariant over a sequence of commands.
use ovca_core.Prelude.{◌≤◌, ◌<◌, String, true, ◌≡◌, List, [], ◌∷◌, ok, err, panic, refl}
use ovca_core.Collections.Order.{string_ord}
use ovca_core.Collections.BTreeSet.{contains}
use ovca_core.Goal.Ids.{DateTime, TaskId}
use ovca_core.Goal.Task.{TaskLease}
use ovca_core.Lifecycle.State.{Attempt, ExecutionLifecycleKernel}
use ovca_core.Lifecycle.Claim.{apply_claim}
use ovca_core.Lifecycle.Heartbeat.{apply_heartbeat}
use ovca_core.Lifecycle.Terminal.{
  completion_request, cancellation_request, apply_completion, apply_cancellation, apply_failure,
}
use ovca_core.Lifecycle.Commands.{
  Command, settle, claims, heartbeats, completes, cancels, fails, instant, claim, heartbeat,
  complete, cancel, fail, run, run_all,
}
use ovca_core.Lifecycle.Invariant.{Holds, IsValid}
use ovca_core.Lifecycle.Invariant.Update.{IsValid-later}
use ovca_core.Lifecycle.Invariant.AfterClaim.{apply_claim-IsValid}
use ovca_core.Lifecycle.Invariant.AfterHeartbeat.{apply_heartbeat-IsValid}
use ovca_core.Lifecycle.Invariant.AfterTerminal.{apply_terminal-IsValid}
use ovca_core.Lifecycle.Invariant.AfterFailure.{apply_failure-IsValid}

-- The callers' instants do not go back.
abbrev pub InOrder : DateTime → List Command → Type 0
InOrder clock [] = Unit
InOrder clock (c ∷ cs) = (clock ≤ instant c) × InOrder (instant c) cs

abbrev pub last_instant : DateTime → List Command → DateTime
last_instant clock [] = clock
last_instant clock (c ∷ cs) = last_instant (instant c) cs

-- It is enough that the successful results keep the invariant.
settle-IsValid :
    {A : Type 0}
    → (k : ExecutionLifecycleKernel) (clock later : DateTime)
      (x : Attempt (A × ExecutionLifecycleKernel))
    → IsValid k clock
    → clock ≤ later
    → ((a : A) (k' : ExecutionLifecycleKernel) → x ≡ ok (a, k') → IsValid k' later)
    → IsValid (settle k x).1 later
settle-IsValid k clock later (ok (a, k')) v forth h = h a k' refl
settle-IsValid k clock later (err e) v forth h = IsValid-later k clock later forth v
settle-IsValid k clock later panic v forth h = IsValid-later k clock later forth v

pub run-IsValid :
    (k : ExecutionLifecycleKernel) (clock : DateTime) (c : Command)
    → IsValid k clock
    → clock ≤ instant c
    → IsValid (run k c) (instant c)
unfolding run claim heartbeat complete cancel fail apply_completion apply_cancellation
run-IsValid k clock (claims r) v forth =
    settle-IsValid k clock r.now (apply_claim k r) v forth
      λ l k' e. apply_claim-IsValid k clock r l k' v forth e
run-IsValid k clock (heartbeats r) v forth =
    settle-IsValid k clock r.now (apply_heartbeat k r) v forth
      λ l k' e. apply_heartbeat-IsValid k clock r l k' v forth e
run-IsValid k clock (completes r) v forth =
    settle-IsValid k clock r.occurred_at (apply_completion k r) v forth
      λ t k' e. apply_terminal-IsValid k clock (completion_request r) t k' v forth e
run-IsValid k clock (cancels r) v forth =
    settle-IsValid k clock r.occurred_at (apply_cancellation k r) v forth
      λ t k' e. apply_terminal-IsValid k clock (cancellation_request r) t k' v forth e
run-IsValid k clock (fails r) v forth =
    settle-IsValid k clock r.now (apply_failure k r) v forth
      λ x k' e. apply_failure-IsValid k clock r x k' v forth e

-- Commands that come in the order of their instants keep the invariant, whether they succeed or not.
pub run_all-IsValid :
    (k : ExecutionLifecycleKernel) (clock : DateTime) (cs : List Command)
    → IsValid k clock
    → InOrder clock cs
    → IsValid (run_all k cs) (last_instant clock cs)
unfolding run_all
run_all-IsValid k clock [] v o = v
run_all-IsValid k clock (c ∷ cs) v o =
    run_all-IsValid (run k c) (instant c) cs (run-IsValid k clock c v o.0) o.1

-- Two leases that have not expired share no write key, unless they are of one task.
pub IsValid-exclusive :
    (k : ExecutionLifecycleKernel) (clock : DateTime) (i j : TaskId) (l m : TaskLease)
    (key : String)
    → IsValid k clock
    → Holds k.state i l
    → Holds k.state j m
    → clock < l.expires_at
    → clock < m.expires_at
    → contains key l.write_keys ≡ true
    → contains key m.write_keys ≡ true
    → i ≡ j
IsValid-exclusive k clock i j l m key v hi hj li lj ci cj =
    cc (v.leases_own i l hi li key ci, v.leases_own j m hj lj key cj)
