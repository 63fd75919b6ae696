-- ===== src/Lifecycle/Commands.antt =====
-- The five public commands as changes of the kernel, and the sequences of them.
use ovca_core.Prelude.{List, [], ◌∷◌, ok, err, panic}
use ovca_core.Goal.Ids.{DateTime}
use ovca_core.Goal.Task.{TaskLease, TaskStatus, TaskTerminalRecord}
use ovca_core.Lifecycle.State.{
  Attempt, CancellationRequest, ClaimRequest, CompletionRequest, ExecutionLifecycleKernel,
  FailureRequest, HeartbeatRequest,
}
use ovca_core.Lifecycle.Claim.{apply_claim}
use ovca_core.Lifecycle.Heartbeat.{apply_heartbeat}
use ovca_core.Lifecycle.Terminal.{apply_completion, apply_cancellation, apply_failure}

-- The copy that was worked on replaces the kernel on success only.
abbrev pub settle :
    {A : Type 0}
    → ExecutionLifecycleKernel
    → Attempt (A × ExecutionLifecycleKernel)
    → Attempt A × ExecutionLifecycleKernel
settle k (ok (a, next)) = (ok a, next)
settle k (err e) = (err e, k)
settle k panic = (panic, k)

unfoldable pub claim :
    ExecutionLifecycleKernel → ClaimRequest → Attempt TaskLease × ExecutionLifecycleKernel
claim k request = settle k (apply_claim k request)

unfoldable pub heartbeat :
    ExecutionLifecycleKernel → HeartbeatRequest → Attempt TaskLease × ExecutionLifecycleKernel
heartbeat k request = settle k (apply_heartbeat k request)

unfoldable pub complete :
    ExecutionLifecycleKernel
    → CompletionRequest
    → Attempt TaskTerminalRecord × ExecutionLifecycleKernel
complete k request = settle k (apply_completion k request)

unfoldable pub cancel :
    ExecutionLifecycleKernel
    → CancellationRequest
    → Attempt TaskTerminalRecord × ExecutionLifecycleKernel
cancel k request = settle k (apply_cancellation k request)

unfoldable pub fail :
    ExecutionLifecycleKernel → FailureRequest → Attempt TaskStatus × ExecutionLifecycleKernel
fail k request = settle k (apply_failure k request)

-- A call of any of them, with its request.
pub data Command : Type 0 where
  claims : ClaimRequest → Command
  heartbeats : HeartbeatRequest → Command
  completes : CompletionRequest → Command
  cancels : CancellationRequest → Command
  fails : FailureRequest → Command

-- The instant that the caller gives.
abbrev pub instant : Command → DateTime
instant (claims r) = r.now
instant (heartbeats r) = r.now
instant (completes r) = r.occurred_at
instant (cancels r) = r.occurred_at
instant (fails r) = r.now

unfoldable pub run : ExecutionLifecycleKernel → Command → ExecutionLifecycleKernel
run k (claims r) = (claim k r).1
run k (heartbeats r) = (heartbeat k r).1
run k (completes r) = (complete k r).1
run k (cancels r) = (cancel k r).1
run k (fails r) = (fail k r).1

unfoldable pub run_all : ExecutionLifecycleKernel → List Command → ExecutionLifecycleKernel
run_all k [] = k
run_all k (c ∷ cs) = run_all (run k c) cs
