-- ===== src/Finalization.antt =====
-- The Coordinator's answer, rust/ovca-runtime-core/src/finalization.rs.
pub mod Once
mod Examples
use ovca_core.Prelude.{
  Bool, Option, none, some, is_some, not, List, [], ◌∷◌, Result, ok, err, ◌>>=◌, ◌>>◌, reject_if,
}
use ovca_core.Collections.Order.{◌=?◌}
use ovca_core.Goal.Ids.{Role, role_ord}
use ovca_core.Goal.Run.{CoordinatorFinalResponse, RunEvent, RunEventPayload}

pub data FinalizationError : Type 0 where
  role_not_authorized : Role → FinalizationError
  already_finalized : FinalizationError

pub record FinalizationKernel : Type 0 where
  pub final_response : Option CoordinatorFinalResponse

-- `FinalizationKernel::new`
abbrev pub new_kernel : FinalizationKernel
new_kernel = record { final_response = none }

abbrev pub is_finalized : FinalizationKernel → Bool
is_finalized k = is_some k.final_response

pub accept :
    FinalizationKernel
    → Role
    → CoordinatorFinalResponse
    → Result FinalizationError FinalizationKernel
accept k producer_role response = do
  reject_if (not (producer_role =? Role.coordinator))
      (FinalizationError.role_not_authorized producer_role)
  reject_if (is_finalized k) FinalizationError.already_finalized
  ok (record { final_response = some response })

pub finalize :
    FinalizationKernel
    → Role
    → CoordinatorFinalResponse
    → Result FinalizationError (RunEventPayload × FinalizationKernel)
finalize k producer_role response = do
  next ← accept k producer_role response
  ok (RunEventPayload.coordinator_final_response_recorded response, next)

-- The body of the loop of `replay`.
pub replay_event :
    FinalizationKernel → Role → RunEventPayload → Result FinalizationError FinalizationKernel
replay_event k role (RunEventPayload.coordinator_final_response_recorded response) =
    accept k role response
replay_event k role _ = ok k

module _ {Value : Type 0} where
  pub replay_from :
      FinalizationKernel → List (RunEvent Value) → Result FinalizationError FinalizationKernel
  replay_from k [] = ok k
  replay_from k (event ∷ events) = do
    next ← replay_event k event.producer_role event.payload
    replay_from next events

  pub replay : List (RunEvent Value) → Result FinalizationError FinalizationKernel
  replay events = replay_from new_kernel events
