-- ===== src/Replay/Chain.antt =====
-- `validate_event_chain`.
use ovca_core.Prelude.{
  ℕ, ◌+◌, Bool, true, false, Option, none, some, List, [], ◌∷◌, ok, err, panic, ◌>>◌, reject_if,
  not, ◌==◌, if◌then◌else◌,
}
use ovca_core.Collections.Order.{◌=?◌, string_ord}
use ovca_core.Collections.BTreeMap.{BTreeMap, get, insert}
use ovca_core.Collections.Equality.{same_option}
use ovca_core.Goal.Ids.{EventId, RunId, goal_runtime_contract_version}
use ovca_core.Goal.Run.{RunEvent, RunEventPayload}
use ovca_core.Replay.{ReplayError, Replayed}

-- `matches!(event.payload, RunEventPayload::RunCreated { .. })`
unfoldable pub is_run_created : RunEventPayload → Bool
is_run_created (RunEventPayload.run_created created) = true
is_run_created _ = false

module _ {Value : Type 0} where
  -- The test of the payload of the event at an index.
  abbrev pub check_created : ℕ → RunEvent Value → Replayed (Unit {0})
  check_created index event =
      if index == 0
      then reject_if (not (is_run_created event.payload))
          (ReplayError.first_event_not_run_created event.id)
      else reject_if (is_run_created event.payload)
          (ReplayError.duplicate_run_created event.sequence event.id)

  abbrev pub check_initial : RunEvent Value → Option EventId → Replayed (Unit {0})
  check_initial event none = ok tt
  check_initial event (some found) =
      err (ReplayError.initial_previous_event_id_present event.id found)

  abbrev pub check_previous : RunEvent Value → Option EventId → Replayed (Unit {0})
  check_previous event none = panic
  check_previous event (some expected) =
      reject_if (not (same_option ◌=?◌ event.previous_event_id (some expected))) (
        ReplayError.previous_event_id_mismatch event.sequence event.id expected
          event.previous_event_id)

  abbrev pub check_link : ℕ → Option EventId → RunEvent Value → Replayed (Unit {0})
  check_link index previous_event_id event =
      if index == 0
      then check_initial event event.previous_event_id
      else check_previous event previous_event_id

  abbrev pub reject_seen : RunEvent Value → Option ℕ → Replayed (Unit {0})
  reject_seen event none = ok tt
  reject_seen event (some first_sequence) =
      err (ReplayError.duplicate_event_id event.id first_sequence event.sequence)

  unfoldable pub check_event :
      RunId → ℕ → Option EventId → BTreeMap EventId ℕ → RunEvent Value → Replayed (Unit {0})
  check_event expected_run_id index previous_event_id seen_event_ids event = do
    reject_if (not (event.contract_version == goal_runtime_contract_version)) (
        ReplayError.contract_version_mismatch event.sequence goal_runtime_contract_version
          event.contract_version)
    check_created index event
    reject_if (not (event.run_id =? expected_run_id))
        (ReplayError.run_id_mismatch event.sequence expected_run_id event.run_id)
    reject_if (not (event.sequence == index))
        (ReplayError.sequence_mismatch event.id index event.sequence)
    check_link index previous_event_id event
    reject_seen event (get event.id seen_event_ids)

  -- The loop over the events, from an index on.
  unfoldable pub chain_from :
      RunId → ℕ → Option EventId → BTreeMap EventId ℕ → List (RunEvent Value) → Replayed (Unit {0})
  chain_from expected_run_id index previous_event_id seen_event_ids [] = ok tt
  chain_from expected_run_id index previous_event_id seen_event_ids (event ∷ events) = do
    check_event expected_run_id index previous_event_id seen_event_ids event
    chain_from expected_run_id (index + 1) (some event.id)
        (insert event.id event.sequence seen_event_ids) events

  unfoldable pub validate_event_chain : List (RunEvent Value) → Replayed RunId
  validate_event_chain [] = err ReplayError.empty_stream
  validate_event_chain (first ∷ events) = do
    chain_from first.run_id 0 none [] (first ∷ events)
    ok first.run_id
