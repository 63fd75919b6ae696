-- ===== src/Lib.antt =====
-- The goal runtime of ovca-core: which runs, tasks and operations its rules let through.
--
-- The program keeps a run of a goal as a status that moves along a fixed diagram, its tasks in an
-- execution kernel that leases them to workers, and asks a guard policy about every operation with
-- a side effect. The guard's outcome names gates (owner approval, review, audit), and the
-- validation of a run's completion takes those gates into account.
--
-- Goal: the contracts of rust/ovca-types/src/goal_runtime.rs. Ids, Policy, Task, Evidence and Run
--   have its types; Transition has RUN_STATUS_TRANSITIONS, validate_run_transition and
--   validate_run_transition_with_guard_requirements. Below it Diagram has the life of a run as a
--   relation, Completion what a run has to show, History the statuses that a run has gone through.
-- Guard: evaluate_guard_request of rust/ovca-runtime-core/src/guardrails.rs and the functions it
--   calls. Tiers tells the tier that an effect takes, Keys describes lists of keys, Reasons the
--   requests that the policy has nothing against, Decisions the outcomes.
-- Lifecycle: ExecutionLifecycleKernel of rust/ovca-runtime-core/src/execution_lifecycle.rs. State
--   has its types, Init the function new, Claim, Heartbeat, Release and Terminal the functions
--   apply_* and what they call, Commands the public claim, heartbeat, complete, cancel and fail,
--   which work on a copy of the kernel that replaces it on success, Restore the function restore and
--   the read accessors. Invariant has the kernel's well-formedness and the proof for each command,
--   Safety, Attempts, Dependencies, Ending and Total what follows; below Restore, Facts, Owners and States are
--   about what restore tests, Acceptance and Persistence about what it accepts.
-- Scheduler: schedule_tasks of rust/ovca-runtime-core/src/scheduler.rs, which divides tasks into
--   waves. Plan describes waves, Refusal the faults that keep tasks from having any.
-- ReviewAudit: rust/ovca-runtime-core/src/review_audit.rs. Evidence has the validation of the goal,
--   the evidence catalog and the completion claim, Assessments that of the assessments, Decisions
--   the two decisions and the resolution of the gate that they make up.
-- Replay: rust/ovca-runtime-core/src/replay.rs. Chain has validate_event_chain, Plan the validation
--   of a recorded plan, Steps what each event does to the run, Run the function replay_run. Links
--   describes event streams, History reads off the payloads what events record, Records, Transition,
--   Reflects and Started carry that through the replay, Completed is about runs that have completed.
-- Finalization: FinalizationKernel of rust/ovca-runtime-core/src/finalization.rs. Once is
--   about the final responses among the events of a run.
-- Collections: BTreeMap and BTreeSet as lists in key order, the derived orders, and the tests on
--   slices. Prelude: Boolean tests, the result type with Rust's `?`, blank texts, lists.
--
-- An operation returns a Result: ok, err, or panic for a failed `expect` or an index into a map
-- that lacks the key. A shared state is passed and returned. An instant is a number, of which only
-- the order is used. A u32 is a natural number; the sum of the attempts and the count of the
-- evidence are reduced modulo 2 ^ 32, as a release build does. The loops are over lists, but for that
-- of the scheduler, which has as much fuel as there are tasks, and for the printing of an index in
-- an error. The count of a run's events is reduced modulo 2 ^ 64. `slice::binary_search` of the
-- standard library is the parameter SliceSearch, with what its documentation says of ascending
-- slices.
--
-- Not modelled: serialisation, Display and error texts, and the other modules of the runtime core
-- (durable guardrails, role executor, storage), which stand beside these parts; the servers,
-- the clients, the tools and the scripts, which are input and output around them.

pub mod Prelude
pub mod Collections
pub mod Goal
pub mod Guard
pub mod Lifecycle
pub mod Finalization
pub mod Scheduler
pub mod ReviewAudit
pub mod Replay
