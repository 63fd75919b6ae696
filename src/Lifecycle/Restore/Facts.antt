-- ===== src/Lifecycle/Restore/Facts.antt =====
-- The tests of `restore` on a single task, its lease and its record.
use mathlib.Core.Option
use ovca_core.Prelude.{
  ℕ, ◌≤◌, ◌<◌, ◌≡◌, ◌↔◌, refl, Option, none, some, true, false, ok, arith, is_some,
}
use ovca_core.Collections.Order.{◌=?◌, string_ord, =?_iff}
use ovca_core.Collections.BTreeSet.{collect}
use ovca_core.Collections.Equality.{
  Decides, ord-Decides, same_list-Decides, same_option, same_option-Decides,
}
use ovca_core.Goal.Ids.{role_ord, RunId, TaskId, goal_runtime_contract_version}
use ovca_core.Goal.Task.{
  Task, TaskLease, TaskStatus, TaskTerminalOutcome, TaskTerminalRecord, same_outcome,
  task_status_ord,
}
use ovca_core.Lifecycle.State.{TaskExecutionSnapshot}
use ovca_core.Lifecycle.Invariant.{
  AttemptsFit, IsTaskValid, IsLeaseValid, is_running, recorded_outcome, outcome_of,
}
use ovca_core.Lifecycle.Restore.{
  is_unsupported, valid_attempts, expected_outcome, actual_outcome, check_status, check_lease,
  check_record,
}

pub same_outcome-Decides : Decides same_outcome
same_outcome-Decides TaskTerminalOutcome.completed TaskTerminalOutcome.completed =
    (λ h. refl, λ e. refl)
same_outcome-Decides TaskTerminalOutcome.cancelled TaskTerminalOutcome.cancelled =
    (λ h. refl, λ e. refl)
same_outcome-Decides TaskTerminalOutcome.completed TaskTerminalOutcome.cancelled =
    (λ h. absurd cc, λ e. absurd cc)
same_outcome-Decides TaskTerminalOutcome.cancelled TaskTerminalOutcome.completed =
    (λ h. absurd cc, λ e. absurd cc)

-- A task that has never been claimed has not failed either.
abbrev pub FailedOnlyTried : TaskExecutionSnapshot → Type 0
FailedOnlyTried s = s.attempts ≡ 0 → is_some s.last_failure_reason ≡ false

outcome_of-actual :
    (o : Option TaskTerminalRecord)
    → Option.map (λ (r : TaskTerminalRecord). r.outcome) o ≡ outcome_of o
outcome_of-actual none = refl
outcome_of-actual (some r) = refl

expected-recorded : (x : TaskStatus) → expected_outcome x ≡ recorded_outcome x
unfolding expected_outcome
expected-recorded TaskStatus.pending = refl
expected-recorded TaskStatus.ready = refl
expected-recorded TaskStatus.running = refl
expected-recorded TaskStatus.awaiting_approval = refl
expected-recorded TaskStatus.reviewing = refl
expected-recorded TaskStatus.completed = refl
expected-recorded TaskStatus.failed = refl
expected-recorded TaskStatus.cancelled = refl

is_running_lem : (x : TaskStatus) → (x =? TaskStatus.running) ≡ is_running x
is_running_lem TaskStatus.pending = refl
is_running_lem TaskStatus.ready = refl
is_running_lem TaskStatus.running = refl
is_running_lem TaskStatus.awaiting_approval = refl
is_running_lem TaskStatus.reviewing = refl
is_running_lem TaskStatus.completed = refl
is_running_lem TaskStatus.failed = refl
is_running_lem TaskStatus.cancelled = refl

attempts-AttemptsFit :
    (x : TaskStatus) (n limit : ℕ)
    → n ≤ limit
    → valid_attempts x n limit ≡ ok true
    → AttemptsFit x n limit
unfolding valid_attempts
attempts-AttemptsFit TaskStatus.pending n limit small h = ground arith
attempts-AttemptsFit TaskStatus.ready n limit small h = ground arith
attempts-AttemptsFit TaskStatus.running n limit small h = ground arith
attempts-AttemptsFit TaskStatus.awaiting_approval n limit small h = ground arith
attempts-AttemptsFit TaskStatus.reviewing n limit small h = ground arith
attempts-AttemptsFit TaskStatus.completed n limit small h = ground arith
attempts-AttemptsFit TaskStatus.failed n limit small h = ground arith
attempts-AttemptsFit TaskStatus.cancelled n limit small h = ground arith

pub AttemptsFit-attempts :
    (x : TaskStatus) (n limit : ℕ)
    → AttemptsFit x n limit
    → (n ≤ limit) × (is_unsupported x ≡ false) × (valid_attempts x n limit ≡ ok true)
unfolding is_unsupported valid_attempts
AttemptsFit-attempts TaskStatus.pending n limit f = (omega (arith, f), refl, ground (arith, f))
AttemptsFit-attempts TaskStatus.ready n limit f = (omega (arith, f), refl, ground (arith, f))
AttemptsFit-attempts TaskStatus.running n limit f = (omega (arith, f), refl, ground (arith, f))
AttemptsFit-attempts TaskStatus.awaiting_approval n limit f = absurd f
AttemptsFit-attempts TaskStatus.reviewing n limit f = absurd f
AttemptsFit-attempts TaskStatus.completed n limit f = (omega (arith, f), refl, ground (arith, f))
AttemptsFit-attempts TaskStatus.failed n limit f = (omega (arith, f), refl, ground (arith, f))
AttemptsFit-attempts TaskStatus.cancelled n limit f = (omega (arith, f), refl, ground (arith, f))

outcomes_agree :
    (s : TaskExecutionSnapshot)
    → (same_option same_outcome (actual_outcome s) (expected_outcome s.status) ≡ true)
      ↔ (outcome_of s.terminal_record ≡ recorded_outcome s.status)
outcomes_agree s =
    let d =
      same_option-Decides same_outcome same_outcome-Decides (actual_outcome s)
        (expected_outcome s.status) in
    let a = outcome_of-actual s.terminal_record in
    let e = expected-recorded s.status in (λ h. cc (d.0 h, a, e), λ h. d.1 (cc (h, a, e)))

pub check_status_iff :
    (limit : ℕ) (id : TaskId) (s : TaskExecutionSnapshot)
    → (check_status limit id s ≡ ok tt) ↔ (IsTaskValid limit id s × FailedOnlyTried s)
unfolding check_status
check_status_iff limit id s = (
  λ h. (
    record {
      attempts_fit = attempts-AttemptsFit s.status s.attempts limit (ground arith) (ground arith);
      leased_when_running = ground (arith, is_running_lem s.status);
      recorded_when_ended = (outcomes_agree s).0 (ground arith);
    },
    λ e. ground arith,
  ),
  λ f.
      let (small, supported, fits) =
        AttemptsFit-attempts s.status s.attempts limit f.0.attempts_fit in
      ground (
        arith,
        is_running_lem s.status,
        f.0.leased_when_running,
        (outcomes_agree s).1 f.0.recorded_when_ended,
        f.1,
      ),
)

pub check_lease_iff :
    (run_id : RunId) (limit : ℕ) (id : TaskId) (t : Task) (n : ℕ) (l : TaskLease)
    → (check_lease run_id limit id t n l ≡ ok tt)
      ↔ (IsLeaseValid run_id limit l.heartbeat_at id t n l × (0 < l.attempt))
unfolding check_lease
check_lease_iff run_id limit id t n l = (
  λ h. (
    record {
      lease_version = ground arith;
      lease_run = (=?_iff l.run_id run_id).0 (ground arith);
      lease_task = (=?_iff l.task_id id).0 (ground arith);
      lease_role = (=?_iff l.worker_role t.assigned_role).0 (ground arith);
      lease_keys =
          (same_list-Decides ◌=?◌ ord-Decides l.write_keys (collect t.write_keys)).0 (ground arith);
      lease_attempt = ground arith;
      lease_limit = ground arith;
      heartbeat_after_claim = ground arith;
      heartbeat_before_expiry = ground arith;
      heartbeat_past = omega arith;
    },
    ground arith,
  ),
  λ f. ground (
    arith,
    f.0.lease_version,
    f.0.lease_attempt,
    f.0.lease_limit,
    f.0.heartbeat_after_claim,
    f.0.heartbeat_before_expiry,
    (=?_iff l.run_id run_id).1 f.0.lease_run,
    (=?_iff l.task_id id).1 f.0.lease_task,
    (=?_iff l.worker_role t.assigned_role).1 f.0.lease_role,
    (same_list-Decides ◌=?◌ ord-Decides l.write_keys (collect t.write_keys)).1 f.0.lease_keys,
  ),
)

-- The record of an ended task is of this run and this task.
pub record IsRecordOf (run_id : RunId) (id : TaskId) (r : TaskTerminalRecord) : Type 0 where
  pub record_version : r.contract_version ≡ goal_runtime_contract_version
  pub record_run : r.run_id ≡ run_id
  pub record_task : r.task_id ≡ id

pub check_record_iff :
    (run_id : RunId) (id : TaskId) (n : ℕ) (r : TaskTerminalRecord)
    → (check_record run_id id n (some r) ≡ ok tt) ↔ ((0 < n) × IsRecordOf run_id id r)
check_record_iff run_id id n r = (
  λ h. (
    ground arith,
    record {
      record_version = ground arith;
      record_run = (=?_iff r.run_id run_id).0 (ground arith);
      record_task = (=?_iff r.task_id id).0 (ground arith);
    },
  ),
  λ f. ground (
    arith,
    f.0,
    f.1.record_version,
    (=?_iff r.run_id run_id).1 f.1.record_run,
    (=?_iff r.task_id id).1 f.1.record_task,
  ),
)

leased-fit : (x : TaskStatus) (n limit : ℕ) → AttemptsFit x n limit → is_running x ≡ true → 1 ≤ n
leased-fit TaskStatus.running n limit f h = f.0
leased-fit TaskStatus.pending n limit f h = absurd (cc h)
leased-fit TaskStatus.ready n limit f h = absurd (cc h)
leased-fit TaskStatus.awaiting_approval n limit f h = absurd (cc h)
leased-fit TaskStatus.reviewing n limit f h = absurd (cc h)
leased-fit TaskStatus.completed n limit f h = absurd (cc h)
leased-fit TaskStatus.failed n limit f h = absurd (cc h)
leased-fit TaskStatus.cancelled n limit f h = absurd (cc h)

recorded-fit :
    (x : TaskStatus) (n limit : ℕ) (o : TaskTerminalOutcome)
    → AttemptsFit x n limit
    → recorded_outcome x ≡ some o
    → 1 ≤ n
recorded-fit TaskStatus.completed n limit o f h = f.0
recorded-fit TaskStatus.cancelled n limit o f h = f.0
recorded-fit TaskStatus.pending n limit o f h = absurd (cc h)
recorded-fit TaskStatus.ready n limit o f h = absurd (cc h)
recorded-fit TaskStatus.running n limit o f h = absurd (cc h)
recorded-fit TaskStatus.awaiting_approval n limit o f h = absurd (cc h)
recorded-fit TaskStatus.reviewing n limit o f h = absurd (cc h)
recorded-fit TaskStatus.failed n limit o f h = absurd (cc h)

-- A lease or a record comes from an attempt.
pub leased-attempts :
    (limit : ℕ) (id : TaskId) (s : TaskExecutionSnapshot) (l : TaskLease)
    → IsTaskValid limit id s
    → s.current_lease ≡ some l
    → 1 ≤ s.attempts
leased-attempts limit id s l v el =
    leased-fit s.status s.attempts limit v.attempts_fit (ground (arith, v.leased_when_running))

pub recorded-attempts :
    (limit : ℕ) (id : TaskId) (s : TaskExecutionSnapshot) (r : TaskTerminalRecord)
    → IsTaskValid limit id s
    → s.terminal_record ≡ some r
    → 1 ≤ s.attempts
recorded-attempts limit id s r v er =
    recorded-fit s.status s.attempts limit r.outcome v.attempts_fit
      (ground (arith, v.recorded_when_ended))
