-- ===== src/Lifecycle/Invariant/AfterNew.antt =====
-- The kernel that `ExecutionLifecycleKernel::new` makes.
use mathlib.Core.Option
use ovca_core.Prelude.{
  subst, ℕ, ◌+◌, ◌^◌, ◌<◌, String, true, false, ◌≡◌, ◌≢◌, inl, inr, none, some, List, [], ◌∷◌,
  arith, ok, Bool-cases, Option-cases, refl,
}
use ovca_core.Collections.Order.{◌=?◌, string_ord, =?_iff}
use ovca_core.Collections.BTreeMap.{BTreeMap, get, contains_key}
use ovca_core.Collections.BTreeSet.{contains, collect}
use ovca_core.Goal.Ids.{RunId, TaskId}
use ovca_core.Goal.Task.{RetryBudget, Task, TaskStatus}
use ovca_core.Lifecycle.State.{ExecutionLifecycleKernel, TaskExecutionSnapshot, WriteKeyOwner}
use ovca_core.Lifecycle.Init.{
  new, index_tasks, first_goal, is_initial_status, check_definition, check_definitions, check_known,
  check_known_dependencies, initial_snapshot, initial_state,
}
use ovca_core.Lifecycle.Invariant.{AttemptsFit, is_running, recorded_outcome, IsValid, IsTaskValid}

get-initial_state :
    (id : TaskId) (m : BTreeMap TaskId Task)
    → get id (initial_state m) ≡ Option.map initial_snapshot (get id m)
unfolding initial_state get
get-initial_state id [] = refl
get-initial_state id ((i, t) ∷ m) = ground (arith, get-initial_state id m)

initial_status-at :
    (id : TaskId) (t : Task) (m : BTreeMap TaskId Task)
    → check_definitions m ≡ ok tt
    → get id m ≡ some t
    → is_initial_status t.status ≡ true
unfolding check_definitions check_definition get
initial_status-at id t [] h e = cc
initial_status-at id t ((i, u) ∷ m) h e = elim (Bool-cases (id =? i)) [
  | inl same ↦ let eu : u ≡ t = ground arith in rw (← eu) (ground arith)
  | inr other ↦ initial_status-at id t m (ground arith) (ground arith)
]

check_known-at :
    (id : TaskId) (tasks : BTreeMap TaskId Task) (ds : List TaskId) (d : TaskId)
    → check_known id tasks ds ≡ ok tt
    → contains d ds ≡ true
    → contains_key d tasks ≡ true
unfolding check_known contains
check_known-at id tasks [] d h c = cc
check_known-at id tasks (j ∷ ds) d h c = elim (Bool-cases (d =? j)) [
  | inl same ↦ rw ((=?_iff d j).0 same) (ground arith)
  | inr other ↦ check_known-at id tasks ds d (ground arith) (ground arith)
]

known-at :
    (tasks m : BTreeMap TaskId Task) (id : TaskId) (t : Task)
    → check_known_dependencies tasks m ≡ ok tt
    → get id m ≡ some t
    → check_known t.id tasks (collect t.dependencies) ≡ ok tt
unfolding check_known_dependencies get
known-at tasks [] id t h e = cc
known-at tasks ((i, u) ∷ m) id t h e = elim (Bool-cases (id =? i)) [
  | inl same ↦ let eu : u ≡ t = ground arith in rw (← eu) (ground arith)
  | inr other ↦ known-at tasks m id t (ground arith) (ground arith)
]

initial-fits :
    (x : TaskStatus) (limit : ℕ)
    → 0 < limit
    → is_initial_status x ≡ true
    → AttemptsFit x 0 limit × (false ≡ is_running x) × (none ≡ recorded_outcome x)
unfolding is_initial_status
initial-fits TaskStatus.pending limit h e = (refl, refl, refl)
initial-fits TaskStatus.ready limit h e = (h, refl, refl)
initial-fits TaskStatus.running limit h e = absurd cc
initial-fits TaskStatus.awaiting_approval limit h e = absurd cc
initial-fits TaskStatus.reviewing limit h e = absurd cc
initial-fits TaskStatus.completed limit h e = absurd cc
initial-fits TaskStatus.failed limit h e = absurd cc
initial-fits TaskStatus.cancelled limit h e = absurd cc

initial_snapshot-IsTaskValid :
    (limit : ℕ) (id : TaskId) (t : Task)
    → 0 < limit
    → is_initial_status t.status ≡ true
    → IsTaskValid limit id (initial_snapshot t)
initial_snapshot-IsTaskValid limit id t h e =
    let (fit, unleased, unrecorded) = initial-fits t.status limit h e in
    record { attempts_fit = fit; leased_when_running = unleased; recorded_when_ended = unrecorded }

-- What `new` has seen.
pub record NewFacts (run_id : RunId) (ts : List Task) (b : RetryBudget)
    (k : ExecutionLifecycleKernel) : Type 0 where
  pub positive : 0 < b.max_attempts
  pub definitions : check_definitions (index_tasks ts) ≡ ok tt
  pub dependencies : check_known_dependencies (index_tasks ts) (index_tasks ts) ≡ ok tt
  pub kernel_made : k ≡ record {
    run_id = run_id;
    goal_id = first_goal (index_tasks ts);
    retry_budget = b;
    tasks = index_tasks ts;
    state = initial_state (index_tasks ts);
    write_key_owners = [];
  }

pub new-facts :
    (run_id : RunId) (ts : List Task) (b : RetryBudget) (k : ExecutionLifecycleKernel)
    → new run_id ts b ≡ ok k
    → NewFacts run_id ts b k
unfolding new
new-facts run_id ts b k h = record {
  positive = ground arith;
  definitions = ground arith;
  dependencies = ground arith;
  kernel_made = ground arith;
}

-- An entry of the initial state is that of a task.
pub initial_state-entry :
    (id : TaskId) (s : TaskExecutionSnapshot) (m : BTreeMap TaskId Task)
    → get id (initial_state m) ≡ some s
    → (t : Task) × (get id m ≡ some t) × (s ≡ initial_snapshot t)
initial_state-entry id s m h = elim (Option-cases (get id m)) [
  | inl n ↦ absurd (ground (arith, get-initial_state id m))
  | inr (t, e) ↦ (t, e, ground (arith, get-initial_state id m))
]

no_owner : (key : String) (o : WriteKeyOwner) → get key [] ≢ some o
unfolding get
no_owner key o e = cc

pub new-IsValid :
    (run_id : RunId) (ts : List Task) (b : RetryBudget) (k : ExecutionLifecycleKernel)
    → b.max_attempts + 1 < 2 ^ 32
    → new run_id ts b ≡ ok k
    → IsValid k 0
new-IsValid run_id ts b k bound h =
    let f = new-facts run_id ts b k h in
    rw f.kernel_made (record {
      limit_positive = f.positive;
      limit_bounded = bound;
      same_tasks = λ id. ground (arith, get-initial_state id (index_tasks ts));
      dependencies_known = λ id t e d c.
          check_known-at t.id (index_tasks ts) (collect t.dependencies) d
            (known-at (index_tasks ts) (index_tasks ts) id t f.dependencies e) c;
      tasks_valid = λ id s e.
          let (t, et, es) = initial_state-entry id s (index_tasks ts) e in
          rw es (
            initial_snapshot-IsTaskValid b.max_attempts id t f.positive
              (initial_status-at id t (index_tasks ts) f.definitions et));
      leases_valid = λ id s e t l et el.
          let (u, eu, es) = initial_state-entry id s (index_tasks ts) e in absurd (cc (el, es));
      owners_sorted = tt;
      owners_held = λ key o e. absurd (no_owner key o e);
      leases_own = λ id l held alive.
          let (s, e, el) = held in
          let (u, eu, es) = initial_state-entry id s (index_tasks ts) e in absurd (cc (el, es));
    })

-- No task of a new kernel has had an attempt.
pub new-attempts :
    (run_id : RunId) (ts : List Task) (b : RetryBudget) (k : ExecutionLifecycleKernel) (id : TaskId)
    (s : TaskExecutionSnapshot)
    → new run_id ts b ≡ ok k
    → get id k.state ≡ some s
    → s.attempts ≡ 0
new-attempts run_id ts b k id s h e =
    let f = new-facts run_id ts b k h in
    let e' : get id (initial_state (index_tasks ts)) ≡ some s =
      subst (λ (x : ExecutionLifecycleKernel). get id x.state ≡ some s) f.kernel_made e in
    let (t, et, es) = initial_state-entry id s (index_tasks ts) e' in rw es refl
