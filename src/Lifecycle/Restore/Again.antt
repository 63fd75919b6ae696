-- ===== src/Lifecycle/Restore/Again.antt =====
-- `restore` of the snapshot of a kernel that commands have worked on.
use ovca_core.Prelude.{
  ◌+◌, ◌^◌, ◌<◌, String, true, subst, ◌≡◌, ◌↔◌, inl, inr, refl, sym, ◌∙◌, Option, some, List, [],
  ◌∷◌, ok, arith, Option-cases, ap,
}
use ovca_core.Collections.Order.{string_ord}
use ovca_core.Collections.BTreeMap.{BTreeMap, get, keys, contains_key}
use ovca_core.Collections.BTreeMap.Sorted.{IsSorted}
use ovca_core.Collections.BTreeMap.Entries.{ForAll}
use ovca_core.Collections.BTreeMap.Extensional.{IsSorted-keys, get-injective}
use ovca_core.Collections.BTreeSet.{contains}
use ovca_core.Goal.Ids.{DateTime, GoalId, RunId, TaskId}
use ovca_core.Goal.Task.{RetryBudget, Task, TaskLease}
use ovca_core.Lifecycle.State.{ExecutionLifecycleKernel, WriteKeyOwner, snapshot}
use ovca_core.Lifecycle.Init.{new, index_tasks, initial_state}
use ovca_core.Lifecycle.Commands.{Command, run_all}
use ovca_core.Lifecycle.Invariant.{IsTaskValid, IsValid, Holds, IsLeaseValid, owner_of}
use ovca_core.Lifecycle.Invariant.AfterNew.{new-facts, new-IsValid, initial_state-entry}
use ovca_core.Lifecycle.Invariant.Runs.{InOrder, last_instant, run_all-IsValid}
use ovca_core.Lifecycle.Restore.{restore, check_states}
use ovca_core.Lifecycle.Restore.States.{check_states-AreTaken}
use ovca_core.Lifecycle.Restore.Acceptance.{IsAcceptable, check_states-ok}
use ovca_core.Lifecycle.Restore.Persistence.{IsFit, Persists, run_all-Persists}
use ovca_core.Lifecycle.Restore.Correct.{
  with_state, restore-facts, IsRestored-restore, IsRestored-AreTaken, IsLeaseValid-at,
}
use ovca_core.Scheduler.Tasks.{index_tasks-IsSorted}

-- Every current lease owns all its keys, also when it has expired.
abbrev pub OwnsAll : ExecutionLifecycleKernel → Type 0
OwnsAll k =
    (id : TaskId) (l : TaskLease) (key : String)
    → Holds k.state id l
    → contains key l.write_keys ≡ true
    → get key k.write_key_owners ≡ some (owner_of id l)

keys-initial_state : (m : BTreeMap TaskId Task) → keys (initial_state m) ≡ keys m
unfolding initial_state
keys-initial_state [] = refl
keys-initial_state ((i, t) ∷ m) = ap (λ x. i ∷ x) (keys-initial_state m)

abbrev kernel_at :
    RunId
    → Option GoalId
    → RetryBudget
    → BTreeMap TaskId Task
    → ExecutionLifecycleKernel
    → ExecutionLifecycleKernel
kernel_at run_id goal_id retry_budget tasks k = record {
  run_id = run_id;
  goal_id = goal_id;
  retry_budget = retry_budget;
  tasks = tasks;
  state = k.state;
  write_key_owners = k.write_key_owners;
}

-- The kernel that `new` makes, as far as `restore` goes by it.
record IsNew (run_id : RunId) (b : RetryBudget) (start : ExecutionLifecycleKernel) : Type 0 where
  pub own_run : start.run_id ≡ run_id
  pub own_budget : start.retry_budget ≡ b
  pub tasks_sorted : IsSorted start.tasks
  pub own_keys : keys start.state ≡ keys start.tasks
  pub all_fit : ForAll (IsFit start.run_id) start.state

new-IsNew :
    (run_id : RunId) (ts : List Task) (b : RetryBudget) (start : ExecutionLifecycleKernel)
    → new run_id ts b ≡ ok start
    → IsNew run_id b start
new-IsNew run_id ts b start made = rw (new-facts run_id ts b start made).kernel_made (record {
  own_run = refl;
  own_budget = refl;
  tasks_sorted = index_tasks-IsSorted ts;
  own_keys = keys-initial_state (index_tasks ts);
  all_fit = λ id s e.
      let (t, et, es) = initial_state-entry id s (index_tasks ts) e in
      rw es (record { tried = λ _. refl; recorded = λ r er. absurd (cc er) });
})

module _ (run_id : RunId) (ts : List Task) (b : RetryBudget) (start : ExecutionLifecycleKernel)
    (made : new run_id ts b ≡ ok start) (k : ExecutionLifecycleKernel) (clock : DateTime)
    (v : IsValid k clock) (p : Persists start k) where
  start-IsNew : IsNew run_id b start
  start-IsNew = new-IsNew run_id ts b start made

  same_keys : keys k.state ≡ keys start.tasks
  same_keys = p.keys_persist ∙ start-IsNew.own_keys

  state-IsSorted : IsSorted k.state
  state-IsSorted = IsSorted-keys k.state start.tasks same_keys start-IsNew.tasks_sorted

  acceptable : ForAll (IsAcceptable start.run_id b.max_attempts start.tasks) k.state
  acceptable = λ id s e.
      let eb : k.retry_budget ≡ b = p.budget_persists ∙ start-IsNew.own_budget in
      record {
        valid =
            subst (λ (x : RetryBudget). IsTaskValid x.max_attempts id s) eb (v.tasks_valid id s e);
        fit = p.fits_persist start-IsNew.all_fit id s e;
        known = ap (contains_key id) (sym p.tasks_persist) ∙ sym (v.same_tasks id) ∙ rw e refl;
        lease_valid = λ t l et el.
            let et' : get id k.tasks ≡ some t = ap (get id) p.tasks_persist ∙ et in
            let old = v.leases_valid id s e t l et' el in
            let at =
              IsLeaseValid-at k.run_id k.retry_budget.max_attempts clock l.heartbeat_at id t
                s.attempts l old (omega arith) in
            subst
              (λ (x : RetryBudget).
                IsLeaseValid start.run_id x.max_attempts l.heartbeat_at id t s.attempts l)
              eb
              (subst
                (λ (x : RunId).
                  IsLeaseValid x k.retry_budget.max_attempts l.heartbeat_at id t s.attempts l)
                p.run_persists at);
      }

  accepted :
      OwnsAll k
      → (owners : BTreeMap String WriteKeyOwner) × (check_states start.run_id b.max_attempts
            start.tasks k.state []
          ≡ ok owners)
  unfolding get
  accepted owns =
      check_states-ok start.run_id b.max_attempts start.tasks k.state [] state-IsSorted acceptable
        (λ i j l n key hl hn cl cn. cc (owns i l key hl cl, owns j n key hn cn))
        (λ i l key h c. refl)

  -- The owners that are derived are those that the kernel has.
  owners-derived :
      (owners : BTreeMap String WriteKeyOwner)
      → OwnsAll k
      → check_states start.run_id b.max_attempts start.tasks k.state [] ≡ ok owners
      → owners ≡ k.write_key_owners
  unfolding get
  owners-derived owners owns e =
      let taken =
        check_states-AreTaken start.run_id b.max_attempts start.tasks k.state [] owners
          state-IsSorted e in
      get-injective owners k.write_key_owners (taken.owners_stay_sorted tt) v.owners_sorted λ key.
        elim (Option-cases (get key owners)) [
          | inr (o, eo) ↦ elim (taken.owners_from key o eo) [
            | inl before ↦ absurd (cc before)
            | inr (l, held, c, same) ↦ cc (eo, owns o.task_id l key held c, same)
          ]
          | inl nobody ↦ elim (Option-cases (get key k.write_key_owners)) [
            | inl nobody' ↦ cc (nobody, nobody')
            | inr (o, eo) ↦
                let (l, held, c, same) = v.owners_held key o eo in
                absurd (cc (nobody, taken.all_owned o.task_id l key held c))
          ]
        ]

  restored-same : with_state start (snapshot k) ≡ k
  unfolding snapshot
  restored-same =
      let e : kernel_at start.run_id start.goal_id start.retry_budget start.tasks k
          ≡ kernel_at k.run_id k.goal_id k.retry_budget k.tasks k =
        rw (p.run_persists, p.goal_persists, p.budget_persists, p.tasks_persist) refl in
      e

  restore-OwnsAll : OwnsAll k → restore run_id ts b (snapshot k) ≡ ok k
  unfolding snapshot
  restore-OwnsAll owns =
      let (owners, e) = accepted owns in
      IsRestored-restore run_id ts b (snapshot k) start (record {
        made = made;
        same_run = p.run_persists ∙ start-IsNew.own_run;
        same_goal = p.goal_persists;
        same_limit =
            ap (λ (x : RetryBudget). x.max_attempts) (p.budget_persists ∙ start-IsNew.own_budget);
        same_keys = same_keys;
        derived = e ∙ ap ok (owners-derived owners owns e);
      })
      ∙ ap ok restored-same

  OwnsAll-restore : restore run_id ts b (snapshot k) ≡ ok k → OwnsAll k
  unfolding snapshot
  OwnsAll-restore h id l key held c =
      let (start', f, _) = restore-facts run_id ts b (snapshot k) k h in
      (IsRestored-AreTaken run_id ts b (snapshot k) start' f).all_owned id l key held c

module _ (run_id : RunId) (tasks : List Task) (budget : RetryBudget) (k : ExecutionLifecycleKernel)
    (commands : List Command) (bound : budget.max_attempts + 1 < 2 ^ 32)
    (made : new run_id tasks budget ≡ ok k) (order : InOrder 0 commands) where
  last-IsValid : IsValid (run_all k commands) (last_instant 0 commands)
  last-IsValid = run_all-IsValid k 0 commands (new-IsValid run_id tasks budget k bound made) order

  last-Persists : Persists k (run_all k commands)
  last-Persists =
      let start = new-IsNew run_id tasks budget k made in
      run_all-Persists k 0 commands (new-IsValid run_id tasks budget k bound made) order
        (IsSorted-keys k.state k.tasks start.own_keys start.tasks_sorted)

-- After commands whose instants do not go back, on a kernel that `new` makes from a retry budget
-- below the largest u32, `restore` gives the kernel back from its snapshot exactly when every current
-- lease, an expired one included, owns all its keys.
pub restore-snapshot_iff :
    (run_id : RunId) (tasks : List Task) (budget : RetryBudget) (k : ExecutionLifecycleKernel)
    (commands : List Command)
    → budget.max_attempts + 1 < 2 ^ 32
    → new run_id tasks budget ≡ ok k
    → InOrder 0 commands
    → (restore run_id tasks budget (snapshot (run_all k commands)) ≡ ok (run_all k commands))
      ↔ OwnsAll (run_all k commands)
restore-snapshot_iff run_id tasks budget k commands bound made order =
    let v = last-IsValid run_id tasks budget k commands bound made order in
    let p = last-Persists run_id tasks budget k commands bound made order in
    let last = run_all k commands in
    let clock = last_instant 0 commands in
    (
      λ h. OwnsAll-restore run_id tasks budget k made last clock v p h,
      λ owns. restore-OwnsAll run_id tasks budget k made last clock v p owns,
    )

-- After commands whose instants do not go back, on a kernel that `new` makes from a retry budget
-- below the largest u32, a kernel in which no current lease has expired is given back by `restore`
-- from its snapshot.
pub restore-snapshot :
    (run_id : RunId) (tasks : List Task) (budget : RetryBudget) (k : ExecutionLifecycleKernel)
    (commands : List Command)
    → budget.max_attempts + 1 < 2 ^ 32
    → new run_id tasks budget ≡ ok k
    → InOrder 0 commands
    → ((id : TaskId) (l : TaskLease)
        → Holds (run_all k commands).state id l
        → last_instant 0 commands < l.expires_at)
    → restore run_id tasks budget (snapshot (run_all k commands)) ≡ ok (run_all k commands)
restore-snapshot run_id tasks budget k commands bound made order alive =
    (restore-snapshot_iff run_id tasks budget k commands bound made order).1 λ id l key held c.
      (last-IsValid run_id tasks budget k commands bound made order).leases_own id l held
        (alive id l held) key c
