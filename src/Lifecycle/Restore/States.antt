-- ===== src/Lifecycle/Restore/States.antt =====
-- The loop of `restore` over the tasks of a snapshot.
use ovca_core.Prelude.{
  ℕ, String, true, subst, ◌≡◌, ◌⊎◌, inl, inr, sym, ◌∙◌, none, some, [], ◌∷◌, ok, arith, Bool-cases,
  Option-cases, Result-cases, ap,
}
use ovca_core.Collections.Order.{◌=?◌, string_ord, =?_iff}
use ovca_core.Collections.BTreeMap.{BTreeMap, get}
use ovca_core.Collections.BTreeMap.Sorted.{IsSorted, Above, get_of_Above}
use ovca_core.Collections.BTreeMap.Entries.{ForAll}
use ovca_core.Collections.BTreeMap.Extensional.{get-skip, get-head}
use ovca_core.Collections.BTreeSet.{contains}
use ovca_core.Goal.Ids.{RunId, TaskId}
use ovca_core.Goal.Task.{Task, TaskLease, TaskTerminalRecord}
use ovca_core.Lifecycle.State.{TaskExecutionSnapshot, WriteKeyOwner}
use ovca_core.Lifecycle.Invariant.{IsTaskValid, IsLeaseValid, Holds, owner_of}
use ovca_core.Lifecycle.Restore.{check_current_lease, check_state, check_states, check_record}
use ovca_core.Lifecycle.Restore.Facts.{
  FailedOnlyTried, IsRecordOf, check_status_iff, check_lease_iff, check_record_iff,
}
use ovca_core.Lifecycle.Restore.Owners.{Owners, own_lease_keys-AreAdded, own_lease_keys-IsSorted}

-- A task that `restore` takes: its status, its lease and its record, and its keys among the owners.
pub record IsTaken (run_id : RunId) (limit : ℕ) (tasks : BTreeMap TaskId Task) (id : TaskId)
    (s : TaskExecutionSnapshot) (old new : Owners) : Type 0 where
  pub status_fits : IsTaskValid limit id s × FailedOnlyTried s
  pub lease_fits :
      (t : Task) (l : TaskLease)
      → get id tasks ≡ some t
      → s.current_lease ≡ some l
      → IsLeaseValid run_id limit l.heartbeat_at id t s.attempts l
  pub record_fits : (r : TaskTerminalRecord) → s.terminal_record ≡ some r → IsRecordOf run_id id r
  pub kept : (key : String) (o : WriteKeyOwner) → get key old ≡ some o → get key new ≡ some o
  pub owned :
      (l : TaskLease) (key : String)
      → s.current_lease ≡ some l
      → contains key l.write_keys ≡ true
      → get key new ≡ some (owner_of id l)
  pub owner_from :
      (key : String) (o : WriteKeyOwner)
      → get key new ≡ some o
      → (get key old ≡ some o)
        ⊎ ((l : TaskLease) × (s.current_lease ≡ some l)
            × (contains key l.write_keys ≡ true)
            × (o ≡ owner_of id l))
  pub stays_sorted : IsSorted old → IsSorted new

IsTaken-unleased :
    (run_id : RunId) (limit : ℕ) (tasks : BTreeMap TaskId Task) (id : TaskId)
    (s : TaskExecutionSnapshot) (old : Owners)
    → IsTaskValid limit id s × FailedOnlyTried s
    → ((r : TaskTerminalRecord) → s.terminal_record ≡ some r → IsRecordOf run_id id r)
    → s.current_lease ≡ none
    → IsTaken run_id limit tasks id s old old
IsTaken-unleased run_id limit tasks id s old fits recorded e = record {
  status_fits = fits;
  lease_fits = λ t l et el. absurd (cc (e, el));
  record_fits = recorded;
  kept = λ key o h. h;
  owned = λ l key el. absurd (cc (e, el));
  owner_from = λ key o h. inl h;
  stays_sorted = λ h. h;
}

IsTaken-leased :
    (run_id : RunId) (limit : ℕ) (tasks : BTreeMap TaskId Task) (id : TaskId) (t : Task)
    (s : TaskExecutionSnapshot) (l : TaskLease) (old new : Owners)
    → IsTaskValid limit id s × FailedOnlyTried s
    → ((r : TaskTerminalRecord) → s.terminal_record ≡ some r → IsRecordOf run_id id r)
    → get id tasks ≡ some t
    → s.current_lease ≡ some l
    → check_current_lease run_id limit id t s.attempts (some l) old ≡ ok new
    → IsTaken run_id limit tasks id s old new
IsTaken-leased run_id limit tasks id t s l old new fits recorded et el h =
    let add = own_lease_keys-AreAdded id (owner_of id l) l.write_keys old new (ground arith) in
    record {
      status_fits = fits;
      lease_fits = λ u m eu em.
          let etu : t ≡ u = cc (et, eu) in
          let elm : l ≡ m = cc (el, em) in
          rw (← etu, ← elm) (((check_lease_iff run_id limit id t s.attempts l).0 (ground arith)).0);
      record_fits = recorded;
      kept = λ key o e. ground (arith, add.added key, add.fresh key);
      owned = λ m key em c.
          let elm : l ≡ m = cc (el, em) in
          rw (← elm)
            (ground (arith, add.added key, ap (λ (x : TaskLease). contains key x.write_keys) elm));
      owner_from = λ key o e. elim (Bool-cases (contains key l.write_keys)) [
        | inl own ↦ inr (l, el, own, ground (arith, add.added key))
        | inr other ↦ inl (ground (arith, add.added key))
      ];
      stays_sorted = λ sorted.
          own_lease_keys-IsSorted id (owner_of id l) l.write_keys old new (ground arith) sorted;
    }

recorded-facts :
    (run_id : RunId) (id : TaskId) (s : TaskExecutionSnapshot)
    → check_record run_id id s.attempts s.terminal_record ≡ ok tt
    → (r : TaskTerminalRecord) → s.terminal_record ≡ some r
    → IsRecordOf run_id id r
recorded-facts run_id id s h r e =
    ((check_record_iff run_id id s.attempts r).0
      (subst (λ x. check_record run_id id s.attempts x ≡ ok tt) e h)).1

pub check_state-IsTaken :
    (run_id : RunId) (limit : ℕ) (tasks : BTreeMap TaskId Task) (id : TaskId)
    (s : TaskExecutionSnapshot) (old new : Owners)
    → check_state run_id limit tasks id s old ≡ ok new
    → IsTaken run_id limit tasks id s old new
unfolding check_state
check_state-IsTaken run_id limit tasks id s old new h =
    let fits = (check_status_iff limit id s).0 (ground arith) in
    elim (Option-cases (get id tasks)) [
      | inl missing ↦ absurd (ground arith)
      | inr (t, et) ↦
          let recorded = recorded-facts run_id id s (ground arith) in
          elim (Option-cases s.current_lease) [
            | inl e ↦
                let same : old ≡ new = ground arith in
                subst (λ x. IsTaken run_id limit tasks id s old x) same
                  (IsTaken-unleased run_id limit tasks id s old fits recorded e)
            | inr (l, el) ↦
                IsTaken-leased run_id limit tasks id t s l old new fits recorded et el
                  (ground arith)
          ]
    ]

-- The tasks of a snapshot that `restore` takes, and the owners that it derives from them.
pub record AreTaken (run_id : RunId) (limit : ℕ) (tasks : BTreeMap TaskId Task)
    (m : BTreeMap TaskId TaskExecutionSnapshot) (old new : Owners) : Type 0 where
  pub all_fit : ForAll (λ id s. IsTaskValid limit id s × FailedOnlyTried s) m
  pub leases_fit :
      (id : TaskId) (s : TaskExecutionSnapshot) (t : Task) (l : TaskLease)
      → get id m ≡ some s
      → get id tasks ≡ some t
      → s.current_lease ≡ some l
      → IsLeaseValid run_id limit l.heartbeat_at id t s.attempts l
  pub records_fit :
      (id : TaskId) (s : TaskExecutionSnapshot) (r : TaskTerminalRecord)
      → get id m ≡ some s
      → s.terminal_record ≡ some r
      → IsRecordOf run_id id r
  pub all_kept : (key : String) (o : WriteKeyOwner) → get key old ≡ some o → get key new ≡ some o
  pub all_owned :
      (id : TaskId) (l : TaskLease) (key : String)
      → Holds m id l
      → contains key l.write_keys ≡ true
      → get key new ≡ some (owner_of id l)
  pub owners_from :
      (key : String) (o : WriteKeyOwner)
      → get key new ≡ some o
      → (get key old ≡ some o)
        ⊎ ((l : TaskLease) × Holds m o.task_id l
            × (contains key l.write_keys ≡ true)
            × (o ≡ owner_of o.task_id l))
  pub owners_stay_sorted : IsSorted old → IsSorted new

-- What is first in a map, or in the rest of it.
first_or_rest :
    (P : TaskId → TaskExecutionSnapshot → Type 0) (i : TaskId) (v : TaskExecutionSnapshot)
    (m : BTreeMap TaskId TaskExecutionSnapshot)
    → P i v
    → ForAll P m
    → ForAll P ((i, v) ∷ m)
unfolding get
first_or_rest P i v m p all id s e = elim (Bool-cases (id =? i)) [
  | inl same ↦
      let ev : v ≡ s = ground arith in
      let ei : i ≡ id = sym ((=?_iff id i).0 same) in rw (← ei, ← ev) p
  | inr other ↦ all id s (ground arith)
]

-- An entry of the rest is not hidden by the first one.
pub rest_entry :
    (i : TaskId) (v : TaskExecutionSnapshot) (m : BTreeMap TaskId TaskExecutionSnapshot)
    (id : TaskId) (s : TaskExecutionSnapshot)
    → Above i m
    → get id m ≡ some s
    → get id ((i, v) ∷ m) ≡ some s
rest_entry i v m id s above e = elim (Bool-cases (id =? i)) [
  | inl same ↦
      let ei : id ≡ i = (=?_iff id i).0 same in
      let e' : get i m ≡ some s = subst (λ x. get x m ≡ some s) ei e in
      absurd (cc (e', get_of_Above i m above))
  | inr other ↦ get-skip id i v m other ∙ e
]

pub Holds-rest :
    (i : TaskId) (v : TaskExecutionSnapshot) (m : BTreeMap TaskId TaskExecutionSnapshot)
    (id : TaskId) (l : TaskLease)
    → Above i m
    → Holds m id l
    → Holds ((i, v) ∷ m) id l
Holds-rest i v m id l above (s, e, el) = (s, rest_entry i v m id s above e, el)

pub check_states-AreTaken :
    (run_id : RunId) (limit : ℕ) (tasks : BTreeMap TaskId Task)
    (m : BTreeMap TaskId TaskExecutionSnapshot) (old new : Owners)
    → IsSorted m
    → check_states run_id limit tasks m old ≡ ok new
    → AreTaken run_id limit tasks m old new
unfolding check_states get
check_states-AreTaken run_id limit tasks [] old new sorted h =
    let same : old ≡ new = cc h in
    record {
      all_fit = λ id s e. absurd (cc e);
      leases_fit = λ id s t l e. absurd (cc e);
      records_fit = λ id s r e. absurd (cc e);
      all_kept = λ key o e. cc (same, e);
      all_owned = λ id l key held. absurd (cc held.1);
      owners_from = λ key o e. inl (cc (same, e));
      owners_stay_sorted = λ s. subst (λ x. IsSorted x) same s;
    }
check_states-AreTaken run_id limit tasks ((i, v) ∷ m) old new sorted h =
    elim (Result-cases (check_state run_id limit tasks i v old)) [
      | inr (inl (e, ee)) ↦ absurd (ground arith)
      | inr (inr ep) ↦ absurd (ground arith)
      | inl (mid, em) ↦
          let one = check_state-IsTaken run_id limit tasks i v old mid em in
          let rest = check_states-AreTaken run_id limit tasks m mid new sorted.1 (ground arith) in
          record {
            all_fit =
                first_or_rest (λ id s. IsTaskValid limit id s × FailedOnlyTried s) i v m
                  one.status_fits rest.all_fit;
            leases_fit = λ id s t l e et el.
                first_or_rest
                  (λ id s.
                    (t : Task) (l : TaskLease)
                    → get id tasks ≡ some t
                    → s.current_lease ≡ some l
                    → IsLeaseValid run_id limit l.heartbeat_at id t s.attempts l)
                  i v m one.lease_fits (λ id s e t l et el. rest.leases_fit id s t l e et el) id s e
                  t l et el;
            records_fit = λ id s r e er.
                first_or_rest
                  (λ id s.
                    (r : TaskTerminalRecord) → s.terminal_record ≡ some r → IsRecordOf run_id id r)
                  i v m one.record_fits (λ id s e r er. rest.records_fit id s r e er) id s e r er;
            all_kept = λ key o e. rest.all_kept key o (one.kept key o e);
            all_owned = λ id l key (s, e, el) c.
                first_or_rest
                  (λ id s. s.current_lease ≡ some l → get key new ≡ some (owner_of id l)) i v m
                  (λ el. rest.all_kept key (owner_of i l) (one.owned l key el c))
                  (λ id s e el. rest.all_owned id l key (s, e, el) c) id s e el;
            owners_from = λ key o e. elim (rest.owners_from key o e) [
              | inr (l, held, c, eo) ↦ inr (l, Holds-rest i v m o.task_id l sorted.0 held, c, eo)
              | inl before ↦ elim (one.owner_from key o before) [
                | inl first ↦ inl first
                | inr (l, el, c, eo) ↦
                    let ei : i ≡ o.task_id = sym (ap (λ (x : WriteKeyOwner). x.task_id) eo) in
                    inr (
                      l,
                      subst (λ x. Holds ((i, v) ∷ m) x l) ei (v, get-head i v m, el),
                      c,
                      subst (λ x. o ≡ owner_of x l) ei eo,
                    )
              ]
            ];
            owners_stay_sorted = λ s. rest.owners_stay_sorted (one.stays_sorted s);
          }
    ]
