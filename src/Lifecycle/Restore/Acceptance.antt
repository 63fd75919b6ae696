-- ===== src/Lifecycle/Restore/Acceptance.antt =====
-- When the loop of `restore` goes through all tasks.
use ovca_core.Prelude.{
  ℕ, String, true, subst, ◌≡◌, inl, inr, refl, sym, none, some, [], ◌∷◌, ok, arith, Option-cases,
}
use ovca_core.Collections.Order.{string_ord}
use ovca_core.Collections.BTreeMap.{BTreeMap, get, contains_key}
use ovca_core.Collections.BTreeMap.Sorted.{IsSorted, get_of_Above}
use ovca_core.Collections.BTreeMap.Entries.{ForAll}
use ovca_core.Collections.BTreeMap.Extensional.{get-head}
use ovca_core.Collections.BTreeSet.{contains}
use ovca_core.Collections.BTreeSet.Ascending.{IsAscending, collect-IsAscending}
use ovca_core.Goal.Ids.{RunId, TaskId}
use ovca_core.Goal.Task.{Task, TaskLease}
use ovca_core.Lifecycle.State.{TaskExecutionSnapshot}
use ovca_core.Lifecycle.Invariant.{IsTaskValid, IsLeaseValid, Holds, owner_of}
use ovca_core.Lifecycle.Restore.{check_state, check_states, check_record, check_current_lease}
use ovca_core.Lifecycle.Restore.Facts.{
  check_status_iff, check_lease_iff, check_record_iff, leased-attempts, recorded-attempts,
}
use ovca_core.Lifecycle.Restore.Owners.{Owners, own_lease_keys-ok}
use ovca_core.Lifecycle.Restore.States.{Holds-rest, rest_entry, check_state-IsTaken}
use ovca_core.Lifecycle.Restore.Persistence.{IsFit}

-- A task of a snapshot that `restore` can take.
pub record IsAcceptable (run_id : RunId) (limit : ℕ) (tasks : BTreeMap TaskId Task) (id : TaskId)
    (s : TaskExecutionSnapshot) : Type 0 where
  pub valid : IsTaskValid limit id s
  pub fit : IsFit run_id id s
  pub known : contains_key id tasks ≡ true
  pub lease_valid :
      (t : Task) (l : TaskLease)
      → get id tasks ≡ some t
      → s.current_lease ≡ some l
      → IsLeaseValid run_id limit l.heartbeat_at id t s.attempts l

check_record-ok :
    (run_id : RunId) (limit : ℕ) (id : TaskId) (s : TaskExecutionSnapshot)
    → IsTaskValid limit id s
    → IsFit run_id id s
    → check_record run_id id s.attempts s.terminal_record ≡ ok tt
check_record-ok run_id limit id s v fit = elim (Option-cases s.terminal_record) [
  | inl e ↦ rw e refl
  | inr (r, e) ↦ rw e (
      (check_record_iff run_id id s.attempts r).1
        (recorded-attempts limit id s r v e, fit.recorded r e))
]

check_current_lease-ok :
    (run_id : RunId) (limit : ℕ) (tasks : BTreeMap TaskId Task) (id : TaskId) (t : Task)
    (s : TaskExecutionSnapshot) (old : Owners)
    → IsAcceptable run_id limit tasks id s
    → get id tasks ≡ some t
    → ((l : TaskLease) (key : String)
        → s.current_lease ≡ some l
        → contains key l.write_keys ≡ true
        → get key old ≡ none)
    → (new : Owners) × (check_current_lease run_id limit id t s.attempts s.current_lease old
        ≡ ok new)
check_current_lease-ok run_id limit tasks id t s old a et free =
    elim (Option-cases s.current_lease) [
      | inl e ↦ (old, rw e refl)
      | inr (l, e) ↦
          let valid = a.lease_valid t l et e in
          let once = leased-attempts limit id s l a.valid e in
          let passed =
            (check_lease_iff run_id limit id t s.attempts l).1
              (valid, omega (arith, once, valid.lease_attempt)) in
          let ascending : IsAscending l.write_keys =
            rw valid.lease_keys (collect-IsAscending t.write_keys) in
          let (new, added) =
            own_lease_keys-ok id (owner_of id l) l.write_keys old ascending
              (λ key c. free l key e c) in
          (new, rw (e, passed, added) refl)
    ]

check_state-ok :
    (run_id : RunId) (limit : ℕ) (tasks : BTreeMap TaskId Task) (id : TaskId)
    (s : TaskExecutionSnapshot) (old : Owners)
    → IsAcceptable run_id limit tasks id s
    → ((l : TaskLease) (key : String)
        → s.current_lease ≡ some l
        → contains key l.write_keys ≡ true
        → get key old ≡ none)
    → (new : Owners) × (check_state run_id limit tasks id s old ≡ ok new)
unfolding check_state
check_state-ok run_id limit tasks id s old a free = elim (Option-cases (get id tasks)) [
  | inl missing ↦ absurd (ground (arith, a.known))
  | inr (t, et) ↦
      let passed = (check_status_iff limit id s).1 (a.valid, a.fit.tried) in
      let recorded = check_record-ok run_id limit id s a.valid a.fit in
      let (new, leased) = check_current_lease-ok run_id limit tasks id t s old a et free in
      (new, rw (passed, et, leased, recorded) refl)
]

-- Tasks that can each be taken, with no key under two leases, are taken together.
pub check_states-ok :
    (run_id : RunId) (limit : ℕ) (tasks : BTreeMap TaskId Task)
    (m : BTreeMap TaskId TaskExecutionSnapshot) (old : Owners)
    → IsSorted m
    → ForAll (IsAcceptable run_id limit tasks) m
    → ((i j : TaskId) (l n : TaskLease) (key : String)
        → Holds m i l
        → Holds m j n
        → contains key l.write_keys ≡ true
        → contains key n.write_keys ≡ true
        → i ≡ j)
    → ((i : TaskId) (l : TaskLease) (key : String)
        → Holds m i l
        → contains key l.write_keys ≡ true
        → get key old ≡ none)
    → (new : Owners) × (check_states run_id limit tasks m old ≡ ok new)
unfolding check_states
check_states-ok run_id limit tasks [] old sorted all apart free = (old, refl)
check_states-ok run_id limit tasks ((i, v) ∷ m) old sorted all apart free =
    let here = get-head i v m in
    let (mid, em) =
      check_state-ok run_id limit tasks i v old (all i v here)
        (λ l key el c. free i l key (v, here, el) c) in
    let one = check_state-IsTaken run_id limit tasks i v old mid em in
    let up : (j : TaskId) (l : TaskLease) → Holds m j l → Holds ((i, v) ∷ m) j l =
      λ j l h. Holds-rest i v m j l sorted.0 h in
    let (new, en) =
      check_states-ok run_id limit tasks m mid sorted.1
        (λ j s e. all j s (rest_entry i v m j s sorted.0 e))
        (λ j k l n key hl hn cl cn. apart j k l n key (up j l hl) (up k n hn) cl cn)
        (λ j l key h c. elim (Option-cases (get key mid)) [
          | inl none_there ↦ none_there
          | inr (o, eo) ↦ elim (one.owner_from key o eo) [
            | inl before ↦ absurd (cc (before, free j l key (up j l h) c))
            | inr (n, en, cn, _) ↦
                let same = apart i j n l key (v, here, en) (up j l h) cn c in
                let (s, es, _) = h in
                let es' : get i m ≡ some s = subst (λ x. get x m ≡ some s) (sym same) es in
                absurd (cc (es', get_of_Above i m sorted.0))
          ]
        ]) in
    (new, rw (em, en) refl)
