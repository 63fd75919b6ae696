-- ===== src/Lifecycle/Invariant/AfterClaim.antt =====
-- The kernel after `apply_claim`.
use ovca_core.Prelude.{
  ℕ, ◌+◌, ◌%◌, ◌^◌, ◌≤◌, ◌<◌, String, true, false, ◌≡◌, ◌↔◌, inl, inr, Option, none, some, arith,
  ok, Bool-cases, subst, if◌then◌else◌, sym, ◌∙◌, refl,
}
use ovca_core.Collections.Order.{◌=?◌, string_ord, =?_iff}
use ovca_core.Collections.BTreeMap.{BTreeMap, get, insert, retain}
use ovca_core.Collections.BTreeMap.Sorted.{retain-IsSorted, get-retain}
use ovca_core.Collections.BTreeMap.Entries.{
  ForAll, ForAll-insert, get-retain_of, contains_key-insert,
}
use ovca_core.Collections.BTreeSet.{contains, collect}
use ovca_core.Goal.Ids.{DateTime, role_ord, TaskId}
use ovca_core.Goal.Task.{TaskLease, TaskStatus}
use ovca_core.Lifecycle.State.{
  ClaimRequest, ExecutionLifecycleKernel, TaskExecutionSnapshot, WriteKeyOwner,
}
use ovca_core.Lifecycle.Claim.{apply_claim, check_claimable, is_live, new_lease, new_owner, claimed}
use ovca_core.Lifecycle.Invariant.{
  AttemptsFit, Holds, IsValid, IsTaskValid, HasValidLease, owner_of,
}
use ovca_core.Lifecycle.Invariant.Update.{
  Holds-insert, Holds-insert_ne, Holds-insert_self, Holds-lease, HasValidLease-later,
}
use ovca_core.Lifecycle.Invariant.OnClaim.{
  ClaimFacts, apply_claim-facts, get-own_keys, own_keys-IsSorted, no_conflict, validate_role-eq,
  claimable-expired,
}

-- A task that can be claimed has not yet used more than its limit.
attempts-bound :
    (r : ClaimRequest) (s : TaskStatus) (o : Option TaskLease) (n limit : ℕ)
    → check_claimable r s o ≡ ok tt
    → AttemptsFit s n limit
    → n ≤ limit
unfolding check_claimable
attempts-bound r TaskStatus.pending o n limit h fit = omega arith
attempts-bound r TaskStatus.ready o n limit h fit = omega arith
attempts-bound r TaskStatus.running o n limit h fit = omega arith
attempts-bound r TaskStatus.completed o n limit h fit = omega arith
attempts-bound r TaskStatus.cancelled o n limit h fit = omega arith
attempts-bound r TaskStatus.failed o n limit h fit = omega arith
attempts-bound r TaskStatus.awaiting_approval o n limit h fit = absurd fit
attempts-bound r TaskStatus.reviewing o n limit h fit = absurd fit

is_live_iff : (now : DateTime) (o : WriteKeyOwner) → (is_live now o ≡ true) ↔ (now < o.expires_at)
unfolding is_live
is_live_iff now o = (λ h. ground arith, λ h. ground arith)

pub attempt-no_wrap :
    (k : ExecutionLifecycleKernel) (clock : DateTime) (r : ClaimRequest)
    (current : TaskExecutionSnapshot)
    → IsValid k clock
    → get r.task_id k.state ≡ some current
    → check_claimable r current.status current.current_lease ≡ ok tt
    → (current.attempts + 1) % 2 ^ 32 ≡ current.attempts + 1
attempt-no_wrap k clock r current v e h =
    let bound =
      attempts-bound r current.status current.current_lease current.attempts
        k.retry_budget.max_attempts h (v.tasks_valid r.task_id current e).attempts_fit in
    omega (arith, bound, v.limit_bounded)

module _ (k : ExecutionLifecycleKernel) (clock : DateTime) (r : ClaimRequest) (l : TaskLease)
    (k' : ExecutionLifecycleKernel) (f : ClaimFacts k r l k') (v : IsValid k clock)
    (forth : clock ≤ r.now) where
  abbrev attempt : ℕ
  attempt = (f.current.attempts + 1) % 2 ^ 32

  abbrev lease : TaskLease
  lease = new_lease k r f.task attempt

  abbrev next : ExecutionLifecycleKernel
  next = claimed k r f.task f.current attempt

  abbrev live : BTreeMap String WriteKeyOwner
  live = retain (λ _ owner. is_live r.now owner) k.write_key_owners

  abbrev written : TaskExecutionSnapshot
  written = record {
    status = TaskStatus.running;
    attempts = attempt;
    current_lease = some lease;
    terminal_record = none;
    last_failure_reason = f.current.last_failure_reason;
  }

  written-IsTaskValid : IsTaskValid k.retry_budget.max_attempts r.task_id written
  written-IsTaskValid = record {
    attempts_fit =
        let e = attempt-no_wrap k clock r f.current v f.state_found f.claimable in
        (omega (arith, e), f.attempt_left);
    leased_when_running = refl;
    recorded_when_ended = refl;
  }

  written-HasValidLease :
      HasValidLease k.run_id k.retry_budget.max_attempts r.now k.tasks r.task_id written
  written-HasValidLease t l' et el =
      let same : f.task ≡ t = cc (f.task_found, et) in
      let ll : lease ≡ l' = cc el in
      let roles = validate_role-eq r.task_id f.task.assigned_role r.worker_role f.role_fits in
      rw (← ll, ← same)
        (record {
          lease_version = refl;
          lease_run = refl;
          lease_task = refl;
          lease_role = roles;
          lease_keys = refl;
          lease_attempt = refl;
          lease_limit = refl;
          heartbeat_after_claim = omega arith;
          heartbeat_before_expiry = f.unexpired;
          heartbeat_past = omega arith;
        })

  -- The owner of a key after the claim.
  get-owners :
      (key : String)
      → get key next.write_key_owners
        ≡ (if contains key (collect f.task.write_keys) then some (new_owner r) else get key live)
  unfolding claimed
  get-owners key = get-own_keys key (new_owner r) (collect f.task.write_keys) live

  old_owner-other :
      (key : String) (o : WriteKeyOwner)
      → get key k.write_key_owners ≡ some o
      → r.now < o.expires_at
      → (o.task_id =? r.task_id) ≡ false
  old_owner-other key o e alive = elim (Bool-cases (o.task_id =? r.task_id)) [
    | inr other ↦ other
    | inl same ↦
        let (l0, h0, c, eo) = v.owners_held key o e in
        let ei : o.task_id ≡ r.task_id = (=?_iff o.task_id r.task_id).0 same in
        let held = subst (λ (i : TaskId). Holds k.state i l0) ei h0 in
        let le = Holds-lease k.state r.task_id f.current l0 f.state_found held in
        let running = (v.tasks_valid r.task_id f.current f.state_found).leased_when_running in
        let ex =
          claimable-expired r f.current.status l0 (rw (← le) f.claimable)
            (sym running ∙ rw le refl) in
        let ends : o.expires_at ≡ l0.expires_at = cc eo in absurd (omega (arith, ex, ends))
  ]

  next-owners_held :
      (key : String) (o : WriteKeyOwner)
      → get key next.write_key_owners ≡ some o
      → (l : TaskLease) × Holds (insert r.task_id written k.state) o.task_id l
        × (contains key l.write_keys ≡ true)
        × (o ≡ owner_of o.task_id l)
  next-owners_held key o e = elim (Bool-cases (contains key (collect f.task.write_keys))) [
    | inl new ↦
        let eo : new_owner r ≡ o = ground (arith, get-owners key) in
        rw (← eo) (lease, Holds-insert_self k.state r.task_id written lease refl, new, refl)
    | inr old ↦
        let found : get key k.write_key_owners ≡ some o = ground (
          arith,
          get-owners key,
          get-retain key (λ _ owner. is_live r.now owner) k.write_key_owners v.owners_sorted,
        ) in
        let alive : is_live r.now o ≡ true = ground (
          arith,
          get-owners key,
          get-retain key (λ _ owner. is_live r.now owner) k.write_key_owners v.owners_sorted,
        ) in
        let (l0, h0, c, eo) = v.owners_held key o found in
        (
          l0,
          Holds-insert_ne k.state r.task_id written o.task_id l0
              (old_owner-other key o found ((is_live_iff r.now o).0 alive)) h0,
          c,
          eo,
        )
  ]

  next-leases_own :
      (id : TaskId) (l1 : TaskLease)
      → Holds (insert r.task_id written k.state) id l1
      → r.now < l1.expires_at
      → (key : String) → contains key l1.write_keys ≡ true
      → get key next.write_key_owners ≡ some (owner_of id l1)
  next-leases_own id l1 h alive key c = elim (Holds-insert k.state r.task_id written id l1 h) [
    | inl (ei, el) ↦
        let ll : lease ≡ l1 = cc el in
        let c' : contains key (collect f.task.write_keys) ≡ true =
          subst (λ (x : TaskLease). contains key x.write_keys ≡ true) (sym ll) c in
        rw (ei, ← ll) (ground (arith, get-owners key))
    | inr (other, old) ↦
        let owned = v.leases_own id l1 old (omega arith) key c in
        elim (Bool-cases (contains key (collect f.task.write_keys))) [
          | inl new ↦
              let same =
                no_conflict r k.write_key_owners (collect f.task.write_keys) key (owner_of id l1)
                  f.keys_free new owned alive in
              absurd (ground arith)
          | inr not_new ↦
              let kept =
                get-retain_of key (owner_of id l1) (λ _ owner. is_live r.now owner)
                  k.write_key_owners v.owners_sorted owned
                  ((is_live_iff r.now (owner_of id l1)).1 alive) in
              ground (arith, get-owners key)
        ]
  ]

  next-leases_valid :
      ForAll
        (HasValidLease k.run_id k.retry_budget.max_attempts r.now k.tasks)
        (insert r.task_id written k.state)
  next-leases_valid =
      ForAll-insert (HasValidLease k.run_id k.retry_budget.max_attempts r.now k.tasks) r.task_id
        written k.state written-HasValidLease
        λ id s e.
          HasValidLease-later k.run_id k.retry_budget.max_attempts clock r.now k.tasks id s forth
            (v.leases_valid id s e)

  pub claimed-IsValid : IsValid next r.now
  unfolding claimed
  claimed-IsValid = record {
    limit_positive = v.limit_positive;
    limit_bounded = v.limit_bounded;
    same_tasks = λ id.
        contains_key-insert id r.task_id written k.state (rw f.state_found refl) ∙ v.same_tasks id;
    dependencies_known = v.dependencies_known;
    tasks_valid =
        ForAll-insert (IsTaskValid k.retry_budget.max_attempts) r.task_id written k.state
          written-IsTaskValid v.tasks_valid;
    leases_valid = next-leases_valid;
    owners_sorted =
        own_keys-IsSorted (new_owner r) (collect f.task.write_keys) live
          (retain-IsSorted (λ _ owner. is_live r.now owner) k.write_key_owners v.owners_sorted);
    owners_held = next-owners_held;
    leases_own = next-leases_own;
  }

pub apply_claim-IsValid :
    (k : ExecutionLifecycleKernel) (clock : DateTime) (r : ClaimRequest) (l : TaskLease)
    (k' : ExecutionLifecycleKernel)
    → IsValid k clock
    → clock ≤ r.now
    → apply_claim k r ≡ ok (l, k')
    → IsValid k' r.now
apply_claim-IsValid k clock r l k' v forth h =
    let f = apply_claim-facts k r l k' h in
    subst (λ (x : ExecutionLifecycleKernel). IsValid x r.now) (sym f.kernel_made)
      (claimed-IsValid k clock r l k' f v forth)
