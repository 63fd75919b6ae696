-- ===== src/Lifecycle/Invariant/AfterHeartbeat.antt =====
-- The kernel after `apply_heartbeat`.
use ovca_core.Prelude.{
  ◌≤◌, ◌<◌, String, true, ◌≡◌, inl, inr, Option, none, some, List, [], ◌∷◌, arith, ok, Bool-cases,
  Option-cases, Result-cases, subst, if◌then◌else◌, sym, ◌∙◌, refl, is_some,
}
use ovca_core.Collections.Order.{◌=?◌, string_ord, =?_iff, =?_refl}
use ovca_core.Collections.BTreeMap.{BTreeMap, get, insert, modify, get-modify}
use ovca_core.Collections.BTreeMap.Sorted.{IsSorted, modify-IsSorted}
use ovca_core.Collections.BTreeMap.Entries.{ForAll-insert, contains_key-insert}
use ovca_core.Collections.BTreeSet.{contains}
use ovca_core.Goal.Ids.{DateTime, TaskId}
use ovca_core.Goal.Task.{Task, TaskLease}
use ovca_core.Lifecycle.State.{
  HeartbeatRequest, ExecutionLifecycleKernel, TaskExecutionSnapshot, WriteKeyOwner,
}
use ovca_core.Lifecycle.Heartbeat.{apply_heartbeat, extend_owners}
use ovca_core.Lifecycle.Invariant.{Holds, IsValid, IsTaskValid, HasValidLease, owner_of}
use ovca_core.Lifecycle.Invariant.Update.{
  Holds-insert, Holds-insert_ne, Holds-insert_self, Holds-lease, HasValidLease-later,
}

abbrev bump : DateTime → WriteKeyOwner → WriteKeyOwner
bump e o = record o { expires_at = e }

-- The owner of a key after the loop: a key of the list has its owner's expiry moved.
abbrev bumped : DateTime → Option WriteKeyOwner → Option WriteKeyOwner
bumped e none = none
bumped e (some o) = some (bump e o)

bumped-bumped : (e : DateTime) (o : Option WriteKeyOwner) → bumped e (bumped e o) ≡ bumped e o
bumped-bumped e none = refl
bumped-bumped e (some o) = refl

get-modify-bump :
    (e : DateTime) (key j : String) (m : BTreeMap String WriteKeyOwner)
    → get key (modify j (bump e) m) ≡ (if key =? j then bumped e (get key m) else get key m)
get-modify-bump e key j m = elim (Option-cases (get key m)) [
  | inl n ↦ ground (arith, get-modify key j (bump e) m)
  | inr (o, s) ↦ ground (arith, get-modify key j (bump e) m)
]

is_some-modify :
    (e : DateTime) (key j : String) (m : BTreeMap String WriteKeyOwner)
    → is_some (get key m) ≡ true
    → is_some (get key (modify j (bump e) m)) ≡ true
is_some-modify e key j m h = elim (Option-cases (get key m)) [
  | inl n ↦ absurd (ground arith)
  | inr (o, s) ↦ ground (arith, get-modify-bump e key j m)
]

get-extend_owners :
    (e : DateTime) (keys : List String) (m m' : BTreeMap String WriteKeyOwner) (key : String)
    → extend_owners e keys m ≡ ok m'
    → get key m' ≡ (if contains key keys then bumped e (get key m) else get key m)
unfolding extend_owners contains
get-extend_owners e [] m m' key h = ground arith
get-extend_owners e (j ∷ keys) m m' key h = elim (Option-cases (get j m)) [
  | inl n ↦ absurd (ground arith)
  | inr (o, s) ↦
      let rest = get-extend_owners e keys (modify j (bump e) m) m' key (ground arith) in
      elim (Bool-cases (key =? j)) [
        | inl same ↦ ground (arith, rest, get-modify-bump e key j m, bumped-bumped e (get key m))
        | inr other ↦ ground (arith, rest, get-modify-bump e key j m)
      ]
]

extend_owners-IsSorted :
    (e : DateTime) (keys : List String) (m m' : BTreeMap String WriteKeyOwner)
    → extend_owners e keys m ≡ ok m'
    → IsSorted m
    → IsSorted m'
unfolding extend_owners
extend_owners-IsSorted e [] m m' h s =
    let same : m ≡ m' = cc h in subst (λ (x : BTreeMap String WriteKeyOwner). IsSorted x) same s
extend_owners-IsSorted e (j ∷ keys) m m' h s = elim (Option-cases (get j m)) [
  | inl n ↦ absurd (ground arith)
  | inr (o, _) ↦
      extend_owners-IsSorted e keys (modify j (bump e) m) m' (ground arith)
        (modify-IsSorted j (bump e) m s)
]

-- The loop does not fail when each key has an owner.
pub extend_owners-ok :
    (e : DateTime) (keys : List String) (m : BTreeMap String WriteKeyOwner)
    → ((key : String) → contains key keys ≡ true → is_some (get key m) ≡ true)
    → (m' : BTreeMap String WriteKeyOwner) × (extend_owners e keys m ≡ ok m')
unfolding extend_owners contains
extend_owners-ok e [] m h = (m, refl)
extend_owners-ok e (j ∷ keys) m h = elim (Option-cases (get j m)) [
  | inl n ↦ absurd (ground (arith, h j, =?_refl j))
  | inr (o, s) ↦
      let (m', ih) =
        extend_owners-ok e keys (modify j (bump e) m)
          (λ key c. is_some-modify e key j m (h key (ground arith))) in
      (m', ground arith)
]

-- What a successful heartbeat has seen.
pub record HeartbeatFacts (k : ExecutionLifecycleKernel) (r : HeartbeatRequest) (l : TaskLease)
    (k' : ExecutionLifecycleKernel) : Type 0 where
  pub task : Task
  pub state : TaskExecutionSnapshot
  pub lease : TaskLease
  pub owners : BTreeMap String WriteKeyOwner
  pub task_found : get r.task_id k.tasks ≡ some task
  pub state_found : get r.task_id k.state ≡ some state
  pub lease_found : state.current_lease ≡ some lease
  pub unexpired : r.now < lease.expires_at
  pub extends : lease.expires_at < r.expires_at
  pub owners_extended : extend_owners r.expires_at lease.write_keys k.write_key_owners ≡ ok owners
  pub lease_made : l ≡ record lease { heartbeat_at = r.now; expires_at = r.expires_at }
  pub kernel_made : k' ≡ record k {
    state = insert r.task_id (record state { current_lease = some l }) k.state;
    write_key_owners = owners;
  }

pub apply_heartbeat-facts :
    (k : ExecutionLifecycleKernel) (r : HeartbeatRequest) (l : TaskLease)
    (k' : ExecutionLifecycleKernel)
    → apply_heartbeat k r ≡ ok (l, k')
    → HeartbeatFacts k r l k'
unfolding apply_heartbeat
apply_heartbeat-facts k r l k' h = elim (Option-cases (get r.task_id k.tasks)) [
  | inl e ↦ absurd (ground arith)
  | inr (task, e) ↦ elim (Option-cases (get r.task_id k.state)) [
    | inl e' ↦ absurd (ground arith)
    | inr (state, e') ↦ elim (Option-cases state.current_lease) [
      | inl n ↦ absurd (ground arith)
      | inr (lease, el) ↦
          elim (Result-cases (extend_owners r.expires_at lease.write_keys k.write_key_owners)) [
            | inl (m, em) ↦ record {
              task = task;
              state = state;
              lease = lease;
              owners = m;
              task_found = e;
              state_found = e';
              lease_found = el;
              unexpired = ground arith;
              extends = ground arith;
              owners_extended = em;
              lease_made = ground arith;
              kernel_made = ground arith;
            }
            | inr (inl (x, ex)) ↦ absurd (ground arith)
            | inr (inr ex) ↦ absurd (ground arith)
          ]
    ]
  ]
]

module _ (k : ExecutionLifecycleKernel) (clock : DateTime) (r : HeartbeatRequest) (l : TaskLease)
    (k' : ExecutionLifecycleKernel) (f : HeartbeatFacts k r l k') (v : IsValid k clock)
    (forth : clock ≤ r.now) where
  abbrev lease' : TaskLease
  lease' = record f.lease { heartbeat_at = r.now; expires_at = r.expires_at }

  abbrev written : TaskExecutionSnapshot
  written = record f.state { current_lease = some lease' }

  held : Holds k.state r.task_id f.lease
  held = (f.state, f.state_found, f.lease_found)

  written-IsTaskValid : IsTaskValid k.retry_budget.max_attempts r.task_id written
  written-IsTaskValid =
      let old = v.tasks_valid r.task_id f.state f.state_found in
      record {
        attempts_fit = old.attempts_fit;
        leased_when_running = rw (← old.leased_when_running, f.lease_found) refl;
        recorded_when_ended = old.recorded_when_ended;
      }

  written-HasValidLease :
      HasValidLease k.run_id k.retry_budget.max_attempts r.now k.tasks r.task_id written
  written-HasValidLease t l' et el =
      let old = v.leases_valid r.task_id f.state f.state_found t f.lease et f.lease_found in
      let ll : lease' ≡ l' = cc el in
      rw (← ll) (record {
        lease_version = old.lease_version;
        lease_run = old.lease_run;
        lease_task = old.lease_task;
        lease_role = old.lease_role;
        lease_keys = old.lease_keys;
        lease_attempt = old.lease_attempt;
        lease_limit = old.lease_limit;
        heartbeat_after_claim = omega (arith, old.heartbeat_after_claim, old.heartbeat_past);
        heartbeat_before_expiry = omega (arith, f.unexpired, f.extends);
        heartbeat_past = omega arith;
      })

  owned :
      (key : String)
      → contains key f.lease.write_keys ≡ true
      → get key k.write_key_owners ≡ some (owner_of r.task_id f.lease)
  owned key c = v.leases_own r.task_id f.lease held (omega (arith, f.unexpired)) key c

  get-owners :
      (key : String)
      → get key f.owners ≡ (
          if contains key f.lease.write_keys
          then some (owner_of r.task_id lease')
          else get key k.write_key_owners)
  get-owners key = elim (Bool-cases (contains key f.lease.write_keys)) [
    | inl c ↦ ground (
      arith,
      owned key c,
      get-extend_owners r.expires_at f.lease.write_keys k.write_key_owners f.owners key
          f.owners_extended,
    )
    | inr c ↦ ground (
      arith,
      get-extend_owners r.expires_at f.lease.write_keys k.write_key_owners f.owners key
          f.owners_extended,
    )
  ]

  next-owners_held :
      (key : String) (o : WriteKeyOwner)
      → get key f.owners ≡ some o
      → (l : TaskLease) × Holds (insert r.task_id written k.state) o.task_id l
        × (contains key l.write_keys ≡ true)
        × (o ≡ owner_of o.task_id l)
  next-owners_held key o e = elim (Bool-cases (contains key f.lease.write_keys)) [
    | inl new ↦
        let eo : owner_of r.task_id lease' ≡ o = ground (arith, get-owners key) in
        rw (← eo) (lease', Holds-insert_self k.state r.task_id written lease' refl, new, refl)
    | inr old ↦
        let found : get key k.write_key_owners ≡ some o = ground (arith, get-owners key) in
        let (l0, h0, c, eo) = v.owners_held key o found in
        elim (Bool-cases (o.task_id =? r.task_id)) [
          | inl same ↦
              let ei : o.task_id ≡ r.task_id = (=?_iff o.task_id r.task_id).0 same in
              let h1 = subst (λ (i : TaskId). Holds k.state i l0) ei h0 in
              let le = Holds-lease k.state r.task_id f.state l0 f.state_found h1 in
              let el : l0 ≡ f.lease = cc (le, f.lease_found) in
              absurd (cc (old, subst (λ (x : TaskLease). contains key x.write_keys ≡ true) el c))
          | inr other ↦ (l0, Holds-insert_ne k.state r.task_id written o.task_id l0 other h0, c, eo)
        ]
  ]

  next-leases_own :
      (id : TaskId) (l1 : TaskLease)
      → Holds (insert r.task_id written k.state) id l1
      → r.now < l1.expires_at
      → (key : String) → contains key l1.write_keys ≡ true
      → get key f.owners ≡ some (owner_of id l1)
  next-leases_own id l1 h alive key c = elim (Holds-insert k.state r.task_id written id l1 h) [
    | inl (ei, el) ↦
        let ll : lease' ≡ l1 = cc el in
        let c' : contains key f.lease.write_keys ≡ true =
          subst (λ (x : TaskLease). contains key x.write_keys ≡ true) (sym ll) c in
        rw (ei, ← ll) (ground (arith, get-owners key))
    | inr (other, old) ↦
        let own = v.leases_own id l1 old (omega arith) key c in
        elim (Bool-cases (contains key f.lease.write_keys)) [
          | inl new ↦
              let ei : id ≡ r.task_id = ground (arith, own, owned key new) in
              absurd (ground (arith, (=?_iff id r.task_id).1 ei))
          | inr not_new ↦ ground (arith, get-owners key)
        ]
  ]

  pub next-IsValid :
      IsValid
        (record k { state = insert r.task_id written k.state; write_key_owners = f.owners })
        r.now
  next-IsValid = record {
    limit_positive = v.limit_positive;
    limit_bounded = v.limit_bounded;
    same_tasks = λ id.
        contains_key-insert id r.task_id written k.state (rw f.state_found refl) ∙ v.same_tasks id;
    dependencies_known = v.dependencies_known;
    tasks_valid =
        ForAll-insert (IsTaskValid k.retry_budget.max_attempts) r.task_id written k.state
          written-IsTaskValid v.tasks_valid;
    leases_valid =
        ForAll-insert (HasValidLease k.run_id k.retry_budget.max_attempts r.now k.tasks) r.task_id
          written k.state written-HasValidLease
          λ id s e.
            HasValidLease-later k.run_id k.retry_budget.max_attempts clock r.now k.tasks id s forth
              (v.leases_valid id s e);
    owners_sorted =
        extend_owners-IsSorted r.expires_at f.lease.write_keys k.write_key_owners f.owners
          f.owners_extended v.owners_sorted;
    owners_held = next-owners_held;
    leases_own = next-leases_own;
  }

pub apply_heartbeat-IsValid :
    (k : ExecutionLifecycleKernel) (clock : DateTime) (r : HeartbeatRequest) (l : TaskLease)
    (k' : ExecutionLifecycleKernel)
    → IsValid k clock
    → clock ≤ r.now
    → apply_heartbeat k r ≡ ok (l, k')
    → IsValid k' r.now
apply_heartbeat-IsValid k clock r l k' v forth h =
    let f = apply_heartbeat-facts k r l k' h in
    rw (f.kernel_made, f.lease_made) (next-IsValid k clock r l k' f v forth)
