-- ===== src/Lifecycle/Restore/Owners.antt =====
-- The owners that `restore` derives from the leases.
use ovca_core.Prelude.{
  String, true, subst, ◌≡◌, ◌≢◌, inl, inr, refl, none, some, List, [], ◌∷◌, ok, panic, arith,
  Bool-cases, Option-cases, if◌then◌else◌,
}
use ovca_core.Collections.Order.{◌=?◌, string_ord, =?_iff, =?_refl}
use ovca_core.Collections.BTreeMap.{BTreeMap, get, insert, get-insert}
use ovca_core.Collections.BTreeMap.Sorted.{IsSorted, insert-IsSorted}
use ovca_core.Collections.BTreeSet.{contains}
use ovca_core.Collections.BTreeSet.Ascending.{IsAscending, contains_of_IsBelow}
use ovca_core.Goal.Ids.{TaskId}
use ovca_core.Lifecycle.State.{WriteKeyOwner}
use ovca_core.Lifecycle.Restore.{own_lease_keys}

abbrev pub Owners : Type 0
Owners = BTreeMap String WriteKeyOwner

-- `new` has the owner `o` at the keys `ks`, which `old` has not, and is as `old` elsewhere.
pub record AreAdded (o : WriteKeyOwner) (ks : List String) (old new : Owners) : Type 0 where
  pub added : (key : String) → get key new ≡ (if contains key ks then some o else get key old)
  pub fresh : (key : String) → contains key ks ≡ true → get key old ≡ none

pub own_lease_keys-AreAdded :
    (id : TaskId) (o : WriteKeyOwner) (ks : List String) (old new : Owners)
    → own_lease_keys id o ks old ≡ ok new
    → AreAdded o ks old new
unfolding own_lease_keys contains
own_lease_keys-AreAdded id o [] old new h = record {
  added = λ key. cc h;
  fresh = λ key c. absurd (cc c);
}
own_lease_keys-AreAdded id o (k ∷ ks) old new h = elim (Option-cases (get k old)) [
  | inr (first, e) ↦ absurd (ground arith)
  | inl free ↦
      let rest = own_lease_keys-AreAdded id o ks (insert k o old) new (ground arith) in
      record {
        added = λ key. ground (arith, rest.added key, get-insert key k o old);
        fresh = λ key c. elim (Bool-cases (key =? k)) [
          | inl same ↦ rw ((=?_iff key k).0 same) free
          | inr other ↦ ground (arith, rest.fresh key (ground arith), get-insert key k o old)
        ];
      }
]

pub own_lease_keys-IsSorted :
    (id : TaskId) (o : WriteKeyOwner) (ks : List String) (old new : Owners)
    → own_lease_keys id o ks old ≡ ok new
    → IsSorted old
    → IsSorted new
unfolding own_lease_keys
own_lease_keys-IsSorted id o [] old new h s =
    let e : old ≡ new = cc h in subst (λ x. IsSorted x) e s
own_lease_keys-IsSorted id o (k ∷ ks) old new h s =
    own_lease_keys-IsSorted id o ks (insert k o old) new (ground arith) (insert-IsSorted k o old s)

-- Distinct keys that are all free can be added.
pub own_lease_keys-ok :
    (id : TaskId) (o : WriteKeyOwner) (ks : List String) (old : Owners)
    → IsAscending ks
    → ((key : String) → contains key ks ≡ true → get key old ≡ none)
    → (new : Owners) × (own_lease_keys id o ks old ≡ ok new)
unfolding own_lease_keys contains
own_lease_keys-ok id o [] old a free = (old, refl)
own_lease_keys-ok id o (k ∷ ks) old a free =
    let (new, e) = own_lease_keys-ok id o ks (insert k o old) a.1 (λ key c.
      elim (Bool-cases (key =? k)) [
        | inl same ↦
            let ek : key ≡ k = (=?_iff key k).0 same in
            absurd (cc (c, contains_of_IsBelow k ks a.0, ek))
        | inr other ↦ ground (arith, get-insert key k o old, free key (ground arith))
      ]) in
    (new, ground (arith, e, free k (ground (arith, =?_refl k))))

pub own_lease_keys-total :
    (id : TaskId) (o : WriteKeyOwner) (ks : List String) (old : Owners)
    → own_lease_keys id o ks old ≢ panic
unfolding own_lease_keys
own_lease_keys-total id o [] old h = cc h
own_lease_keys-total id o (k ∷ ks) old h =
    own_lease_keys-total id o ks (insert k o old) (ground arith)
