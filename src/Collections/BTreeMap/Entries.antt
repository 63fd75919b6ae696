-- ===== src/Collections/BTreeMap/Entries.antt =====
-- What holds of every entry of a map, and what the operations do to it.
use ovca_core.Prelude.{Bool, true, false, ◌≡◌, some, arith, inl, inr, Bool-cases, [], ◌∷◌}
use ovca_core.Collections.Order.{Ord, ◌=?◌}
use ovca_core.Collections.BTreeMap.{BTreeMap, get, insert, retain, get-insert, contains_key}
use ovca_core.Collections.BTreeMap.Sorted.{IsSorted, get-retain}

module _ {K V : Type 0} ⦃o : Ord K⦄ where
  -- Every entry that a lookup can find has the property.
  abbrev pub ForAll : (K → V → Type 0) → BTreeMap K V → Type 0
  ForAll P m = (k : K) (v : V) → get k m ≡ some v → P k v

  pub get-insert_self : (k : K) (v : V) (m : BTreeMap K V) → get k (insert k v m) ≡ some v
  get-insert_self k v m = ground (arith, get-insert k k v m, o.cmp_refl k)

  pub get-insert_ne :
      (j k : K) (v : V) (m : BTreeMap K V) → (j =? k) ≡ false → get j (insert k v m) ≡ get j m
  get-insert_ne j k v m h = ground (arith, get-insert j k v m)

  pub ForAll-insert :
      (P : K → V → Type 0) (k : K) (v : V) (m : BTreeMap K V)
      → P k v
      → ForAll P m
      → ForAll P (insert k v m)
  ForAll-insert P k v m p all j w e = elim (Bool-cases (j =? k)) [
    | inl same ↦
        let ev : v ≡ w = ground (arith, get-insert j k v m) in
        let ej : j ≡ k = o.cmp_eq j k (ground arith) in rw (ej, ← ev) p
    | inr other ↦ all j w (ground (arith, get-insert j k v m))
  ]

  pub ForAll-retain :
      (P : K → V → Type 0) (test : K → V → Bool) (m : BTreeMap K V)
      → IsSorted m
      → ((k : K) (v : V) → test k v ≡ true → get k m ≡ some v → P k v)
      → ForAll P (retain test m)
  ForAll-retain P test m s all k v e =
      all k v (ground (arith, get-retain k test m s)) (ground (arith, get-retain k test m s))

  pub get-retain_of :
      (k : K) (v : V) (test : K → V → Bool) (m : BTreeMap K V)
      → IsSorted m
      → get k m ≡ some v
      → test k v ≡ true
      → get k (retain test m) ≡ some v
  get-retain_of k v test m s e h = ground (arith, get-retain k test m s)

  pub contains_key-insert :
      (j k : K) (v : V) (m : BTreeMap K V)
      → contains_key k m ≡ true
      → contains_key j (insert k v m) ≡ contains_key j m
  contains_key-insert j k v m h = elim (Bool-cases (j =? k)) [
    | inl same ↦
        let ej : j ≡ k = o.cmp_eq j k (ground arith) in
        rw ej (ground (arith, get-insert_self k v m))
    | inr other ↦ ground (arith, get-insert_ne j k v m other)
  ]

  -- The later of two insertions at a key stands.
  pub insert-insert :
      (k : K) (v w : V) (m : BTreeMap K V) → insert k v (insert k w m) ≡ insert k v m
  unfolding insert
  insert-insert k v w [] = ground (arith, o.cmp_refl k)
  insert-insert k v w ((i, x) ∷ m) = ground (arith, insert-insert k v w m, o.cmp_refl k)
