-- ===== src/Collections/BTreeMap/Sorted.antt =====
-- The entries of a map stand in strictly ascending key order, and every operation keeps that.
use ovca_core.Prelude.{Bool, ◌≡◌, refl, none, some, List, [], ◌∷◌, Ordering, arith, if◌then◌else◌}
use ovca_core.Collections.Order.{Ord}
use ovca_core.Collections.BTreeMap.{BTreeMap, get, insert, collect_from, retain, modify}

module _ {K V : Type 0} ⦃o : Ord K⦄ where
  -- Every key of the map is above `k`.
  abbrev pub Above : K → BTreeMap K V → Type 0
  Above k [] = Unit
  Above k ((j, v) ∷ m) = (o.cmp k j ≡ Ordering.lt) × Above k m

  abbrev pub IsSorted : BTreeMap K V → Type 0
  IsSorted [] = Unit
  IsSorted ((j, v) ∷ m) = Above j m × IsSorted m

  pub Above-trans : (i k : K) (m : BTreeMap K V) → o.cmp i k ≡ Ordering.lt → Above k m → Above i m
  Above-trans i k [] h a = tt
  Above-trans i k ((j, v) ∷ m) h a = (o.cmp_trans i k j h a.0, Above-trans i k m h a.1)

  pub get_of_Above : (k : K) (m : BTreeMap K V) → Above k m → get k m ≡ none
  unfolding get
  get_of_Above k [] a = refl
  get_of_Above k ((j, v) ∷ m) a = ground (arith, get_of_Above k m)

  Above-insert :
      (i k : K) (v : V) (m : BTreeMap K V)
      → o.cmp i k ≡ Ordering.lt
      → Above i m
      → Above i (insert k v m)
  unfolding insert
  Above-insert i k v [] h a = (h, tt)
  Above-insert i k v ((j, w) ∷ m) h a = ground (arith, Above-insert i k v m h a.1)

  pub insert-IsSorted : (k : K) (v : V) (m : BTreeMap K V) → IsSorted m → IsSorted (insert k v m)
  unfolding insert
  insert-IsSorted k v [] s = (tt, tt)
  insert-IsSorted k v ((j, w) ∷ m) s = ground (
    arith,
    insert-IsSorted k v m s.1,
    Above-insert j k v m,
    Above-trans k j m,
    o.cmp_flip k j,
    o.cmp_eq k j,
  )

  pub collect_from-IsSorted :
      (m : BTreeMap K V) (es : List (K × V)) → IsSorted m → IsSorted (collect_from m es)
  unfolding collect_from
  collect_from-IsSorted m [] s = s
  collect_from-IsSorted m ((k, v) ∷ es) s =
      collect_from-IsSorted (insert k v m) es (insert-IsSorted k v m s)

  Above-retain : (i : K) (p : K → V → Bool) (m : BTreeMap K V) → Above i m → Above i (retain p m)
  unfolding retain
  Above-retain i p [] a = tt
  Above-retain i p ((j, v) ∷ m) a = ground (arith, Above-retain i p m a.1)

  pub retain-IsSorted : (p : K → V → Bool) (m : BTreeMap K V) → IsSorted m → IsSorted (retain p m)
  unfolding retain
  retain-IsSorted p [] s = tt
  retain-IsSorted p ((j, v) ∷ m) s = ground (arith, Above-retain j p m s.0, retain-IsSorted p m s.1)

  Above-modify : (i k : K) (f : V → V) (m : BTreeMap K V) → Above i m → Above i (modify k f m)
  unfolding modify
  Above-modify i k f [] a = tt
  Above-modify i k f ((j, v) ∷ m) a = ground (arith, Above-modify i k f m a.1)

  pub modify-IsSorted :
      (k : K) (f : V → V) (m : BTreeMap K V) → IsSorted m → IsSorted (modify k f m)
  unfolding modify
  modify-IsSorted k f [] s = tt
  modify-IsSorted k f ((j, v) ∷ m) s =
      ground (arith, Above-modify j k f m s.0, modify-IsSorted k f m s.1)

  -- The entries that the test rejects are gone and the others are as they were.
  pub get-retain :
      (k : K) (p : K → V → Bool) (m : BTreeMap K V)
      → IsSorted m
      → get k (retain p m)
        ≡ elim (get k m) [ none ↦ none | some v ↦ (if p k v then some v else none) ]
  unfolding get retain
  get-retain k p [] s = refl
  get-retain k p ((j, v) ∷ m) s =
      ground (arith, get-retain k p m s.1, get_of_Above j m s.0, o.cmp_eq k j)
