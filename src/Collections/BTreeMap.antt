-- ===== src/Collections/BTreeMap.antt =====
-- `std::collections::BTreeMap`, as the list of its entries in ascending key order.
pub mod Sorted
pub mod Entries
pub mod Extensional
use mathlib.Core.Option
use ovca_core.Prelude.{
  Bool, true, false, ◌≡◌, refl, Option, none, some, List, [], ◌∷◌, map, Ordering, arith, is_some,
  if◌then◌else◌,
}
use ovca_core.Collections.Order.{Ord, ◌=?◌}

abbrev pub BTreeMap : Type 0 → Type 0 → Type 0
BTreeMap K V = List (K × V)

module _ {K V : Type 0} where
  -- `keys()` and `values()`
  abbrev pub keys : BTreeMap K V → List K
  keys = map (λ e. e.0)

  abbrev pub values : BTreeMap K V → List V
  values = map (λ e. e.1)

  -- `retain(|k, v| p)`
  unfoldable pub retain : (K → V → Bool) → BTreeMap K V → BTreeMap K V
  retain p [] = []
  retain p ((j, v) ∷ m) = let rest = retain p m in if p j v then (j, v) ∷ rest else rest

module _ {K V : Type 0} ⦃o : Ord K⦄ where
  unfoldable pub get : K → BTreeMap K V → Option V
  get k [] = none
  get k ((j, v) ∷ m) = if k =? j then some v else get k m

  -- `contains_key`
  abbrev pub contains_key : K → BTreeMap K V → Bool
  contains_key k m = is_some (get k m)

  -- Keeps the order; the value of a key that is there is replaced.
  unfoldable pub insert : K → V → BTreeMap K V → BTreeMap K V
  insert k v [] = (k, v) ∷ []
  insert k v ((j, w) ∷ m) =
      let rest = insert k v m in
      elim (o.cmp k j) [
        | Ordering.lt ↦ (k, v) ∷ (j, w) ∷ m
        | Ordering.eq ↦ (k, v) ∷ m
        | Ordering.gt ↦ (j, w) ∷ rest
      ]

  -- `into_iter().collect()`: a later entry replaces an earlier one with its key.
  unfoldable pub collect_from : BTreeMap K V → List (K × V) → BTreeMap K V
  unfolding insert
  collect_from m [] = m
  collect_from m ((k, v) ∷ es) = collect_from (insert k v m) es

  -- `get_mut(k)`, and a write through the reference; nothing is inserted.
  unfoldable pub modify : K → (V → V) → BTreeMap K V → BTreeMap K V
  modify k f [] = []
  modify k f ((j, v) ∷ m) = if k =? j then (j, f v) ∷ m else (j, v) ∷ modify k f m

  pub get-insert :
      (j k : K) (v : V) (m : BTreeMap K V)
      → get j (insert k v m) ≡ (if j =? k then some v else get j m)
  unfolding get insert
  get-insert j k v [] = refl
  get-insert j k v ((i, w) ∷ m) = ground (arith, get-insert j k v m, o.cmp_eq k i, o.cmp_eq j k)

  pub get-modify :
      (j k : K) (f : V → V) (m : BTreeMap K V)
      → get j (modify k f m) ≡ (if j =? k then Option.map f (get j m) else get j m)
  unfolding get modify
  get-modify j k f [] = ground arith
  get-modify j k f ((i, w) ∷ m) = ground (arith, get-modify j k f m, o.cmp_eq k i, o.cmp_eq j k)
