-- ===== src/Collections/BTreeSet.antt =====
-- `std::collections::BTreeSet`, as the list of its elements in ascending order.
pub mod Membership
pub mod Count
pub mod Ascending
use ovca_core.Prelude.{
  Bool, false, ◌≡◌, refl, ◌||◌, List, [], ◌∷◌, Ordering, arith, any, if◌then◌else◌,
}
use ovca_core.Collections.Order.{Ord, ◌=?◌}

abbrev pub BTreeSet : Type 0 → Type 0
BTreeSet A = List A

module _ {A : Type 0} ⦃o : Ord A⦄ where
  unfoldable pub contains : A → BTreeSet A → Bool
  contains a [] = false
  contains a (b ∷ s) = a =? b || contains a s

  unfoldable pub insert : A → BTreeSet A → BTreeSet A
  insert a [] = a ∷ []
  insert a (b ∷ s) =
      let rest = insert a s in
      elim (o.cmp a b) [ Ordering.lt ↦ a ∷ b ∷ s | Ordering.eq ↦ b ∷ s | Ordering.gt ↦ b ∷ rest ]

  -- `remove(a)`
  unfoldable pub remove : A → BTreeSet A → BTreeSet A
  remove a [] = []
  remove a (b ∷ s) = let rest = remove a s in if a =? b then rest else b ∷ rest

  -- `extend(iter)`
  unfoldable pub extend : BTreeSet A → List A → BTreeSet A
  unfolding insert
  extend s [] = s
  extend s (a ∷ as') = extend (insert a s) as'

  -- `iter().collect::<BTreeSet<_>>()`
  abbrev pub collect : List A → BTreeSet A
  collect xs = extend [] xs

  pub contains-insert :
      (a b : A) (s : BTreeSet A) → contains a (insert b s) ≡ (a =? b || contains a s)
  unfolding contains insert
  contains-insert a b [] = refl
  contains-insert a b (c ∷ s) = ground (arith, contains-insert a b s, o.cmp_eq b c)

  pub contains-extend :
      (a : A) (s : BTreeSet A) (xs : List A)
      → contains a (extend s xs) ≡ (any (λ b. a =? b) xs || contains a s)
  unfolding extend
  contains-extend a s [] = refl
  contains-extend a s (b ∷ xs) =
      ground (arith, contains-extend a (insert b s) xs, contains-insert a b s)

  pub contains-collect : (a : A) (xs : List A) → contains a (collect xs) ≡ any (λ b. a =? b) xs
  unfolding contains
  contains-collect a xs = ground (arith, contains-extend a [] xs)
