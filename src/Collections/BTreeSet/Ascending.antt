-- ===== src/Collections/BTreeSet/Ascending.antt =====
-- The elements of a set stand in strictly ascending order.
use ovca_core.Prelude.{◌≡◌, false, refl, List, [], ◌∷◌, Ordering, arith}
use ovca_core.Collections.Order.{Ord}
use ovca_core.Collections.BTreeSet.{BTreeSet, contains, insert, extend, collect}

module _ {A : Type 0} ⦃o : Ord A⦄ where
  abbrev pub IsBelow : A → BTreeSet A → Type 0
  IsBelow a [] = Unit
  IsBelow a (b ∷ s) = (o.cmp a b ≡ Ordering.lt) × IsBelow a s

  abbrev pub IsAscending : BTreeSet A → Type 0
  IsAscending [] = Unit
  IsAscending (a ∷ s) = IsBelow a s × IsAscending s

  pub IsBelow-trans :
      (a b : A) (s : BTreeSet A) → o.cmp a b ≡ Ordering.lt → IsBelow b s → IsBelow a s
  IsBelow-trans a b [] h l = tt
  IsBelow-trans a b (c ∷ s) h l = (o.cmp_trans a b c h l.0, IsBelow-trans a b s h l.1)

  IsBelow-insert :
      (a b : A) (s : BTreeSet A) → o.cmp a b ≡ Ordering.lt → IsBelow a s → IsBelow a (insert b s)
  unfolding insert
  IsBelow-insert a b [] h l = (h, tt)
  IsBelow-insert a b (c ∷ s) h l = ground (arith, IsBelow-insert a b s h l.1)

  pub insert-IsAscending : (a : A) (s : BTreeSet A) → IsAscending s → IsAscending (insert a s)
  unfolding insert
  insert-IsAscending a [] h = (tt, tt)
  insert-IsAscending a (b ∷ s) h = ground (
    arith,
    insert-IsAscending a s h.1,
    IsBelow-insert b a s,
    IsBelow-trans a b s,
    o.cmp_flip a b,
    o.cmp_eq a b,
  )

  extend-IsAscending : (s : BTreeSet A) (xs : List A) → IsAscending s → IsAscending (extend s xs)
  unfolding extend
  extend-IsAscending s [] h = h
  extend-IsAscending s (x ∷ xs) h = extend-IsAscending (insert x s) xs (insert-IsAscending x s h)

  pub collect-IsAscending : (xs : List A) → IsAscending (collect xs)
  collect-IsAscending xs = extend-IsAscending [] xs tt

  pub contains_of_IsBelow : (a : A) (s : BTreeSet A) → IsBelow a s → contains a s ≡ false
  unfolding contains
  contains_of_IsBelow a [] l = refl
  contains_of_IsBelow a (b ∷ s) l = ground (arith, contains_of_IsBelow a s l.1)
