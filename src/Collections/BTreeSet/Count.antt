-- ===== src/Collections/BTreeSet/Count.antt =====
-- How often a list has an element.
use ovca_core.Prelude.{
  ℕ, suc, ◌+◌, ◌≤◌, ◌<◌, true, ◌≡◌, refl, List, [], ◌∷◌, ◌++◌, arith, if◌then◌else◌, length,
}
use ovca_core.Collections.Order.{Ord, ◌=?◌}
use ovca_core.Collections.BTreeMap.{BTreeMap, get, keys, contains_key}
use ovca_core.Collections.BTreeMap.Sorted.{IsSorted, get_of_Above}
use ovca_core.Collections.BTreeSet.{BTreeSet, contains, remove}

module _ {A : Type 0} ⦃o : Ord A⦄ where
  abbrev pub count : A → List A → ℕ
  count a [] = 0
  count a (b ∷ s) = if a =? b then suc (count a s) else count a s

  pub count-append : (a : A) (xs ys : List A) → count a (xs ++ ys) ≡ count a xs + count a ys
  count-append a [] ys = omega arith
  count-append a (x ∷ xs) ys = ground (arith, count-append a xs ys)

  pub contains_of_count : (a : A) (xs : List A) → 0 < count a xs → contains a xs ≡ true
  unfolding contains
  contains_of_count a [] h = absurd (omega arith)
  contains_of_count a (x ∷ xs) h = ground (arith, contains_of_count a xs)

  pub count_of_contains : (a : A) (xs : List A) → contains a xs ≡ true → 0 < count a xs
  unfolding contains
  count_of_contains a [] h = absurd cc
  count_of_contains a (x ∷ xs) h = ground (arith, count_of_contains a xs)

  pub count-remove :
      (a b : A) (s : BTreeSet A) → count a (remove b s) ≡ (if a =? b then 0 else count a s)
  unfolding remove
  count-remove a b [] = ground arith
  count-remove a b (c ∷ s) = ground (
    arith,
    count-remove a b s,
    o.cmp_eq a b,
    o.cmp_eq b c,
    o.cmp_eq a c,
    o.cmp_refl a,
    o.cmp_flip b c,
  )

  pub length-remove : (a : A) (s : BTreeSet A) → length (remove a s) ≤ length s
  unfolding remove
  length-remove a [] = omega arith
  length-remove a (b ∷ s) = ground (arith, length-remove a s)

  pub length-remove-lt :
      (a : A) (s : BTreeSet A) → contains a s ≡ true → length (remove a s) < length s
  unfolding remove contains
  length-remove-lt a [] h = absurd cc
  length-remove-lt a (b ∷ s) h = ground (arith, length-remove a s, length-remove-lt a s)

module _ {K V : Type 0} ⦃o : Ord K⦄ where
  -- A map has each of its keys once.
  pub count-keys :
      (k : K) (m : BTreeMap K V)
      → IsSorted m
      → count k (keys m) ≡ (if contains_key k m then 1 else 0)
  unfolding get
  count-keys k [] s = refl
  count-keys k ((j, v) ∷ m) s =
      ground (arith, count-keys k m s.1, get_of_Above j m s.0, o.cmp_eq k j)
