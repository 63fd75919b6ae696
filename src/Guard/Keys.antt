-- ===== src/Guard/Keys.antt =====
-- A list of keys as a request may have it.
use mathlib.Core.List.{Mem, mem-cons, mem-cons_self, mem-cons_of_mem, not-mem-nil}
use mathlib.Core.Logic.Or
use mathlib.Core.Bool.{Bool-set}
use ovca_core.Prelude.{
  ◌+◌, ◌≤◌, String, false, ◌≡◌, ◌↔◌, refl, sym, subst, List, [], ◌∷◌, length, any, is_blank, arith,
  Ordering, if◌then◌else◌, suc, inl, inr, Bool-cases,
}
use ovca_core.Collections.Order.{Ord, ◌=?◌, string_ord, =?_iff, cmp_irrefl}
use ovca_core.Collections.BTreeSet.{BTreeSet, contains, insert, extend, collect, contains-insert}
use ovca_core.Collections.BTreeSet.Ascending.{
  IsBelow, IsAscending, IsBelow-trans, insert-IsAscending, contains_of_IsBelow,
}
use ovca_core.Collections.Slice.{has_descent}

module _ {A : Type 0} ⦃o : Ord A⦄ where
  length-insert :
      (a : A) (s : BTreeSet A)
      → IsAscending s
      → length (insert a s) ≡ (if contains a s then length s else suc (length s))
  unfolding insert contains
  length-insert a [] h = refl
  length-insert a (b ∷ s) h =
      ground (arith, length-insert a s h.1, contains_of_IsBelow a s, IsBelow-trans a b s)

  length-extend :
      (s : BTreeSet A) (xs : List A) → IsAscending s → length (extend s xs) ≤ length s + length xs
  unfolding extend
  length-extend s [] h = omega arith
  length-extend s (x ∷ xs) h =
      ground (arith, length-extend (insert x s) xs (insert-IsAscending x s h), length-insert x s h)

  above-ne : (x y : A) → o.cmp x y ≡ Ordering.lt → (y =? x) ≡ false
  above-ne x y h = elim (Bool-cases (y =? x)) [
    | inl e ↦ let same : y ≡ x = (=?_iff y x).0 e in absurd (cc (o.cmp_refl x, h, same))
    | inr e ↦ e
  ]

  -- None of the list is in the set.
  abbrev AllOut : BTreeSet A → List A → Type 0
  AllOut s [] = Unit
  AllOut s (x ∷ xs) = (contains x s ≡ false) × AllOut s xs

  AllOut-insert :
      (s : BTreeSet A) (x : A) (xs : List A) → IsBelow x xs → AllOut s xs → AllOut (insert x s) xs
  AllOut-insert s x [] b h = tt
  AllOut-insert s x (y ∷ xs) b h =
      (ground (arith, contains-insert y x s, above-ne x y b.0, h.0), AllOut-insert s x xs b.1 h.1)

  AllOut-nil : (xs : List A) → AllOut [] xs
  unfolding contains
  AllOut-nil [] = tt
  AllOut-nil (x ∷ xs) = (refl, AllOut-nil xs)

  length-extend-AllOut :
      (s : BTreeSet A) (xs : List A)
      → IsAscending s
      → IsAscending xs
      → AllOut s xs
      → length (extend s xs) ≡ length s + length xs
  unfolding extend
  length-extend-AllOut s [] h a n = omega arith
  length-extend-AllOut s (x ∷ xs) h a n = ground (
    arith,
    length-extend-AllOut (insert x s) xs (insert-IsAscending x s h) a.1
        (AllOut-insert s x xs a.0 n.1),
    length-insert x s h,
    n.0,
  )

  -- A list that loses nothing when it is put into a set.
  kept_whole :
      (s : BTreeSet A) (x : A) (xs : List A)
      → IsAscending s
      → length (extend s (x ∷ xs)) ≡ length s + length (x ∷ xs)
      → (contains x s ≡ false) × (length (extend (insert x s) xs) ≡ length (insert x s) + length xs)
  unfolding extend
  kept_whole s x xs h e =
      let bound = length-extend (insert x s) xs (insert-IsAscending x s h) in
      let grown = length-insert x s h in
      elim (Bool-cases (contains x s)) [
        | inl c ↦ absurd (ground (arith, bound, grown, c, e))
        | inr c ↦ (c, ground (arith, grown, c, e))
      ]

  kept_whole-IsAscending :
      (s : BTreeSet A) (xs : List A)
      → IsAscending s
      → length (extend s xs) ≡ length s + length xs
      → has_descent xs ≡ false
      → IsAscending xs
  unfolding has_descent
  kept_whole-IsAscending s [] h e d = tt
  kept_whole-IsAscending s (x ∷ []) h e d = (tt, tt)
  kept_whole-IsAscending s (x ∷ y ∷ xs) h e d =
      let here = kept_whole s x (y ∷ xs) h e in
      let up = insert-IsAscending x s h in
      let next = kept_whole (insert x s) y xs up here.1 in
      let rest = kept_whole-IsAscending (insert x s) (y ∷ xs) up here.1 (ground arith) in
      let below : o.cmp x y ≡ Ordering.lt =
        ground (arith, next.0, contains-insert y x s, o.cmp_flip x y, o.cmp_flip y x) in
      ((below, IsBelow-trans x y xs below rest.0), rest)

  IsAscending-has_descent : (xs : List A) → IsAscending xs → has_descent xs ≡ false
  unfolding has_descent
  IsAscending-has_descent [] a = refl
  IsAscending-has_descent (x ∷ []) a = refl
  IsAscending-has_descent (x ∷ y ∷ xs) a =
      ground (arith, a.0.0, cmp_irrefl x y a.0.0, IsAscending-has_descent (y ∷ xs) a.1)

-- No key is blank, and each stands before all that follow it, so that none stands twice.
pub record IsKeyList (keys : List String) : Type 0 where
  pub none_blank : (k : String) → Mem k keys → is_blank k ≡ false
  pub ascending : IsAscending keys

none_blank_iff :
    (keys : List String)
    → (any is_blank keys ≡ false) ↔ ((k : String) → Mem k keys → is_blank k ≡ false)
none_blank_iff [] = (λ h k m. absurd (not-mem-nil m), λ h. refl)
none_blank_iff (x ∷ keys) =
    let rest = none_blank_iff keys in
    (
      λ h k m.
          Or.elim (Bool-set _ _) (mem-cons.0 m)
            (λ e. subst (λ (j : String). is_blank j ≡ false) (sym e) (ground arith))
            (rest.0 (ground arith) k),
      λ h. ground (arith, h x mem-cons_self, rest.1 (λ k m. h k (mem-cons_of_mem x m))),
    )

-- The three tests of the policy on a list of keys, none of which holds.
pub IsKeyList-iff :
    (keys : List String)
    → ((any is_blank keys ≡ false)
        × (length (collect keys) ≡ length keys)
        × (has_descent keys ≡ false))
      ↔ IsKeyList keys
IsKeyList-iff keys = (
  λ (b, d, a). record {
    none_blank = (none_blank_iff keys).0 b;
    ascending = kept_whole-IsAscending [] keys tt (omega (arith, d)) a;
  },
  λ k. (
    (none_blank_iff keys).1 k.none_blank,
    omega (arith, length-extend-AllOut [] keys tt k.ascending (AllOut-nil keys)),
    IsAscending-has_descent keys k.ascending,
  ),
)
