-- ===== src/Collections/BTreeSet/Membership.antt =====
-- What a set contains, against the library's membership in a list.
use mathlib.Core.Bool.{Bool-set}
use mathlib.Core.Logic.Or
use mathlib.Core.List.{Mem, mem-cons_self, mem-cons_of_mem, mem-cons, not-mem-nil}
use ovca_core.Prelude.{true, ◌≡◌, ◌↔◌, List, [], ◌∷◌, any, arith, Bool-cases, inl, inr}
use ovca_core.Collections.Order.{Ord, ◌=?◌}
use ovca_core.Collections.BTreeSet.{contains, collect, contains-collect}

module _ {A : Type 0} ⦃o : Ord A⦄ where
  mem_of_any : (a : A) (xs : List A) → any (λ b. a =? b) xs ≡ true → Mem a xs
  mem_of_any a [] h = cc
  mem_of_any a (x ∷ xs) h = elim (Bool-cases (a =? x)) [
    | inl e ↦ rw (o.cmp_eq a x (ground arith)) mem-cons_self
    | inr e ↦ mem-cons_of_mem x (mem_of_any a xs (rw e at h))
  ]

  any_of_mem : (a : A) (xs : List A) → Mem a xs → any (λ b. a =? b) xs ≡ true
  any_of_mem a [] m = absurd (not-mem-nil m)
  any_of_mem a (x ∷ xs) m =
      Or.elim (Bool-set _ _) (mem-cons.0 m) (λ e. ground (arith, e, o.cmp_refl a))
        (λ t. ground (arith, any_of_mem a xs t))

  -- A collected set contains exactly the members of the list.
  pub contains-collect_iff : (a : A) (xs : List A) → (contains a (collect xs) ≡ true) ↔ Mem a xs
  contains-collect_iff a xs = rw contains-collect (mem_of_any a xs, any_of_mem a xs)
