-- ===== src/Collections/BTreeMap/Extensional.antt =====
-- Two maps with the same entries are the same.
use ovca_core.Prelude.{
  false, ◌≡◌, ◌⊎◌, inl, inr, refl, sym, ◌∙◌, some, none, [], ◌∷◌, Ordering, arith, Bool-cases,
  subst,
}
use ovca_core.Collections.Order.{Ord, ◌=?◌, =?_iff, =?_refl, cmp_lt_ne}
use ovca_core.Collections.BTreeMap.{BTreeMap, get, insert, keys, contains_key}
use ovca_core.Collections.BTreeMap.Sorted.{IsSorted, Above, get_of_Above, Above-trans}

Ordering-cases : (r : Ordering) → (r ≡ Ordering.lt) ⊎ ((r ≡ Ordering.eq) ⊎ (r ≡ Ordering.gt))
Ordering-cases Ordering.lt = inl refl
Ordering-cases Ordering.eq = inr (inl refl)
Ordering-cases Ordering.gt = inr (inr refl)

module _ {K V : Type 0} ⦃o : Ord K⦄ where
  pub get-head : (k : K) (v : V) (m : BTreeMap K V) → get k ((k, v) ∷ m) ≡ some v
  unfolding get
  get-head k v m = ground (arith, =?_refl k)

  pub get-skip :
      (k j : K) (v : V) (m : BTreeMap K V) → (k =? j) ≡ false → get k ((j, v) ∷ m) ≡ get k m
  unfolding get
  get-skip k j v m h = ground arith

  -- Of two sorted maps with the same entries, neither starts before the other.
  not_before :
      (j k : K) (v w : V) (m n : BTreeMap K V)
      → Above k n
      → ((i : K) → get i ((j, v) ∷ m) ≡ get i ((k, w) ∷ n))
      → o.cmp j k ≡ Ordering.lt
      → ⊥
  not_before j k v w m n a same h =
      let missing : get j ((k, w) ∷ n) ≡ none =
        get-skip j k w n (cmp_lt_ne j k h) ∙ get_of_Above j n (Above-trans j k n h a) in
      cc (get-head j v m, same j, missing)

  get-tails :
      (k : K) (v w : V) (m n : BTreeMap K V)
      → Above k m
      → Above k n
      → ((i : K) → get i ((k, v) ∷ m) ≡ get i ((k, w) ∷ n))
      → (i : K) → get i m ≡ get i n
  get-tails k v w m n a b same i = elim (Bool-cases (i =? k)) [
    | inl here ↦ rw ((=?_iff i k).0 here, get_of_Above k m a, get_of_Above k n b) refl
    | inr other ↦ sym (get-skip i k v m other) ∙ same i ∙ get-skip i k w n other
  ]

  pub get-injective :
      (m n : BTreeMap K V) → IsSorted m → IsSorted n → ((i : K) → get i m ≡ get i n) → m ≡ n
  unfolding get
  get-injective [] [] s t same = refl
  get-injective [] ((k, w) ∷ n) s t same = absurd (cc (same k, get-head k w n))
  get-injective ((j, v) ∷ m) [] s t same = absurd (cc (same j, get-head j v m))
  get-injective ((j, v) ∷ m) ((k, w) ∷ n) s t same = elim (Ordering-cases (o.cmp j k)) [
    | inl before ↦ absurd (not_before j k v w m n t.0 same before)
    | inr (inr after) ↦
        absurd (not_before k j w v n m s.0 (λ i. sym (same i)) (o.cmp_flip j k after))
    | inr (inl equal) ↦
        let e : j ≡ k = o.cmp_eq j k equal in
        let same' : (i : K) → get i ((k, v) ∷ m) ≡ get i ((k, w) ∷ n) =
          subst (λ x. (i : K) → get i ((x, v) ∷ m) ≡ get i ((k, w) ∷ n)) e same in
        let ev : v ≡ w = cc (get-head k v m, same' k, get-head k w n) in
        let above : Above k m = subst (λ x. Above x m) e s.0 in
        rw (e, ev, get-injective m n s.1 t.1 (get-tails k v w m n above t.0 same')) refl
  ]

  -- A write at a key that is there keeps the keys.
  pub keys-insert :
      (k : K) (v w : V) (m : BTreeMap K V)
      → IsSorted m
      → get k m ≡ some w
      → keys (insert k v m) ≡ keys m
  unfolding get insert
  keys-insert k v w [] s e = absurd (cc e)
  keys-insert k v w ((j, u) ∷ m) s e =
      ground
        (arith, keys-insert k v w m s.1, o.cmp_eq k j, get_of_Above k m, Above-trans k j m, s.0)

module _ {K V W : Type 0} ⦃o : Ord K⦄ where
  Above-keys :
      (k : K) (m : BTreeMap K V) (n : BTreeMap K W) → keys m ≡ keys n → Above k n → Above k m
  Above-keys k [] n same a = tt
  Above-keys k ((i, v) ∷ m) [] same a = absurd (cc same)
  Above-keys k ((i, v) ∷ m) ((j, w) ∷ n) same a =
      let e : j ≡ i = cc same in
      (subst (λ x. o.cmp k x ≡ Ordering.lt) e a.0, Above-keys k m n (cc same) a.1)

  -- Sortedness is a matter of the keys.
  pub IsSorted-keys :
      (m : BTreeMap K V) (n : BTreeMap K W) → keys m ≡ keys n → IsSorted n → IsSorted m
  IsSorted-keys [] n same s = tt
  IsSorted-keys ((i, v) ∷ m) [] same s = absurd (cc same)
  IsSorted-keys ((i, v) ∷ m) ((j, w) ∷ n) same s =
      let e : j ≡ i = cc same in
      (Above-keys i m n (cc same) (subst (λ x. Above x n) e s.0), IsSorted-keys m n (cc same) s.1)

  pub contains_key-keys :
      (k : K) (m : BTreeMap K V) (n : BTreeMap K W)
      → keys m ≡ keys n
      → contains_key k m ≡ contains_key k n
  unfolding get
  contains_key-keys k [] [] same = refl
  contains_key-keys k [] ((j, w) ∷ n) same = absurd (cc same)
  contains_key-keys k ((i, v) ∷ m) [] same = absurd (cc same)
  contains_key-keys k ((i, v) ∷ m) ((j, w) ∷ n) same =
      let e : i ≡ j = cc same in rw e (ground (arith, contains_key-keys k m n (cc same)))
