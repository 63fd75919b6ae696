-- ===== src/Collections/Order.antt =====
-- Rust's `Ord`: a total order given by a three-way comparison, with the laws that a `BTreeMap`
-- relies on, for text and for enumerations.
use Prim.Native.String.compare as text_compare
use Prim.Native.String.{[], ◌∷◌, compare as text_compare}
use native.Mathlib.Omega.{compare-eq}
use text.Mathlib.TextEquality.{path_by_compare}
use text.Mathlib.TextPositions.{compare_refl}
use ovca_core.Prelude.{ℕ, String, Bool, true, false, ◌≡◌, refl, ◌↔◌, compare, Ordering, arith}

pub record Ord (A : Type 0) : Type 0 where
  pub cmp : A → A → Ordering
  pub cmp_refl : (a : A) → cmp a a ≡ Ordering.eq
  pub cmp_eq : (a b : A) → cmp a b ≡ Ordering.eq → a ≡ b
  pub cmp_flip : (a b : A) → cmp a b ≡ Ordering.gt → cmp b a ≡ Ordering.lt
  pub cmp_trans :
      (a b c : A) → cmp a b ≡ Ordering.lt → cmp b c ≡ Ordering.lt → cmp a c ≡ Ordering.lt

abbrev pub is_eq : Ordering → Bool
is_eq Ordering.eq = true
is_eq _ = false

abbrev pub is_lt : Ordering → Bool
is_lt Ordering.lt = true
is_lt _ = false

-- `a == b` and `a < b` at a type with an order.
infix 50 ◌=?◌ ◌<?◌
abbrev pub ◌=?◌ : {A : Type 0} ⦃o : Ord A⦄ → A → A → Bool
◌=?◌ ⦃o⦄ a b = is_eq (o.cmp a b)

abbrev pub ◌<?◌ : {A : Type 0} ⦃o : Ord A⦄ → A → A → Bool
◌<?◌ ⦃o⦄ a b = is_lt (o.cmp a b)

module _ {A : Type 0} ⦃o : Ord A⦄ where
  pub =?_iff : (a b : A) → ((a =? b) ≡ true) ↔ (a ≡ b)
  =?_iff a b = (λ h. o.cmp_eq a b (ground arith), λ e. ground (arith, o.cmp_refl a))

  pub =?_refl : (a : A) → (a =? a) ≡ true
  =?_refl a = ground (arith, o.cmp_refl a)

  pub cmp_irrefl : (a b : A) → o.cmp a b ≡ Ordering.lt → o.cmp b a ≡ Ordering.lt → ⊥
  cmp_irrefl a b h k = ground (arith, o.cmp_trans a b a h k, o.cmp_refl a)

  pub cmp_lt_ne : (a b : A) → o.cmp a b ≡ Ordering.lt → (a =? b) ≡ false
  cmp_lt_ne a b h = ground arith

-- Text is compared code point by code point, as its UTF-8 bytes are.
pub text_flip : (s t : String) → text_compare s t ≡ Ordering.gt → text_compare t s ≡ Ordering.lt
text_flip [] [] h = ground (arith, text_compare.nil-nil)
text_flip [] (d ∷ t) h = ground (arith, text_compare.nil-cons d t)
text_flip (c ∷ s) [] h = text_compare.nil-cons c s
text_flip (c ∷ s) (d ∷ t) h =
    ground (arith, text_compare.cons-cons c d s t, text_compare.cons-cons d c t s, text_flip s t)

pub text_trans :
    (s t u : String)
    → text_compare s t ≡ Ordering.lt
    → text_compare t u ≡ Ordering.lt
    → text_compare s u ≡ Ordering.lt
text_trans [] [] u h k = k
text_trans [] (d ∷ t) [] h k = ground (arith, text_compare.cons-nil d t)
text_trans [] (d ∷ t) (e ∷ u) h k = text_compare.nil-cons e u
text_trans (c ∷ s) [] u h k = ground (arith, text_compare.cons-nil c s)
text_trans (c ∷ s) (d ∷ t) [] h k = ground (arith, text_compare.cons-nil d t)
text_trans (c ∷ s) (d ∷ t) (e ∷ u) h k = ground (
  arith,
  text_compare.cons-cons c d s t,
  text_compare.cons-cons d e t u,
  text_compare.cons-cons c e s u,
  text_trans s t u,
)

instance abbrev pub string_ord : Ord String
string_ord = record {
  cmp = text_compare;
  cmp_refl = compare_refl;
  cmp_eq = path_by_compare;
  cmp_flip = text_flip;
  cmp_trans = text_trans;
}

-- A derived order on an enumeration compares the positions of the variants.
pub number_refl : (n : ℕ) → compare n n ≡ Ordering.eq
number_refl n = ground arith

pub number_flip : (m n : ℕ) → compare m n ≡ Ordering.gt → compare n m ≡ Ordering.lt
number_flip m n h = ground arith

pub number_trans :
    (k m n : ℕ) → compare k m ≡ Ordering.lt → compare m n ≡ Ordering.lt → compare k n ≡ Ordering.lt
number_trans k m n h h' = ground arith

abbrev pub derived_ord :
    {A : Type 0} (position : A → ℕ) → ((a b : A) → position a ≡ position b → a ≡ b) → Ord A
derived_ord position injective = record {
  cmp = λ a b. compare (position a) (position b);
  cmp_refl = λ a. number_refl (position a);
  cmp_eq = λ a b h. injective a b (compare-eq (position a) (position b) h);
  cmp_flip = λ a b. number_flip (position a) (position b);
  cmp_trans = λ a b c. number_trans (position a) (position b) (position c);
}

-- Pairs are compared by their first components, and by the second ones where those are equal.
abbrev pub then_compare : Ordering → Ordering → Ordering
then_compare Ordering.eq r = r
then_compare Ordering.lt r = Ordering.lt
then_compare Ordering.gt r = Ordering.gt

module _ {A B : Type 0} ⦃o : Ord A⦄ ⦃p : Ord B⦄ where
  abbrev pub pair_cmp : A × B → A × B → Ordering
  pair_cmp x y = then_compare (o.cmp x.0 y.0) (p.cmp x.1 y.1)

  pub pair_refl : (x : A × B) → pair_cmp x x ≡ Ordering.eq
  pair_refl x = ground (arith, o.cmp_refl x.0, p.cmp_refl x.1)

  pub pair_eq : (x y : A × B) → pair_cmp x y ≡ Ordering.eq → x ≡ y
  pair_eq (a, b) (c, d) h = rw (o.cmp_eq a c (ground arith), p.cmp_eq b d (ground arith)) refl

  pub pair_flip : (x y : A × B) → pair_cmp x y ≡ Ordering.gt → pair_cmp y x ≡ Ordering.lt
  pair_flip x y h =
      ground (arith, o.cmp_flip x.0 y.0, p.cmp_flip x.1 y.1, o.cmp_eq x.0 y.0, o.cmp_refl x.0)

  pub pair_trans :
      (x y z : A × B)
      → pair_cmp x y ≡ Ordering.lt
      → pair_cmp y z ≡ Ordering.lt
      → pair_cmp x z ≡ Ordering.lt
  pair_trans x y z h k = ground (
    arith,
    o.cmp_trans x.0 y.0 z.0,
    p.cmp_trans x.1 y.1 z.1,
    o.cmp_eq x.0 y.0,
    o.cmp_eq y.0 z.0,
    o.cmp_refl x.0,
  )

  instance abbrev pub pair_ord : Ord (A × B)
  pair_ord = record {
    cmp = pair_cmp;
    cmp_refl = pair_refl;
    cmp_eq = pair_eq;
    cmp_flip = pair_flip;
    cmp_trans = pair_trans;
  }
