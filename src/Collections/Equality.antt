-- ===== src/Collections/Equality.antt =====
-- Rust's derived `PartialEq` on options, vectors, sets and maps, from that on their elements.
use ovca_core.Prelude.{
  Bool, true, false, ◌&&◌, ◌≡◌, ◌↔◌, refl, ap, Option, none, some, List, [], ◌∷◌, arith,
}
use ovca_core.Collections.Order.{Ord, ◌=?◌, =?_iff}
use ovca_core.Collections.BTreeMap.{BTreeMap}

-- A Boolean test that decides equality.
abbrev pub Decides : {A : Type 0} → (A → A → Bool) → Type 0
Decides {A} same = (a b : A) → (same a b ≡ true) ↔ (a ≡ b)

abbrev pub same_option : {A : Type 0} → (A → A → Bool) → Option A → Option A → Bool
same_option same none none = true
same_option same (some a) (some b) = same a b
same_option same _ _ = false

abbrev pub same_list : {A : Type 0} → (A → A → Bool) → List A → List A → Bool
same_list same [] [] = true
same_list same (a ∷ as') (b ∷ bs) = same a b && same_list same as' bs
same_list same _ _ = false

abbrev pub same_entry : {K V : Type 0} ⦃o : Ord K⦄ → (V → V → Bool) → K × V → K × V → Bool
same_entry same (j, v) (k, w) = j =? k && same v w

abbrev pub same_map :
    {K V : Type 0} ⦃o : Ord K⦄ → (V → V → Bool) → BTreeMap K V → BTreeMap K V → Bool
same_map same = same_list (same_entry same)

pub ord-Decides : {A : Type 0} ⦃o : Ord A⦄ → Decides {A = A} ◌=?◌
ord-Decides a b = =?_iff a b

module _ {A : Type 0} (same : A → A → Bool) (decides : Decides same) where
  pub same_option-Decides : Decides (same_option same)
  same_option-Decides none none = (λ h. refl, λ e. refl)
  same_option-Decides none (some b) = (λ h. absurd cc, λ e. absurd cc)
  same_option-Decides (some a) none = (λ h. absurd cc, λ e. absurd cc)
  same_option-Decides (some a) (some b) =
      (λ h. ap some ((decides a b).0 h), λ e. (decides a b).1 (cc e))

  pub same_list-Decides : Decides (same_list same)
  same_list-Decides [] [] = (λ h. refl, λ e. refl)
  same_list-Decides [] (b ∷ bs) = (λ h. absurd cc, λ e. absurd cc)
  same_list-Decides (a ∷ as') [] = (λ h. absurd cc, λ e. absurd cc)
  same_list-Decides (a ∷ as') (b ∷ bs) = (
    λ h.
        rw ((decides a b).0 (ground (arith, h)), (same_list-Decides as' bs).0 (ground (arith, h)))
          refl,
    λ e. rw ((decides a b).1 (cc e), (same_list-Decides as' bs).1 (cc e)) refl,
  )

module _ {K V : Type 0} ⦃o : Ord K⦄ (same : V → V → Bool) (decides : Decides same) where
  same_entry-Decides : Decides (same_entry {K = K} same)
  same_entry-Decides (j, v) (k, w) = (
    λ h. rw ((=?_iff j k).0 (ground (arith, h)), (decides v w).0 (ground (arith, h))) refl,
    λ e. rw ((=?_iff j k).1 (cc e), (decides v w).1 (cc e)) refl,
  )

  pub same_map-Decides : Decides (same_map {K = K} same)
  same_map-Decides = same_list-Decides (same_entry same) same_entry-Decides
