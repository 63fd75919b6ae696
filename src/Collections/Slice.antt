-- ===== src/Collections/Slice.antt =====
-- What the code asks of a slice of keys: whether two neighbours stand in descending order, and
-- whether `binary_search` finds a key.
use mathlib.Core.List.{Mem}
use ovca_core.Prelude.{Bool, true, false, ◌≡◌, ◌↔◌, ◌||◌, List, [], ◌∷◌, String}
use ovca_core.Collections.Order.{Ord, ◌<?◌, string_ord}

module _ {A : Type 0} ⦃o : Ord A⦄ where
  -- `windows(2).any(|pair| pair[0] > pair[1])`
  unfoldable pub has_descent : List A → Bool
  has_descent [] = false
  has_descent (x ∷ []) = false
  has_descent (x ∷ y ∷ r) = y <? x || has_descent (y ∷ r)

-- `slice.binary_search(key).is_ok()`. Its documentation says what it finds in an ascending slice
-- and leaves the answer open for any other.
pub record SliceSearch : Type 0 where
  pub finds : List String → String → Bool
  pub finds_iff :
      (xs : List String) (x : String) → has_descent xs ≡ false → (finds xs x ≡ true) ↔ Mem x xs
