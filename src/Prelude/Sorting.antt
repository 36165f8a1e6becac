-- ===== src/Prelude/Sorting.antt =====
-- `sort.Strings` and `sort.Ints`, as the insertion sort by a test: the order that they give is the one
-- ascending order.
use mathlib.Core.Bool.{Bool}
use mathlib.Core.List.{List, [], ◌∷◌}
use risk_engine.Prelude.Tests.{if◌then◌else◌}

module _ {A : Type 0} (less : A → A → Bool) where
  -- Behind the elements that are less.
  unfoldable pub insert_sorted : A → List A → List A
  insert_sorted x [] = x ∷ []
  insert_sorted x (y ∷ ys) = if less y x then y ∷ insert_sorted x ys else x ∷ y ∷ ys

  unfoldable pub sort : List A → List A
  unfolding insert_sorted
  sort [] = []
  sort (x ∷ xs) = insert_sorted x (sort xs)
