-- ===== src/Prelude/Sorting.antt =====
-- `orderBy`: rows in the order of a test, stable as the database keeps rows of the same rank.
use mathlib.Core.Bool.{Bool}
use mathlib.Core.List.{List, [], ◌∷◌}
use elysia_panel.Prelude.Tests.{if◌then◌else◌}

module _ {A : Type 0} (before : A → A → Bool) where
  -- In front of the first row that must not come before it.
  abbrev pub insert_by : A → List A → List A
  insert_by x [] = x ∷ []
  insert_by x (y ∷ ys) = let rest = insert_by x ys in if before x y then x ∷ y ∷ ys else y ∷ rest

  abbrev pub sort_by : List A → List A
  sort_by [] = []
  sort_by (x ∷ xs) = insert_by x (sort_by xs)
