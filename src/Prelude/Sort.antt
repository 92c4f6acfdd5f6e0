-- ===== src/Prelude/Sort.antt =====
-- The stable sort of a vector.
use mathlib.Core.Bool.{Bool}
use mathlib.Core.List.{List, [], ◌∷◌}
use paritr_node.Prelude.Tests.{if◌then◌else◌}

-- `le` holds of two elements in order, equal ones included.
unfoldable pub insert_sorted {ℓ} : {A : Type ℓ} → (A → A → Bool) → A → List A → List A
insert_sorted le a [] = a ∷ []
insert_sorted le a (b ∷ rest) =
    let more = insert_sorted le a rest in if le a b then a ∷ b ∷ rest else b ∷ more

unfoldable pub sort_by {ℓ} : {A : Type ℓ} → (A → A → Bool) → List A → List A
unfolding insert_sorted
sort_by le [] = []
sort_by le (a ∷ rest) = insert_sorted le a (sort_by le rest)
