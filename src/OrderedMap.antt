-- ===== src/OrderedMap.antt =====
-- `BTreeMap`, and `HashMap` where its order is never read: an association list in the order of
-- its keys. The proofs are in the modules below.
pub mod Lookup
pub mod Sorted
pub mod Sum
use paritr_node.Prelude.{ℕ, ◌+◌, ◌≡◌, Bool, true, false, Option, none, some, List, [], ◌∷◌}
use paritr_node.Prelude.{if◌then◌else◌, All, sum_by}
use paritr_node.Prelude.Order.{Ord}
use Prim.Native.Nat.{Ordering}

abbrev pub OrderedMap {ℓ κ} : Type ℓ → Type κ → Type (ℓ ⊔ κ)
OrderedMap K V = List (K × V)

module _ {ℓ} {K : Type ℓ} ⦃o : Ord K⦄ where
  abbrev pub same : K → K → Bool
  same a b = elim (o.cmp a b) [ Ordering.eq ↦ true | _ ↦ false ]

-- The sum of a number read off each value.
abbrev pub sum_values {ℓ κ} : {K : Type ℓ} {V : Type κ} → (V → ℕ) → OrderedMap K V → ℕ
sum_values f m = sum_by (λ e. f e.1) m

abbrev pub amount_at {ℓ} : {V : Type ℓ} → (V → ℕ) → Option V → ℕ
amount_at f none = 0
amount_at f (some v) = f v

module _ {ℓ κ} {K : Type ℓ} {V : Type κ} ⦃o : Ord K⦄ where
  unfoldable pub lookup : K → OrderedMap K V → Option V
  lookup k [] = none
  lookup k ((j, v) ∷ m) = if same k j then some v else lookup k m

  unfoldable pub insert : K → V → OrderedMap K V → OrderedMap K V
  insert k v [] = (k, v) ∷ []
  insert k v ((j, w) ∷ m) =
      let rest = insert k v m in
      elim (o.cmp k j) [
        | Ordering.lt ↦ (k, v) ∷ (j, w) ∷ m
        | Ordering.eq ↦ (k, v) ∷ m
        | Ordering.gt ↦ (j, w) ∷ rest
      ]

  unfoldable pub remove : K → OrderedMap K V → OrderedMap K V
  remove k [] = []
  remove k ((j, v) ∷ m) = let rest = remove k m in if same k j then rest else (j, v) ∷ rest

  -- Every key lies above `k`.
  abbrev pub IsAbove : K → OrderedMap K V → Type 0
  IsAbove k = All (λ e. o.cmp k e.0 ≡ Ordering.lt)

  abbrev pub IsSorted : OrderedMap K V → Type 0
  IsSorted [] = Unit
  IsSorted ((k, v) ∷ m) = IsAbove k m × IsSorted m
