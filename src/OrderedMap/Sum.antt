-- ===== src/OrderedMap/Sum.antt =====
-- How a write moves the sum of the values.
use paritr_node.Prelude.{ℕ, ◌+◌, ◌≤◌, ◌≡◌, refl, none, [], ◌∷◌, arith}
use paritr_node.Prelude.Order.{Ord}
use paritr_node.OrderedMap.{
  OrderedMap, lookup, insert, remove, IsAbove, IsSorted, sum_values, amount_at,
}
use paritr_node.OrderedMap.Sorted.{IsAbove-trans}

module _ {ℓ κ} {K : Type ℓ} {V : Type κ} ⦃o : Ord K⦄ where
  lookup-IsAbove : (k : K) (m : OrderedMap K V) → IsAbove k m → lookup k m ≡ none
  unfolding lookup
  lookup-IsAbove k [] a = refl
  lookup-IsAbove k ((j, v) ∷ m) a = ground (arith, lookup-IsAbove k m a.1)

  remove-IsAbove_self : (k : K) (m : OrderedMap K V) → IsAbove k m → remove k m ≡ m
  unfolding remove
  remove-IsAbove_self k [] a = refl
  remove-IsAbove_self k ((j, v) ∷ m) a = ground (arith, remove-IsAbove_self k m a.1)

  pub sum-insert :
      (f : V → ℕ) (k : K) (v : V) (m : OrderedMap K V)
      → IsSorted m
      → sum_values f (insert k v m) + amount_at f (lookup k m) ≡ sum_values f m + f v
  unfolding lookup insert
  sum-insert f k v [] s = omega arith
  sum-insert f k v ((j, w) ∷ m) s =
      ground
        (arith, sum-insert f k v m s.1, lookup-IsAbove k m, IsAbove-trans k j m, o.eq_of_cmp k j)

  pub sum-remove :
      (f : V → ℕ) (k : K) (m : OrderedMap K V)
      → IsSorted m
      → sum_values f (remove k m) + amount_at f (lookup k m) ≡ sum_values f m
  unfolding lookup remove
  sum-remove f k [] s = omega arith
  sum-remove f k ((j, w) ∷ m) s =
      ground (arith, sum-remove f k m s.1, remove-IsAbove_self k m, o.eq_of_cmp k j)

  -- One value is at most the sum.
  pub amount-le-sum :
      (f : V → ℕ) (k : K) (m : OrderedMap K V) → amount_at f (lookup k m) ≤ sum_values f m
  unfolding lookup
  amount-le-sum f k [] = omega arith
  amount-le-sum f k ((j, w) ∷ m) = ground (arith, amount-le-sum f k m)
