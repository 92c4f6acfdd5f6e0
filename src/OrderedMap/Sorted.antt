-- ===== src/OrderedMap/Sorted.antt =====
-- Writes keep the keys in strict order.
use Prim.Native.Nat.Ordering.{lt}
use paritr_node.Prelude.{◌≡◌, [], ◌∷◌, arith}
use paritr_node.Prelude.Order.{Ord}
use paritr_node.OrderedMap.{OrderedMap, insert, remove, IsAbove, IsSorted}

module _ {ℓ κ} {K : Type ℓ} {V : Type κ} ⦃o : Ord K⦄ where
  pub IsAbove-trans : (k j : K) (m : OrderedMap K V) → o.cmp k j ≡ lt → IsAbove j m → IsAbove k m
  IsAbove-trans k j [] h a = tt
  IsAbove-trans k j ((i, v) ∷ m) h a = (o.lt_trans k j i h a.0, IsAbove-trans k j m h a.1)

  insert-IsAbove :
      (i k : K) (v : V) (m : OrderedMap K V)
      → o.cmp i k ≡ lt
      → IsAbove i m
      → IsAbove i (insert k v m)
  unfolding insert
  insert-IsAbove i k v [] h a = (h, tt)
  insert-IsAbove i k v ((j, w) ∷ m) h a = ground (arith, insert-IsAbove i k v m h a.1)

  pub insert-IsSorted : (k : K) (v : V) (m : OrderedMap K V) → IsSorted m → IsSorted (insert k v m)
  unfolding insert
  insert-IsSorted k v [] s = (tt, tt)
  insert-IsSorted k v ((j, w) ∷ m) s = ground (
    arith,
    o.eq_of_cmp k j,
    o.lt_of_gt k j,
    IsAbove-trans k j m,
    insert-IsAbove j k v m,
    insert-IsSorted k v m s.1,
  )

  remove-IsAbove : (i k : K) (m : OrderedMap K V) → IsAbove i m → IsAbove i (remove k m)
  unfolding remove
  remove-IsAbove i k [] a = tt
  remove-IsAbove i k ((j, w) ∷ m) a = ground (arith, remove-IsAbove i k m a.1)

  pub remove-IsSorted : (k : K) (m : OrderedMap K V) → IsSorted m → IsSorted (remove k m)
  unfolding remove
  remove-IsSorted k [] s = tt
  remove-IsSorted k ((j, w) ∷ m) s =
      ground (arith, remove-IsAbove j k m s.0, remove-IsSorted k m s.1)
