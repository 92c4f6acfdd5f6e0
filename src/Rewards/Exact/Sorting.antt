-- ===== src/Rewards/Exact/Sorting.antt =====
-- Sorting keeps the amounts, the leftover units go one to an entry, and only zeros are dropped.
use paritr_node.Prelude.{
  ℕ, zero, suc, ◌+◌, ◌<◌, ◌≡◌, refl, List, [], ◌∷◌, Bool, inl, inr, arith, Bool-cases, length,
  sum_by, u64_mod, min,
}
use paritr_node.Crypto.{Address}
use paritr_node.Prelude.Sort.{insert_sorted, sort_by}
use paritr_node.Rewards.{Allocation, add_one_each, positive_amounts}
use paritr_node.Rewards.Exact.Distribute.{amounts}

abbrev pub paid : List (Address × ℕ) → ℕ
paid = sum_by (λ r. r.1)

module _ (le : Allocation → Allocation → Bool) where
  insert_sorted-keeps :
      (a : Allocation) (l : List Allocation)
      → (amounts (insert_sorted le a l) ≡ a.amount + amounts l)
        × (length (insert_sorted le a l) ≡ suc (length l))
  unfolding insert_sorted
  insert_sorted-keeps a [] = (refl, refl)
  insert_sorted-keeps a (b ∷ l) =
      let (sum, count) = insert_sorted-keeps a l in
      elim (Bool-cases (le a b)) [
        | inl here ↦ rw here (refl, refl)
        | inr there ↦ rw there (omega (arith, sum), omega (arith, count))
      ]

  pub sort_by-keeps :
      (l : List Allocation)
      → (amounts (sort_by le l) ≡ amounts l) × (length (sort_by le l) ≡ length l)
  unfolding sort_by
  sort_by-keeps [] = (refl, refl)
  sort_by-keeps (a ∷ l) =
      let (sum, count) = sort_by-keeps l in
      let (sum', count') = insert_sorted-keeps a (sort_by le l) in
      (omega (arith, sum, sum'), omega (arith, count, count'))

pub amounts-add_one_each :
    (n : ℕ) (l : List Allocation)
    → amounts l + 1 < u64_mod
    → amounts (add_one_each n l) ≡ amounts l + min n (length l)
unfolding add_one_each
amounts-add_one_each zero l h = omega arith
amounts-add_one_each (suc n) [] h = omega arith
amounts-add_one_each (suc n) (a ∷ l) h = omega (arith, amounts-add_one_each n l (omega arith))

pub paid-positive_amounts : (l : List Allocation) → paid (positive_amounts l) ≡ amounts l
unfolding positive_amounts
paid-positive_amounts [] = refl
paid-positive_amounts (a ∷ l) = ground (arith, paid-positive_amounts l)
