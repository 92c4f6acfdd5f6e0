-- ===== src/Prelude/Slot.antt =====
-- The order of pairs of a byte string and a number.
use Prim.Native.Nat.{compare, Ordering, ℕ}
use Prim.Native.Nat.Ordering.{lt, eq, gt}
use mathlib.Core.Path.{◌≡◌}
use mathlib.Core.List.{List}
use native.Mathlib.Omega.{arith}
use paritr_node.Prelude.Order.{
  Ord, cmp_bytes, cmp_bytes_refl, eq_of_cmp_bytes, cmp_bytes-gt_of_lt, cmp_bytes-lt_of_gt,
  cmp_bytes_trans,
}

unfoldable pub cmp_slot : List ℕ × ℕ → List ℕ × ℕ → Ordering
cmp_slot (xs, a) (ys, b) = elim (cmp_bytes xs ys) [ lt ↦ lt | eq ↦ compare a b | gt ↦ gt ]

module _ (p q r : List ℕ × ℕ) where
  pub cmp_slot_refl : cmp_slot p p ≡ eq
  unfolding cmp_slot
  cmp_slot_refl = ground (arith, cmp_bytes_refl p.0)

  pub eq_of_cmp_slot : cmp_slot p q ≡ eq → p ≡ q
  unfolding cmp_slot
  eq_of_cmp_slot h = ground (arith, eq_of_cmp_bytes p.0 q.0)

  pub cmp_slot-gt_of_lt : cmp_slot p q ≡ lt → cmp_slot q p ≡ gt
  unfolding cmp_slot
  cmp_slot-gt_of_lt h =
      ground (arith, cmp_bytes-gt_of_lt p.0 q.0, eq_of_cmp_bytes p.0 q.0, cmp_bytes_refl q.0)

  pub cmp_slot-lt_of_gt : cmp_slot p q ≡ gt → cmp_slot q p ≡ lt
  unfolding cmp_slot
  cmp_slot-lt_of_gt h =
      ground (arith, cmp_bytes-lt_of_gt p.0 q.0, eq_of_cmp_bytes p.0 q.0, cmp_bytes_refl q.0)

  pub cmp_slot_trans : cmp_slot p q ≡ lt → cmp_slot q r ≡ lt → cmp_slot p r ≡ lt
  unfolding cmp_slot
  cmp_slot_trans h k = ground (
    arith,
    cmp_bytes_trans p.0 q.0 r.0,
    eq_of_cmp_bytes p.0 q.0,
    eq_of_cmp_bytes q.0 r.0,
    cmp_bytes_refl p.0,
  )

instance abbrev pub slot_ord : Ord (List ℕ × ℕ)
slot_ord = record {
  cmp = cmp_slot;
  cmp_refl = λ p. cmp_slot_refl p p p;
  eq_of_cmp = λ p q. eq_of_cmp_slot p q q;
  gt_of_lt = λ p q. cmp_slot-gt_of_lt p q q;
  lt_of_gt = λ p q. cmp_slot-lt_of_gt p q q;
  lt_trans = cmp_slot_trans;
}
