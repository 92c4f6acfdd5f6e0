-- ===== src/Rewards/Exact/Distribute.antt =====
-- The floors of the shares and what they leave over.
use native.Mathlib.Nat.{div-add-mod, mod-lt, div-le_of_le-mul, div-mul-le_self, mod-eq_of_lt}
use native.Mathlib.Decide.{dec_le}
use paritr_node.Prelude.{
  ℕ, suc, ◌+◌, ◌*◌, ◌/◌, ◌%◌, ◌≤◌, ◌<◌, ◌≡◌, refl, ap, List, [], ◌∷◌, arith, true, false, leb, ltb,
  length, sum_by, u64_mod, ok,
}
use paritr_node.OrderedMap
use paritr_node.Rewards.{Weights, Allocation, distribute, u512_mod}

abbrev pub amounts : List Allocation → ℕ
amounts = sum_by (λ a. a.amount)

abbrev pub remainders : List Allocation → ℕ
remainders = sum_by (λ a. a.remainder)

abbrev pub weight_sum : Weights → ℕ
weight_sum = OrderedMap.sum_values (λ w. w)

-- What a successful loop computes: the sum of the amounts, with every remainder below the whole.
pub record Distributed (pool whole : ℕ) (weights : Weights) (from total : ℕ) (out : List Allocation)
    : Type 0 where
  pub counted : length out ≡ length weights
  pub summed : total ≡ from + amounts out
  pub exact : amounts out * whole + remainders out ≡ pool * weight_sum weights
  pub small : remainders out + length out ≤ length out * whole

abbrev next_allocation : ℕ → ℕ → List ℕ → ℕ → Allocation
next_allocation pool whole address w = record {
  address = address;
  amount = pool * w / whole;
  remainder = pool * w % whole;
}

module _ (pool whole : ℕ) (pos : 0 < whole) (small_pool : pool < u64_mod) where
  share-le-pool : (w : ℕ) → w ≤ whole → pool * w / whole ≤ pool
  share-le-pool w h = div-le_of_le-mul whole (grind arith)

  -- A floor never passes what the weights so far are worth.
  step-within :
      (w from taken : ℕ)
      → from * whole ≤ pool * taken
      → (from + pool * w / whole) * whole ≤ pool * (taken + w)
  step-within w from taken h =
      let q = pool * w / whole in
      let floor : q * whole ≤ pool * w = div-mul-le_self (pool * w) whole in omega (arith, floor)

  le-of-scaled : (n taken : ℕ) → taken ≤ whole → n * whole ≤ pool * taken → n ≤ pool
  le-of-scaled n taken h k = elim (dec_le n pool) [ yes p ↦ p | no p ↦ absurd (grind arith) ]

  step-Distributed :
      (address : List ℕ) (w from total : ℕ) (weights : Weights) (out : List Allocation)
      → Distributed pool whole weights (from + pool * w / whole) total out
      → Distributed pool whole
          ((address, w) ∷ weights)
          from
          total
          (next_allocation pool whole address w ∷ out)
  step-Distributed address w from total weights out d =
      let split = div-add-mod (pool * w) whole in
      let rem = mod-lt (pool * w) pos in
      record {
        counted = ap suc d.counted;
        summed = omega (arith, d.summed);
        exact = omega (arith, d.exact, split);
        small = omega (arith, d.small, rem);
      }

  product-fits : (w : ℕ) → w ≤ whole → pool * whole < u512_mod → leb u512_mod (pool * w) ≡ false
  product-fits w h fits = let below : pool * w ≤ pool * whole = grind arith in ground arith

  -- Where the weights add up to the whole, the loop neither overflows nor panics.
  pub distribute_lem :
      (weights : Weights) (from taken : ℕ)
      → pool * whole < u512_mod
      → from * whole ≤ pool * taken
      → taken + weight_sum weights ≡ whole
      → (total : ℕ) × (out : List Allocation) × (distribute pool whole weights from
          ≡ ok (total, out))
        × Distributed pool whole weights from total out
  unfolding distribute
  distribute_lem [] from taken fits within sum = (
    from,
    [],
    refl,
    record { counted = refl; summed = omega arith; exact = omega arith; small = omega arith },
  )
  distribute_lem ((address, w) ∷ weights) from taken fits within sum =
      let q = pool * w / whole in
      let share : q ≤ pool = share-le-pool w (omega arith) in
      let whole_share : q % u64_mod ≡ q = mod-eq_of_lt (omega arith) in
      let within' = step-within w from taken within in
      let sum' : taken + w + weight_sum weights ≡ whole = omega (arith, sum) in
      let room : from + q ≤ pool =
        le-of-scaled (from + q) (taken + w) (omega (arith, sum')) within' in
      let no_panic = product-fits w (omega (arith, sum)) fits in
      let no_overflow : ltb (from + q) u64_mod ≡ true = ground arith in
      let (total, out, e, d) = distribute_lem weights (from + q) (taken + w) fits within' sum' in
      (
        total,
        next_allocation pool whole address w ∷ out,
        rw (no_panic, whole_share, no_overflow, e) refl,
        step-Distributed address w from total weights out d,
      )
