-- ===== src/Rewards/Exact/Totals.antt =====
-- A reward allocation pays out the subsidy and the fees exactly, and is always found where no sum of
-- weights saturates.
use native.Mathlib.Nat.{mod-eq_of_lt}
use paritr_node.Prelude.{
  ℕ, ◌+◌, ◌-◌, ◌*◌, ◌/◌, ◌%◌, ◌≤◌, ◌<◌, ◌≡◌, refl, ap, sym, ◌∙◌, List, [], ◌∷◌, arith, inl, inr,
  Bool-cases, leb, length, u64_mod, checked_add, checked_sub, Result, ok, some, ok_or, >>=-eq-ok,
}
use native.Mathlib.Decide.{dec_le}
use paritr_node.Prelude.Sort.{sort_by}
use paritr_node.Crypto.{Address}
use paritr_node.Errors.{ConsensusError, money_range}
use paritr_node.Params.{finder_share_percent}
use paritr_node.Rewards.{
  Weights, Allocation, distribute, split_pool, add_amounts, by_remainder, by_address, add_one_each,
  positive_amounts, u512_mod,
}
use paritr_node.Rewards.Exact.Distribute.{
  amounts, distribute_lem, Distributed, weight_sum, remainders,
}
use paritr_node.Rewards.Exact.Sorting.{
  paid, sort_by-keeps, amounts-add_one_each, paid-positive_amounts,
}

pub ok-injective {ℓ} :
    {A : Type ℓ} {a b : A} → ◌≡◌ {A = Result ConsensusError A} (ok a) (ok b) → a ≡ b
ok-injective h = cc

-- Whatever the weights, a loop that succeeds has counted the amounts that it assigned.
distribute-eq-ok :
    (pool whole : ℕ) (weights : Weights) (from t : ℕ) (out : List Allocation)
    → distribute pool whole weights from ≡ ok (t, out)
    → t ≡ from + amounts out
unfolding distribute
distribute-eq-ok pool whole [] from t out h = ground arith
distribute-eq-ok pool whole ((address, w) ∷ weights) from t out h =
    elim (Bool-cases (leb u512_mod (pool * w))) [
      | inl over ↦ cc (rw over at h)
      | inr fits ↦
          let amount = pool * w / whole % u64_mod in
          let (d, added, rest) =
            >>=-eq-ok (ok_or (checked_add from amount) money_range) _ (rw fits at h) in
          let ((sum, more), again, done) = >>=-eq-ok (distribute pool whole weights d) _ rest in
          let counted = distribute-eq-ok pool whole weights d sum more again in
          let here : d ≡ from + amount = ground arith in ground (arith, counted, here)
    ]

-- A pool that is split is never overspent.
pub split_pool-le :
    (pool whole : ℕ) (weights : Weights) (rewards : List (Address × ℕ))
    → pool + 1 < u64_mod
    → split_pool pool whole weights ≡ ok rewards
    → paid rewards ≤ pool
unfolding split_pool
split_pool-le pool whole weights rewards small h =
    let ((distributed, out), first, rest) = >>=-eq-ok (distribute pool whole weights 0) _ h in
    let (leftover, second, done) =
      >>=-eq-ok (ok_or (checked_sub pool distributed) money_range) _ rest in
    let counted = distribute-eq-ok pool whole weights 0 distributed out first in
    let left : distributed + leftover ≡ pool = ground arith in
    let (ranked, _) = sort_by-keeps by_remainder out in
    let bumped = add_one_each leftover (sort_by by_remainder out) in
    let (sorted, _) = sort_by-keeps by_address bumped in
    let sum : paid rewards ≡ amounts (sort_by by_address bumped) =
      sym (ap paid (ok-injective done)) ∙ paid-positive_amounts (sort_by by_address bumped) in
    omega (
      arith,
      sum,
      sorted,
      amounts-add_one_each leftover (sort_by by_remainder out) (omega (arith, ranked, counted)),
      ranked,
    )

cancel : (x y w : ℕ) → 0 < w → x * w ≤ y * w → x ≤ y
cancel x y w pos h = elim (dec_le x y) [ yes p ↦ p | no p ↦ absurd (grind arith) ]

-- The leftover units are fewer than the entries, so each finds one.
leftover-le :
    (pool whole : ℕ) (weights : Weights) (t : ℕ) (out : List Allocation)
    → 0 < whole
    → weight_sum weights ≡ whole
    → Distributed pool whole weights 0 t out
    → (t ≤ pool) × (pool - t ≤ length out)
leftover-le pool whole weights t out pos sum d =
    let exact : amounts out * whole + remainders out ≡ pool * whole =
      (let e = d.exact in rw sum at e) in
    let within = cancel (amounts out) pool whole pos (omega (arith, exact)) in
    let covered =
      cancel pool (amounts out + length out) whole pos (omega (arith, exact, d.small)) in
    (omega (arith, within, d.summed), omega (arith, covered, d.summed))

-- Where the weights add up to the whole, the pool is split without a rest.
pub split_pool-ok :
    (pool whole : ℕ) (weights : Weights)
    → 0 < whole
    → pool + 1 < u64_mod
    → pool * whole < u512_mod
    → weight_sum weights ≡ whole
    → (rewards : List (Address × ℕ)) × (split_pool pool whole weights ≡ ok rewards)
      × (paid rewards ≡ pool)
unfolding split_pool
split_pool-ok pool whole weights pos small fits sum =
    let (t, out, e, d) =
      distribute_lem pool whole pos (omega arith) weights 0 0 fits (omega arith) (omega arith) in
    let (within, enough) = leftover-le pool whole weights t out pos sum d in
    let bumped = add_one_each (pool - t) (sort_by by_remainder out) in
    let (ranked, count) = sort_by-keeps by_remainder out in
    let (sorted, _) = sort_by-keeps by_address bumped in
    let left : checked_sub pool t ≡ some (pool - t) = ground arith in
    (
      positive_amounts (sort_by by_address bumped),
      rw (e, left) refl,
      omega (
        arith,
        paid-positive_amounts (sort_by by_address bumped),
        sorted,
        amounts-add_one_each (pool - t) (sort_by by_remainder out)
            (omega (arith, ranked, d.summed)),
        ranked,
        count,
        d.summed,
      ),
    )

base-le : (subsidy : ℕ) → subsidy * finder_share_percent / 100 ≤ subsidy
base-le subsidy = omega arith

-- `total` does not wrap where the true sum fits.
pub add_amounts-eq :
    (acc : ℕ) (rs : List (Address × ℕ))
    → acc + paid rs < u64_mod
    → add_amounts acc rs ≡ acc + paid rs
unfolding add_amounts
add_amounts-eq acc [] h = omega arith
add_amounts-eq acc ((a, x) ∷ rs) h =
    let here : (acc + x) % u64_mod ≡ acc + x = mod-eq_of_lt (omega arith) in
    rw here (omega (arith, add_amounts-eq (acc + x) rs (omega arith)))
