-- ===== src/Rewards/Exact/Success.antt =====
-- When `reward_allocation` finds an allocation.
use paritr_node.Prelude.{
  ℕ, ◌+◌, ◌*◌, ◌/◌, ◌≤◌, ◌<◌, ◌≡◌, refl, List, [], ◌∷◌, arith, inl, inr, Bool-cases, leb, ltb, ◌==◌,
  ◌||◌, u64_mod, ok, true, false, checked_add, some,
}
use paritr_node.Crypto.{Address}
use paritr_node.Params.{block_subsidy, finder_share_percent, max_money, initial_subsidy}
use paritr_node.Params.Schedule.{block_subsidy-le}
use paritr_node.Types.Block.{Block}
use paritr_node.Rewards.{
  Weights, RewardAllocation, reward_allocation, u512_mod, window_weights, total_weight, total,
}
use paritr_node.Rewards.Exact.Distribute.{weight_sum}
use paritr_node.Rewards.Exact.Totals.{split_pool-ok}
use paritr_node.Rewards.Exact.Allocation.{
  paid_out, pool_of, settle, total-eq, reward_allocation_exact,
}

total_weight-eq :
    (acc : ℕ) (weights : Weights)
    → acc + weight_sum weights < u512_mod
    → total_weight acc weights ≡ acc + weight_sum weights
unfolding total_weight
total_weight-eq acc [] h = omega arith
total_weight-eq acc ((a, w) ∷ weights) h =
    let again = total_weight-eq (acc + w) weights (omega arith) in ground (arith, again)

module _ (subsidy fees : ℕ) (small : subsidy ≤ initial_subsidy) (funded : fees ≤ max_money) where
  settle-ok :
      (weights : Weights) (whole : ℕ)
      → pool_of subsidy * whole < u512_mod
      → weight_sum weights ≡ whole
      → (r : RewardAllocation) × (settle subsidy fees weights whole ≡ ok r)
  settle-ok weights whole fits sum = elim (Bool-cases (pool_of subsidy == 0 || whole == 0)) [
    | inl nobody ↦ (
      record {
        finder_amount = subsidy * finder_share_percent / 100 + pool_of subsidy + fees;
        workshare_rewards = [];
      },
      ground arith,
    )
    | inr shared ↦
        let (rewards, split, exact) =
          split_pool-ok (pool_of subsidy) whole weights (ground arith) (omega arith) fits sum in
        let result : RewardAllocation = record {
          finder_amount = subsidy * finder_share_percent / 100 + fees;
          workshare_rewards = rewards;
        } in
        let added : checked_add (subsidy * finder_share_percent / 100) fees
            ≡ some (subsidy * finder_share_percent / 100 + fees) =
          ground arith in
        let fitting = total-eq result (omega (arith, exact)) in
        let agrees : (total result == subsidy + fees) ≡ true = rw fitting (ground (arith, exact)) in
        (result, rw (shared, split, added, agrees) refl)
  ]

-- An allocation is found for all fees in the money range, where the weights of the window are known
-- and their sum times the subsidy stays below 512 bits; it pays the subsidy and the fees exactly.
pub reward_allocation-ok :
    (height : ℕ) (finder : Address) (fees : ℕ) (history : List Block) (weights : Weights)
    → fees ≤ max_money
    → window_weights history ≡ ok weights
    → initial_subsidy * weight_sum weights < u512_mod
    → (r : RewardAllocation) × (reward_allocation height finder fees history ≡ ok r)
      × (paid_out r ≡ block_subsidy height + fees)
unfolding reward_allocation
reward_allocation-ok height finder fees history weights funded found fits =
    let small = block_subsidy-le height in
    let whole : total_weight 0 weights ≡ weight_sum weights =
      omega (arith, total_weight-eq 0 weights (omega arith)) in
    let in_range : (ltb max_money fees || leb u64_mod (block_subsidy height + fees)) ≡ false =
      ground (arith, small) in
    let (r, settled) =
      settle-ok (block_subsidy height) fees small funded weights (weight_sum weights)
        (grind (arith, small, fits)) refl in
    let done : reward_allocation height finder fees history ≡ ok r =
      rw (in_range, found, whole) settled in
    (r, done, reward_allocation_exact height finder fees history r done)
