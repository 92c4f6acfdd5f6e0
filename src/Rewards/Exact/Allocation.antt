-- ===== src/Rewards/Exact/Allocation.antt =====
-- `reward_allocation` pays out the subsidy and the fees, no more and no less.
use paritr_node.Prelude.{
  ℕ, ◌+◌, ◌-◌, ◌*◌, ◌/◌, ◌≤◌, ◌<◌, ◌≡◌, sym, List, [], arith, inl, inr, Bool-cases, leb, ltb, ◌==◌,
  ◌||◌, not, u64_mod, checked_add, Result, ok, ok_or, fail_if, >>-eq-ok, >>=-eq-ok, ◌>>=◌, ◌>>◌,
  if◌then◌else◌,
}
use paritr_node.Crypto.{Address}
use paritr_node.Errors.{ConsensusError, money_range, reward_mismatch}
use paritr_node.Params.{block_subsidy, finder_share_percent, max_money, initial_subsidy}
use paritr_node.Params.Schedule.{block_subsidy-le}
use paritr_node.Types.Block.{Block}
use paritr_node.Rewards.{
  Weights, RewardAllocation, split_pool, total, reward_allocation, window_weights, total_weight,
  sum_finder,
}
use paritr_node.Rewards.Exact.Sorting.{paid}
use paritr_node.Rewards.Exact.Totals.{ok-injective, split_pool-le, add_amounts-eq}

-- What an allocation pays.
abbrev pub paid_out : RewardAllocation → ℕ
paid_out r = r.finder_amount + paid r.workshare_rewards

abbrev pub pool_of : ℕ → ℕ
pool_of subsidy = subsidy - subsidy * finder_share_percent / 100

-- The last steps, with the subsidy, the weights and their sum at hand.
abbrev pub settle : ℕ → ℕ → Weights → ℕ → Result ConsensusError RewardAllocation
settle subsidy fees weights whole =
    if pool_of subsidy == 0 || whole == 0
    then (do
      amount ←
          ok_or (sum_finder (subsidy * finder_share_percent / 100) (pool_of subsidy) fees)
            money_range
      ok (record { finder_amount = amount; workshare_rewards = [] }))
    else (do
      rewards ← split_pool (pool_of subsidy) whole weights
      finder_amount ← ok_or (checked_add (subsidy * finder_share_percent / 100) fees) money_range
      let result : RewardAllocation = record {
        finder_amount = finder_amount;
        workshare_rewards = rewards;
      }
      fail_if (not (total result == subsidy + fees)) reward_mismatch
      ok result)

pub total-eq : (r : RewardAllocation) → paid_out r < u64_mod → total r ≡ paid_out r
unfolding total
total-eq r h = add_amounts-eq r.finder_amount r.workshare_rewards h

module _ (subsidy fees : ℕ) (small : subsidy ≤ initial_subsidy) (funded : fees ≤ max_money) where
  settle_exact :
      (weights : Weights) (whole : ℕ) (r : RewardAllocation)
      → settle subsidy fees weights whole ≡ ok r
      → paid_out r ≡ subsidy + fees
  settle_exact weights whole r h = elim (Bool-cases (pool_of subsidy == 0 || whole == 0)) [
    | inl nobody ↦ ground (arith, rw nobody at h)
    | inr shared ↦
        let (rewards, first, rest) =
          >>=-eq-ok (split_pool (pool_of subsidy) whole weights) _ (rw shared at h) in
        let (finder, second, last) =
          >>=-eq-ok (ok_or (checked_add (subsidy * finder_share_percent / 100) fees) money_range) _
            rest in
        let within = split_pool-le (pool_of subsidy) whole weights rewards (omega arith) first in
        let added : finder ≡ subsidy * finder_share_percent / 100 + fees = ground arith in
        let result : RewardAllocation = record {
          finder_amount = finder;
          workshare_rewards = rewards;
        } in
        let (agrees, done) =
          >>-eq-ok (not (total result == subsidy + fees)) reward_mismatch (ok result) last in
        let fitting = total-eq result (omega (arith, within, added)) in
        let same : result ≡ r = ok-injective done in rw (sym same, sym fitting) (ground arith)
  ]

module _ (height : ℕ) (finder : Address) (fees : ℕ) (history : List Block) where
  -- A reward allocation pays out the subsidy of its height and the fees, to the last unit: the finder's
  -- amount and the workshare rewards sum up to it, in whatever way the pool was divided.
  pub reward_allocation_exact :
      (r : RewardAllocation)
      → reward_allocation height finder fees history ≡ ok r
      → paid_out r ≡ block_subsidy height + fees
  unfolding reward_allocation
  reward_allocation_exact r h =
      let (funded, rest) =
        >>-eq-ok (ltb max_money fees || leb u64_mod (block_subsidy height + fees)) money_range _
          h in
      let (weights, found, last) = >>=-eq-ok (window_weights history) _ rest in
      settle_exact (block_subsidy height) fees (block_subsidy-le height) (ground arith) weights
        (total_weight 0 weights) r last

  -- The fees of an allocation that succeeds are in the money range.
  pub reward_allocation-funded :
      (r : RewardAllocation)
      → reward_allocation height finder fees history ≡ ok r
      → fees ≤ max_money
  unfolding reward_allocation
  reward_allocation-funded r h =
      let (funded, rest) =
        >>-eq-ok (ltb max_money fees || leb u64_mod (block_subsidy height + fees)) money_range _
          h in
      ground arith
