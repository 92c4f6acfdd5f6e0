-- ===== src/Rewards.antt =====
-- src/consensus/rewards.rs: what a block pays to its finder and to the workshares of its window. The
-- sums of weights are `U512`: they saturate, and a product of 512 bits or more panics.
pub mod Exact
use paritr_node.Prelude.{
  ℕ, zero, suc, ◌+◌, ◌-◌, ◌*◌, ◌/◌, ◌%◌, ◌^◌, Bool, true, false, ◌||◌, not, Option, none, some,
  List, [], ◌∷◌, ltb, leb, ◌==◌, if◌then◌else◌, length, drop, u64_mod, wrapping_add, checked_add,
  checked_sub, Result, ok, err, panicked, ◌>>=◌, ◌>>◌, ok_or, fail_if,
}
use paritr_node.Prelude.Order.{bytes_ord, bytes_lt}
use paritr_node.Prelude.Sort.{sort_by}
use paritr_node.OrderedMap
use paritr_node.OrderedMap.{OrderedMap}
use paritr_node.Crypto.{Address}
use paritr_node.Params.{block_subsidy, finder_share_percent, max_money, reward_window}
use paritr_node.Difficulty.{bits_to_target, target_work, workshare_bits}
use paritr_node.Errors.{ConsensusError, money_range, invalid_target, reward_mismatch}
use paritr_node.Types.Workshare.{Workshare}
use paritr_node.Types.Block.{Block}

pub record RewardAllocation : Type 0 where
  pub finder_amount : ℕ
  pub workshare_rewards : List (Address × ℕ)

abbrev pub Weights : Type 0
Weights = OrderedMap Address ℕ

-- `RewardAllocation::total`; `+` on `u64` wraps in a release build.
unfoldable pub add_amounts : ℕ → List (Address × ℕ) → ℕ
add_amounts total [] = total
add_amounts total ((_, amount) ∷ rest) = add_amounts (wrapping_add total amount) rest

unfoldable pub total : RewardAllocation → ℕ
unfolding add_amounts
total r = add_amounts r.finder_amount r.workshare_rewards

abbrev pub u512_mod : ℕ
u512_mod = 2 ^ 512

abbrev pub saturating_add_512 : ℕ → ℕ → ℕ
saturating_add_512 a b = if ltb (a + b) u512_mod then a + b else u512_mod - 1

unfoldable pub workshare_weight : ℕ → Result ConsensusError ℕ
workshare_weight block_bits = do
  bits ← ok_or (workshare_bits block_bits) invalid_target
  target ← ok_or (bits_to_target bits) invalid_target
  target_work target

-- `*weights.entry(miner).or_default()`
abbrev pub weight_of : Address → Weights → ℕ
weight_of miner weights = OrderedMap.amount_at (λ w. w) (OrderedMap.lookup miner weights)

unfoldable pub add_shares : List Workshare → Weights → Result ConsensusError Weights
unfolding workshare_weight
add_shares [] weights = ok weights
add_shares (share ∷ rest) weights = do
  weight ← workshare_weight share.candidate_header.bits
  add_shares rest (
      OrderedMap.insert share.miner (saturating_add_512 (weight_of share.miner weights) weight)
        weights)

unfoldable pub add_blocks : List Block → Weights → Result ConsensusError Weights
unfolding add_shares
add_blocks [] weights = ok weights
add_blocks (block ∷ rest) weights = do
  weights' ← add_shares block.workshare_witness.workshares weights
  add_blocks rest weights'

-- The weights of the last `REWARD_WINDOW` blocks.
unfoldable pub window_weights : List Block → Result ConsensusError Weights
unfolding add_blocks
window_weights history = add_blocks (drop (length history - reward_window) history) []

-- `weights.values().copied().fold(U512::zero(), U512::saturating_add)`
unfoldable pub total_weight : ℕ → Weights → ℕ
total_weight acc [] = acc
total_weight acc ((_, w) ∷ rest) = total_weight (saturating_add_512 acc w) rest

-- An entry of the vector `allocations`.
pub record Allocation : Type 0 where
  pub address : Address
  pub amount : ℕ
  pub remainder : ℕ

-- The loop over the weights, with `distributed` so far.
unfoldable pub distribute : ℕ → ℕ → Weights → ℕ → Result ConsensusError (ℕ × List Allocation)
distribute pool whole [] distributed = ok (distributed, [])
distribute pool whole ((address, weight) ∷ rest) distributed =
    if leb u512_mod (pool * weight) then panicked else do
      let amount = pool * weight / whole % u64_mod
      distributed' ← ok_or (checked_add distributed amount) money_range
      (sum, more) ← distribute pool whole rest distributed'
      ok (
        sum,
        record { address = address; amount = amount; remainder = pool * weight % whole } ∷ more,
      )

-- `right.2.cmp(&left.2).then_with(|| left.0.cmp(&right.0))` is `Less` or `Equal`.
abbrev pub by_remainder : Allocation → Allocation → Bool
by_remainder left right =
    if ltb right.remainder left.remainder
    then true
    else if ltb left.remainder right.remainder
    then false
    else not (bytes_lt right.address left.address)

abbrev pub by_address : Allocation → Allocation → Bool
by_address left right = not (bytes_lt right.address left.address)

-- `for allocation in allocations.iter_mut().take(n) { allocation.1 += 1 }`
unfoldable pub add_one_each : ℕ → List Allocation → List Allocation
add_one_each zero allocations = allocations
add_one_each (suc n) [] = []
add_one_each (suc n) (a ∷ rest) =
    record a { amount = wrapping_add a.amount 1 } ∷ add_one_each n rest

-- The positive amounts, with their addresses.
unfoldable pub positive_amounts : List Allocation → List (Address × ℕ)
positive_amounts [] = []
positive_amounts (a ∷ rest) =
    let more = positive_amounts rest in
    if ltb 0 a.amount then (a.address, a.amount) ∷ more else more

-- The shares of a pool, once the weights and their sum are known.
unfoldable pub split_pool : ℕ → ℕ → Weights → Result ConsensusError (List (Address × ℕ))
unfolding distribute sort_by add_one_each positive_amounts
split_pool pool whole weights = do
  (distributed, allocations) ← distribute pool whole weights 0
  leftover ← ok_or (checked_sub pool distributed) money_range
  ok (
      positive_amounts
        (sort_by by_address (add_one_each leftover (sort_by by_remainder allocations))))

abbrev pub sum_finder : ℕ → ℕ → ℕ → Option ℕ
sum_finder base pool fees = elim (checked_add base pool) [
  | none ↦ none
  | some v ↦ checked_add v fees
]

unfoldable pub reward_allocation :
    ℕ → Address → ℕ → List Block → Result ConsensusError RewardAllocation
unfolding window_weights total_weight split_pool total
reward_allocation height finder fees parent_history = do
  let subsidy = block_subsidy height
  fail_if (ltb max_money fees || leb u64_mod (subsidy + fees)) money_range
  let finder_base = subsidy * finder_share_percent / 100
  let pool = subsidy - finder_base
  weights ← window_weights parent_history
  let whole = total_weight 0 weights
  if pool == 0 || whole == 0
      then (do
        amount ← ok_or (sum_finder finder_base pool fees) money_range
        ok (record { finder_amount = amount; workshare_rewards = [] }))
      else (do
        rewards ← split_pool pool whole weights
        finder_amount ← ok_or (checked_add finder_base fees) money_range
        let result : RewardAllocation = record {
          finder_amount = finder_amount;
          workshare_rewards = rewards;
        }
        fail_if (not (total result == subsidy + fees)) reward_mismatch
        ok result)
