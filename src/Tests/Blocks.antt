-- ===== src/Tests/Blocks.antt =====
-- Runs of the transition and of the validation of blocks.
use paritr_node.Prelude.{ℕ, ◌+◌, ◌≡◌, ◌≢◌, refl, [], ◌∷◌, List, Result, ok}
use paritr_node.Params.{block_subsidy, genesis_timestamp}
use paritr_node.State.Ledger.{LedgerState, empty_ledger, set_account}
use paritr_node.State.Supply.{IsOrdered, supply}
use paritr_node.Rewards.{RewardAllocation}
use paritr_node.Rewards.Exact.Allocation.{paid_out}
use paritr_node.Validation.Apply.{transition_for_candidate}
use paritr_node.Validation.Money.{transition_supply}
use paritr_node.Validation.Whole.{genesis_block, validate_block}
use paritr_node.Validation.Accepted.{
  Accepted, validate_block_accepts, validate_block-supply, validate_block_genesis,
}
use paritr_node.Chain.Supply.{empty-IsOrdered}
use paritr_node.Tests.Sample.{
  toy, value_of, funded, payment, claim, genesis_history, nothing_done, first_block, first_state,
  lucky,
}

abbrev outcome : LedgerState × (RewardAllocation × ℕ)
outcome =
    value_of nothing_done (transition_for_candidate 1 claim (payment ∷ []) genesis_history funded)

outcome_ok : transition_for_candidate 1 claim (payment ∷ []) genesis_history funded ≡ ok outcome
unfolding transition_for_candidate paritr_node.State.Ledger.mature set_account
    paritr_node.Prelude.Order.cmp_bytes paritr_node.Crypto.from_public_key
    paritr_node.Types.Transaction.encode_to paritr_node.Codec.to_le_bytes
    paritr_node.OrderedMap.lookup paritr_node.OrderedMap.insert
    paritr_node.Crypto.parse_and_validate_signature paritr_node.State.Ledger.debit
    paritr_node.Rewards.reward_allocation block_subsidy paritr_node.Validation.Whole.genesis_block
    paritr_node.State.Ledger.schedule_reward paritr_node.State.Ledger.set_nonce
outcome_ok = refl

funded-IsOrdered : IsOrdered funded
unfolding set_account paritr_node.OrderedMap.insert
funded-IsOrdered = record { accounts = (tt, tt); pending = tt }

transition_supply_example :
    IsOrdered outcome.0
    × (supply outcome.0 ≡ supply funded + block_subsidy 1)
    × (claim.amount ≡ outcome.1.0.finder_amount)
    × (paid_out outcome.1.0 ≡ block_subsidy 1 + outcome.1.1)
transition_supply_example =
    transition_supply 1 claim (payment ∷ []) genesis_history funded outcome.0 outcome.1.0
      outcome.1.1 funded-IsOrdered outcome_ok

pub first_block_ok :
    validate_block first_block genesis_history empty_ledger lucky genesis_timestamp ≡ ok first_state
unfolding validate_block paritr_node.Validation.Header.validate_header_context genesis_block
    paritr_node.Prelude.Order.cmp_bytes paritr_node.Types.Block.id paritr_node.Types.BlockHeader.id
    paritr_node.Crypto.sha256d paritr_node.Codec.to_le_bytes paritr_node.Crypto.domain_hash
    paritr_node.State.Ledger.root paritr_node.State.Tree.root paritr_node.OrderedMap.lookup
    paritr_node.State.Tree.empty_at paritr_node.Types.Witness.root paritr_node.Codec.put_vector
    paritr_node.Difficulty.target_to_bits paritr_node.Difficulty.next_bits
    paritr_node.Difficulty.required_bits paritr_node.Difficulty.bits_to_target
    paritr_node.Validation.Seed.median_time_past paritr_node.Validation.Whole.check_commitments
    paritr_node.Types.Block.transaction_root paritr_node.Types.Merkle.merkle_root
    paritr_node.Validation.Shares.validate_witness_shape paritr_node.Types.Witness.is_canonical
    paritr_node.Validation.Seed.randomx_seed paritr_node.Validation.Seed.verify_pow
    paritr_node.Difficulty.hash_meets_target paritr_node.Codec.from_le_bytes
    paritr_node.Validation.Whole.check_transition transition_for_candidate
    paritr_node.State.Ledger.mature paritr_node.Crypto.from_public_key
    paritr_node.Types.RewardClaim.id paritr_node.Types.RewardClaim.encode_to
    paritr_node.OrderedMap.insert paritr_node.Rewards.reward_allocation block_subsidy
    paritr_node.State.Ledger.schedule_reward paritr_node.Validation.Shares.validate_workshares
    paritr_node.Types.Block.encode_to paritr_node.Types.Transaction.encode_to
    paritr_node.Prelude.Sort.sort_by paritr_node.Difficulty.required_target
    paritr_node.State.Tree.update paritr_node.State.Ledger.key_hash paritr_node.OrderedMap.remove
    paritr_node.Prelude.Order.cmp_numbered
first_block_ok = refl

first_height : first_block.header.height ≢ 0
first_height = λ h. cc

validate_block_accepts_example :
    Accepted first_block genesis_history empty_ledger first_state lucky genesis_timestamp
validate_block_accepts_example =
    validate_block_accepts first_block genesis_history empty_ledger first_state lucky
      genesis_timestamp first_height first_block_ok

validate_block-supply_example :
    IsOrdered first_state
    × (supply first_state ≡ supply empty_ledger + block_subsidy first_block.header.height)
validate_block-supply_example =
    validate_block-supply first_block genesis_history empty_ledger first_state lucky
      genesis_timestamp empty-IsOrdered first_height first_block_ok

genesis_ok : validate_block genesis_block [] empty_ledger lucky 0 ≡ ok empty_ledger
unfolding validate_block genesis_block paritr_node.Types.Equality.same_block
    paritr_node.Prelude.Order.cmp_bytes paritr_node.Crypto.domain_hash paritr_node.Codec.to_le_bytes
    paritr_node.State.Ledger.root paritr_node.State.Tree.root paritr_node.OrderedMap.lookup
    paritr_node.State.Tree.empty_at paritr_node.Types.Witness.root paritr_node.Codec.put_vector
    paritr_node.Difficulty.target_to_bits
genesis_ok = refl

genesis_height : genesis_block.header.height ≡ 0
unfolding genesis_block
genesis_height = refl

validate_block_genesis_example : (genesis_block ≡ genesis_block) × (empty_ledger ≡ empty_ledger)
validate_block_genesis_example =
    validate_block_genesis genesis_block [] empty_ledger empty_ledger lucky 0 genesis_height
      genesis_ok
