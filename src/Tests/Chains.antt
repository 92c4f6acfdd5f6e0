-- ===== src/Tests/Chains.antt =====
-- Runs of the chain.
use paritr_node.Prelude.{
  ℕ, suc, ◌+◌, ◌*◌, ◌≡◌, ◌≢◌, ◌≤◌, refl, arith, not, List, [], ◌∷◌, some, none, replicate, min,
  u64_mod, ◌++◌, ◌-◌, Result, ok, Option,
}
use paritr_node.Codec.{Bytes}
use paritr_node.State.Ledger.{empty_ledger}
use paritr_node.State.Supply.{IsOrdered, supply}
use paritr_node.Types.Block
use paritr_node.Types.Block.{Block}
use paritr_node.Validation.Seed.{cumulative_work}
use paritr_node.Validation.Whole.{genesis_block}
use paritr_node.Chain
use paritr_node.Chain.{
  Chain, extended, side_chain, genesis, append, from_blocks, consider_chain, preferred, block_at,
}
use paritr_node.Chain.Built.{Built, extend, start, IsValid, from_blocks-IsValid}
use paritr_node.Chain.Supply.{subsidies, supply-le-subsidies}
use paritr_node.Chain.Grown.{Grown, begun, grown, Grown-supply, Grown-heights}
use paritr_node.Chain.Preference.{preferred_exclusive, consider_chain_work}
use paritr_node.Chain.Repeats.{repeated_genesis}
use paritr_node.Node.Issuance.{scheduled_supply}
use paritr_node.Node.Issuance.Exact.{scheduled_supply-supply}
use paritr_node.Params.{genesis_timestamp}
use paritr_node.Tests.Blocks.{first_block_ok}
use paritr_node.Tests.Sample.{toy, genesis_history, lucky, first_block, first_state}

abbrev genesis_work : ℕ
genesis_work = 16_384

genesis_work_ok : cumulative_work genesis_history ≡ ok genesis_work
unfolding cumulative_work paritr_node.Difficulty.bits_to_target genesis_block
    paritr_node.Codec.to_le_bytes paritr_node.Difficulty.target_work
genesis_work_ok = refl

repeated_genesis_example :
    from_blocks (replicate 3 genesis_block) lucky 0
    ≡ ok (record {
      blocks = replicate 3 genesis_block;
      state = empty_ledger;
      cumulative_work = 3 * genesis_work;
    })
repeated_genesis_example = repeated_genesis 2 genesis_work lucky 0 genesis_work_ok (omega arith)

preferred_exclusive_example :
    preferred 5 (1 ∷ []) 5 (2 ∷ []) ≡ not (preferred 5 (2 ∷ []) 5 (1 ∷ []))
preferred_exclusive_example = preferred_exclusive 5 5 (1 ∷ []) (2 ∷ []) (λ h. cc)

abbrev twice : List Block
twice = genesis_block ∷ genesis_block ∷ []

abbrev pub first_chain : Chain
first_chain = record {
  blocks = genesis_history;
  state = empty_ledger;
  cumulative_work = genesis_work;
}

abbrev second_chain : Chain
second_chain = record { blocks = twice; state = empty_ledger; cumulative_work = 2 * genesis_work }

pub first_chain-IsValid : IsValid lucky first_chain
first_chain-IsValid = record { built = start; work = genesis_work_ok }

from_blocks-IsValid_example : IsValid lucky second_chain × (second_chain.blocks ≡ twice)
from_blocks-IsValid_example =
    from_blocks-IsValid twice lucky 0 second_chain
      (repeated_genesis 1 genesis_work lucky 0 genesis_work_ok (omega arith))

first-Built : Built lucky (genesis_history ++ (first_block ∷ [])) first_state
first-Built = extend first_block genesis_timestamp start first_block_ok

supply-le-subsidies_example :
    IsOrdered first_state × (supply first_state ≤ subsidies (genesis_history ++ (first_block ∷ [])))
supply-le-subsidies_example =
    supply-le-subsidies lucky (genesis_history ++ (first_block ∷ [])) first_state first-Built

genesis_ok : genesis ≡ ok first_chain
unfolding genesis cumulative_work paritr_node.Difficulty.bits_to_target genesis_block
    paritr_node.Codec.to_le_bytes paritr_node.Difficulty.target_work
genesis_ok = refl

first-Grown : Grown lucky first_chain
first-Grown = begun genesis_ok

abbrev pub longer_chain : Chain
longer_chain = record {
  blocks = genesis_history ++ (first_block ∷ []);
  state = first_state;
  cumulative_work = 2 * genesis_work;
}

longer_ok :
    append first_block lucky genesis_timestamp first_chain
    ≡ ok (longer_chain, extended (Block.id first_block) 1)
unfolding append paritr_node.Difficulty.target_work paritr_node.Validation.Whole.validate_block
    paritr_node.Validation.Header.validate_header_context genesis_block
    paritr_node.Prelude.Order.cmp_bytes paritr_node.Types.Block.id paritr_node.Types.BlockHeader.id
    paritr_node.Crypto.sha256d paritr_node.Codec.to_le_bytes paritr_node.Crypto.domain_hash
    paritr_node.State.Ledger.root paritr_node.State.Tree.root paritr_node.OrderedMap.lookup
    paritr_node.State.Tree.empty_at paritr_node.Types.Witness.root paritr_node.Codec.put_vector
    paritr_node.Difficulty.target_to_bits paritr_node.Difficulty.next_bits
    paritr_node.Difficulty.required_bits paritr_node.Difficulty.bits_to_target
    paritr_node.Validation.Seed.median_time_past paritr_node.Validation.Whole.check_commitments
    paritr_node.Types.Block.transaction_root paritr_node.Types.Merkle.merkle_root
    paritr_node.Validation.Shares.validate_witness_shape paritr_node.Types.Witness.is_canonical
    paritr_node.Validation.Seed.randomx_seed paritr_node.Validation.Seed.verify_pow
    paritr_node.Difficulty.hash_meets_target paritr_node.Codec.from_le_bytes
    paritr_node.Validation.Whole.check_transition
    paritr_node.Validation.Apply.transition_for_candidate paritr_node.State.Ledger.mature
    paritr_node.Crypto.from_public_key paritr_node.Types.RewardClaim.id
    paritr_node.Types.RewardClaim.encode_to paritr_node.OrderedMap.insert
    paritr_node.Rewards.reward_allocation paritr_node.Params.block_subsidy
    paritr_node.State.Ledger.schedule_reward paritr_node.Validation.Shares.validate_workshares
    paritr_node.Types.Block.encode_to paritr_node.Types.Transaction.encode_to
    paritr_node.Prelude.Sort.sort_by paritr_node.Difficulty.required_target
    paritr_node.State.Tree.update paritr_node.State.Ledger.key_hash paritr_node.OrderedMap.remove
    paritr_node.Prelude.Order.cmp_numbered
longer_ok = refl

longer-Grown : Grown lucky longer_chain
longer-Grown =
    grown first_block genesis_timestamp (extended (Block.id first_block) 1) first-Grown longer_ok

longer_height : Chain.height longer_chain ≡ ok 1
unfolding Chain.height
longer_height = refl

Grown-supply_example : supply longer_chain.state ≡ subsidies longer_chain.blocks
Grown-supply_example = Grown-supply lucky longer_chain longer-Grown

scheduled_supply-supply_example : scheduled_supply 1 ≡ min (supply longer_chain.state) (u64_mod - 1)
scheduled_supply-supply_example =
    scheduled_supply-supply lucky longer_chain 1 longer-Grown longer_height

-- A height in the second interval.
scheduled_supply_test :
    scheduled_supply 2_000_000 ≡ 1_600_000 * 1_000_000_000 + 400_000 * 500_000_000
unfolding scheduled_supply
scheduled_supply_test = refl

second_at : block_at longer_chain 1 ≡ some first_block
unfolding block_at
second_at = refl

Grown-heights_example : first_block.header.height ≡ 1
Grown-heights_example = Grown-heights lucky longer_chain 1 first_block longer-Grown second_at

not_preferred : consider_chain genesis_history lucky 0 first_chain ≡ ok (first_chain, side_chain)
unfolding consider_chain paritr_node.Types.Equality.same_block genesis_block
    paritr_node.Prelude.Order.cmp_bytes paritr_node.Crypto.domain_hash paritr_node.Codec.to_le_bytes
    paritr_node.State.Ledger.root paritr_node.State.Tree.root paritr_node.OrderedMap.lookup
    paritr_node.State.Tree.empty_at paritr_node.Types.Witness.root paritr_node.Codec.put_vector
    paritr_node.Difficulty.target_to_bits cumulative_work paritr_node.Difficulty.bits_to_target
    paritr_node.Difficulty.target_work Block.id paritr_node.Types.BlockHeader.id
    paritr_node.Crypto.sha256d
not_preferred = refl

consider_chain_work_example :
    IsValid lucky first_chain × (first_chain.cumulative_work ≤ first_chain.cumulative_work)
consider_chain_work_example =
    consider_chain_work genesis_history lucky 0 first_chain first_chain side_chain
      first_chain-IsValid not_preferred
