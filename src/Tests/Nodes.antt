-- ===== src/Tests/Nodes.antt =====
-- Runs of a node whose storage answers and keeps nothing.
use paritr_node.Types.Workshare.{Workshare}
use paritr_node.Prelude.{suc, ◌≢◌, refl, arith, true, none, List, [], ◌∷◌, ◌≡◌, ok, panicked}
use paritr_node.Crypto.{Hash32, zero_hash}
use paritr_node.Types.Block
use paritr_node.Types.Block.{Block}
use paritr_node.Validation.Whole.{genesis_block}
use paritr_node.Params.{genesis_timestamp}
use paritr_node.Chain.{tip, extended}
use paritr_node.Mempool.{new_mempool, default_policy}
use paritr_node.Network.ObjectKind
use paritr_node.Network.WireMessage.{block, inventory}
use paritr_node.Node.WorksharePool.{WorksharePool, reset}
use paritr_node.Node.WorksharePool.Reached.{emptied}
use paritr_node.Node.State.{Node, Storage}
use paritr_node.Node.Blocks.{submit_block, find_fork, max_branch}
use paritr_node.Node.Blocks.Branch.{find_fork_ends}
use paritr_node.Node.Blocks.Outcomes.{Submitted, submit_block_outcomes}
use paritr_node.Node.Peers.{peer_connected}
use paritr_node.Node.Peers.Limits.{WithinLimits, peer_connected-WithinLimits}
use paritr_node.Node.Pending.{Pending}
use paritr_node.Node.Invariant.{IsHealthy, Progress}
use paritr_node.Node.Messages.{handle_wire}
use paritr_node.Node.Messages.Invariant.{handle_wire-Progress}
use paritr_node.Tests.Sample.{toy, lucky, first_block}
use paritr_node.Tests.Chains.{first_chain, first_chain-IsValid, longer_chain}

abbrev memory : Storage (Unit {0})
memory = record {
  stored_block = λ hash s. ok none;
  store_side_block = λ b s. (s, ok tt);
  save_chain = λ c s. (s, ok tt);
}

abbrev no_shares : WorksharePool
no_shares = record {
  anchor = zero_hash;
  templates = [];
  template_bytes = 0;
  shares = [];
  path_work = [];
  tip = zero_hash;
}

abbrev fresh_node : Node (Unit {0})
fresh_node = record {
  max_inbound_peers = 8;
  max_outbound_peers = 4;
  storage = tt;
  chain = first_chain;
  mempool = new_mempool default_policy;
  workshares = reset (Block.id genesis_block) no_shares;
  connected_peers = [];
  sync_queues = [];
  pending_workshares = [];
  generation = 0;
  events = [];
}

fresh_node-IsHealthy : IsHealthy lucky fresh_node
unfolding tip reset
fresh_node-IsHealthy = record {
  valid = first_chain-IsValid;
  last = genesis_block;
  last_eq = refl;
  anchor = refl;
  reached = emptied (Block.id genesis_block) no_shares;
  few = omega arith;
}

abbrev next_node : Node (Unit {0})
next_node = record fresh_node {
  chain = longer_chain;
  workshares = reset (Block.id first_block) no_shares;
  generation = 1;
  events = inventory ObjectKind.block (Block.id first_block) ∷ [];
}

-- The block extends the chain, and the node moves on to it.
submitted_test :
    submit_block memory lucky genesis_timestamp first_block fresh_node
    ≡ (next_node, ok (extended (Block.id first_block) 1))
unfolding submit_block reset paritr_node.Mempool.remove_confirmed paritr_node.Chain.append
    paritr_node.Difficulty.target_work paritr_node.Validation.Whole.validate_block
    paritr_node.Validation.Header.validate_header_context genesis_block
    paritr_node.Prelude.Order.cmp_bytes paritr_node.Types.Block.id paritr_node.Types.BlockHeader.id
    paritr_node.Crypto.sha256d paritr_node.Codec.to_le_bytes paritr_node.Crypto.domain_hash
    paritr_node.State.Ledger.root paritr_node.State.Tree.root paritr_node.OrderedMap.lookup
    paritr_node.State.Tree.empty_at paritr_node.Types.Witness.root paritr_node.Codec.put_vector
    paritr_node.Difficulty.target_to_bits paritr_node.Difficulty.next_bits
    paritr_node.Difficulty.required_bits paritr_node.Difficulty.bits_to_target
    paritr_node.Validation.Seed.median_time_past paritr_node.Validation.Whole.check_commitments
    paritr_node.Types.Block.transaction_root paritr_node.Types.Merkle.merkle_root
    paritr_node.Validation.Shares.validate_witness_shape paritr_node.Types.Witness.is_canonical
    paritr_node.Validation.Seed.randomx_seed paritr_node.Validation.Seed.verify_pow
    paritr_node.Difficulty.hash_meets_target paritr_node.Codec.from_le_bytes
    paritr_node.Validation.Whole.check_transition
    paritr_node.Validation.Apply.transition_for_candidate paritr_node.State.Ledger.mature
    paritr_node.Crypto.from_public_key paritr_node.Types.RewardClaim.id
    paritr_node.Types.RewardClaim.encode_to paritr_node.OrderedMap.insert
    paritr_node.Rewards.reward_allocation paritr_node.Params.block_subsidy
    paritr_node.State.Ledger.schedule_reward paritr_node.Validation.Shares.validate_workshares
    paritr_node.Types.Block.encode_to paritr_node.Types.Transaction.encode_to
    paritr_node.Prelude.Sort.sort_by paritr_node.Difficulty.required_target
    paritr_node.State.Tree.update paritr_node.State.Ledger.key_hash paritr_node.OrderedMap.remove
    paritr_node.Prelude.Order.cmp_numbered
submitted_test = refl

submit_block_outcomes_example :
    let (node', r) = submit_block memory lucky genesis_timestamp first_block fresh_node in
    Submitted memory lucky genesis_timestamp first_block fresh_node node' r
submit_block_outcomes_example =
    submit_block_outcomes memory lucky genesis_timestamp first_block fresh_node first_chain-IsValid

find_fork_ends_example :
    find_fork (suc max_branch) memory tt first_chain first_block [] [] ≢ panicked
find_fork_ends_example = find_fork_ends memory tt first_chain (λ hash h. cc) first_block

abbrev as_kept : Pending → List (Hash32 × (Hash32 × Workshare))
as_kept pending = pending

handle_wire-Progress_example :
    Progress lucky fresh_node
      (handle_wire memory as_kept lucky genesis_timestamp zero_hash
        (block first_block)
        fresh_node).0
handle_wire-Progress_example =
    handle_wire-Progress memory lucky genesis_timestamp as_kept zero_hash (block first_block)
      fresh_node fresh_node-IsHealthy

peer_connected-WithinLimits_example : WithinLimits (peer_connected zero_hash true fresh_node).0
peer_connected-WithinLimits_example =
    peer_connected-WithinLimits zero_hash true fresh_node
      (record { sorted = tt; inbound = omega arith; outbound = omega arith })
