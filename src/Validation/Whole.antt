-- ===== src/Validation/Whole.antt =====
-- `Block::genesis`, `validate_genesis` and `validate_block`.
use paritr_node.Prelude.{
  ℕ, ◌||◌, not, none, List, [], length, get_last?, ◌==◌, ltb, Result, ok, ◌>>=◌, ◌>>◌, ok_or,
  fail_if, if◌then◌else◌,
}
use paritr_node.Prelude.Order.{bytes_eq}
use paritr_node.Codec.{consensus_encode}
use paritr_node.Crypto.{Primitives, zero_hash, domain_hash, ascii}
use paritr_node.Errors.{
  ConsensusError, invalid_genesis, wrong_parent, size_limit, transaction_root_mismatch,
  workshare_root_mismatch, invalid_target, reward_mismatch, state_root_mismatch,
}
use paritr_node.Params.{
  header_version, protocol_version, genesis_timestamp, initial_target, max_block_bytes,
  max_block_transactions,
}
use paritr_node.Difficulty.{bits_to_target, target_to_bits}
use paritr_node.Types.RewardClaim
use paritr_node.Types.RewardClaim.{RewardClaim}
use paritr_node.Types.Witness
use paritr_node.Types.Witness.{WorkshareWitness}
use paritr_node.Types.Block
use paritr_node.Types.Block.{Block}
use paritr_node.Types.Equality.{same_block}
use paritr_node.State.Ledger
use paritr_node.State.Ledger.{LedgerState, empty_ledger}
use paritr_node.Validation.Apply.{transition_for_candidate}
use paritr_node.Validation.Seed.{PowVerifier, randomx_seed, verify_pow}
use paritr_node.Validation.Header.{validate_header_context}
use paritr_node.Validation.Shares.{validate_witness_shape, validate_workshares}

module _ ⦃p : Primitives⦄ where
  unfoldable pub genesis_block : Block
  genesis_block = record {
    header = record {
      version = header_version;
      protocol = protocol_version;
      height = 0;
      previous_block = zero_hash;
      transactions_root =
          domain_hash (ascii "PARITR-P9-GENESIS-v1")
            (ascii "Paritr Mainnet Protocol 9 - launch-anchored ASERT - 4.0.1-rc.3");
      state_root = Ledger.root empty_ledger;
      workshare_root = Witness.root Witness.empty;
      timestamp = genesis_timestamp;
      bits = target_to_bits initial_target;
      nonce = 0;
    };
    reward_claim = none;
    transactions = [];
    workshare_witness = Witness.empty;
  }

  unfoldable pub validate_genesis : Block → Result ConsensusError (Unit {0})
  validate_genesis block = fail_if (not (same_block block genesis_block)) invalid_genesis

  -- The checks before the transactions: sizes, commitments and the proof of work.
  unfoldable pub check_commitments :
      Block → List Block → PowVerifier → Result ConsensusError (Unit {0})
  check_commitments block parent_history pow = do
    fail_if
        (ltb max_block_bytes (length (consensus_encode Block.encode_to block))
          || ltb max_block_transactions (length block.transactions))
        size_limit
    fail_if (not (bytes_eq (Block.transaction_root block) block.header.transactions_root))
        transaction_root_mismatch
    validate_witness_shape block.workshare_witness
    fail_if (not (bytes_eq (Witness.root block.workshare_witness) block.header.workshare_root))
        workshare_root_mismatch
    seed ← randomx_seed parent_history block.header.height
    target ← ok_or (bits_to_target block.header.bits) invalid_target
    verify_pow pow seed block.header target

  -- The state after the block, checked against the claim and the header.
  unfoldable pub check_transition :
      Block → List Block → LedgerState → Result ConsensusError LedgerState
  check_transition block parent_history parent_state = do
    claim ← ok_or block.reward_claim reward_mismatch
    fail_if
        (not (claim.version == RewardClaim.current_version)
          || not (claim.height == block.header.height))
        reward_mismatch
    (post_state, (allocation, fees)) ←
        transition_for_candidate block.header.height claim block.transactions parent_history
          parent_state
    fail_if (not (claim.amount == allocation.finder_amount)) reward_mismatch
    fail_if (not (bytes_eq (Ledger.root post_state) block.header.state_root)) state_root_mismatch
    ok post_state

  unfoldable pub validate_block :
      Block → List Block → LedgerState → PowVerifier → ℕ → Result ConsensusError LedgerState
  unfolding validate_genesis check_commitments check_transition
  validate_block block parent_history parent_state pow now =
      if block.header.height == 0 then (do validate_genesis block; ok empty_ledger) else do
        parent ← ok_or (get_last? parent_history) wrong_parent
        validate_header_context block.header parent parent_history now
        check_commitments block parent_history pow
        post_state ← check_transition block parent_history parent_state
        validate_workshares block.workshare_witness parent_history parent_state pow
            block.header.timestamp
        ok post_state
