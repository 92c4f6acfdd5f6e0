-- ===== src/Errors.antt =====
-- `enum ConsensusError` of src/consensus/validation.rs. The text of an unavailable RandomX library or
-- of a storage fault is left out.
use paritr_node.Codec.{CodecError}
use paritr_node.Crypto.{CryptoError}

pub data ConsensusError : Type 0 where
  codec : CodecError → ConsensusError
  crypto : CryptoError → ConsensusError
  invalid_genesis unsupported_version wrong_parent wrong_height : ConsensusError
  invalid_timestamp future_timestamp invalid_target invalid_proof_of_work : ConsensusError
  pow_unavailable size_limit transaction_root_mismatch state_root_mismatch : ConsensusError
  workshare_root_mismatch non_canonical_witness invalid_workshare_chain : ConsensusError
  duplicate_transaction invalid_transaction invalid_nonce insufficient_balance : ConsensusError
  money_range reward_mismatch arithmetic_overflow different_genesis : ConsensusError
  insufficient_work storage_invariant : ConsensusError
