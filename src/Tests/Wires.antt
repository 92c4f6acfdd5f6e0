-- ===== src/Tests/Wires.antt =====
-- Runs of the encodings and of the addresses.
use paritr_node.Prelude.{◌≡◌, refl, arith, length, replicate, any, leb, false, [], ◌∷◌, ok}
use paritr_node.Codec.{Bytes, IsBytes, consensus_encode, consensus_decode, max_consensus_allocation}
use paritr_node.Crypto.{HasDigests, from_public_key_hash, from_public_key, hash160}
use paritr_node.Crypto.Addresses.{IsAddress, from_public_key_hash-IsAddress}
use paritr_node.Types.Transaction
use paritr_node.Types.BlockHeader
use paritr_node.Types.Block
use paritr_node.Types.Wire.Simple.{IsWireTransaction, IsWireHeader}
use paritr_node.Types.Wire.Whole.{
  IsWireBlock, block_round_trip, block_canonical, transaction_round_trip, transaction_canonical,
}
use paritr_node.Validation.Whole.{genesis_block}
use paritr_node.Tests.Sample.{toy, alice, payment}

pub IsBytes-of_test : (xs : Bytes) → any (leb 256) xs ≡ false → IsBytes xs
IsBytes-of_test [] h = tt
IsBytes-of_test (x ∷ xs) h = (ground arith, IsBytes-of_test xs (ground arith))

pub toy-HasDigests : HasDigests toy
toy-HasDigests = record {
  width = λ x. refl;
  digits = λ x. (omega arith, IsBytes-of_test (replicate 31 0) refl);
}

alice-IsAddress : IsAddress alice
unfolding from_public_key hash160
alice-IsAddress = from_public_key_hash-IsAddress (20 ∷ replicate 19 0) toy-HasDigests refl

pub payment-IsWireTransaction : IsWireTransaction payment
payment-IsWireTransaction = record {
  version = omega arith;
  sender = alice-IsAddress;
  recipient = from_public_key_hash-IsAddress (replicate 20 9) toy-HasDigests refl;
  amount = omega arith;
  fee = omega arith;
  nonce = omega arith;
  public_key = omega arith;
  signature = omega arith;
}

abbrev payment_bytes : Bytes
payment_bytes = consensus_encode Transaction.encode_to payment

payment_bytes_test : any (leb 256) payment_bytes ≡ false
unfolding Transaction.encode_to paritr_node.Codec.to_le_bytes from_public_key
payment_bytes_test = refl

payment_bytes-IsBytes : IsBytes payment_bytes
payment_bytes-IsBytes = IsBytes-of_test payment_bytes payment_bytes_test

transaction_canonical_example : payment_bytes ≡ consensus_encode Transaction.encode_to payment
transaction_canonical_example =
    transaction_canonical payment_bytes payment payment_bytes-IsBytes
      (transaction_round_trip payment payment-IsWireTransaction)

genesis_bits : genesis_block.header.bits ≡ 520_355_839
unfolding genesis_block paritr_node.Difficulty.target_to_bits paritr_node.Codec.to_le_bytes
genesis_bits = refl

genesis-IsWireHeader : IsWireHeader genesis_block.header
unfolding genesis_block paritr_node.Crypto.domain_hash paritr_node.State.Ledger.root
    paritr_node.State.Tree.root paritr_node.OrderedMap.lookup paritr_node.State.Tree.empty_at
    paritr_node.Types.Witness.root
genesis-IsWireHeader = record {
  version = omega arith;
  protocol = omega arith;
  height = omega arith;
  previous_block = refl;
  transactions_root = refl;
  state_root = refl;
  workshare_root = refl;
  timestamp = omega arith;
  bits = omega (arith, genesis_bits);
  nonce = omega arith;
}

genesis-IsWireBlock : IsWireBlock genesis_block
unfolding genesis_block paritr_node.Types.Witness.encode_to paritr_node.Codec.put_vector
    paritr_node.Codec.to_le_bytes
genesis-IsWireBlock = record {
  header = genesis-IsWireHeader;
  reward_claim = tt;
  count = omega arith;
  transactions = tt;
  witness = record {
    version = omega arith;
    template_count = omega arith;
    templates = tt;
    workshare_count = omega arith;
    workshares = tt;
  };
  witness_size = omega arith;
}

genesis_size : length (consensus_encode Block.encode_to genesis_block) ≡ 179
unfolding Block.encode_to paritr_node.Codec.put_vector genesis_block BlockHeader.encode_to
    paritr_node.Codec.to_le_bytes paritr_node.Types.Witness.encode_to paritr_node.State.Ledger.root
    paritr_node.State.Tree.root paritr_node.OrderedMap.lookup paritr_node.State.Tree.empty_at
    paritr_node.Types.Witness.root paritr_node.Crypto.domain_hash
genesis_size = refl

block_round_trip_example :
    consensus_decode Block.decode_from (consensus_encode Block.encode_to genesis_block)
    ≡ ok genesis_block
block_round_trip_example =
    block_round_trip genesis_block genesis-IsWireBlock (omega (arith, genesis_size))

abbrev genesis_bytes : Bytes
genesis_bytes = consensus_encode Block.encode_to genesis_block

genesis_bytes_test : any (leb 256) genesis_bytes ≡ false
unfolding Block.encode_to paritr_node.Codec.put_vector genesis_block BlockHeader.encode_to
    paritr_node.Codec.to_le_bytes paritr_node.Crypto.domain_hash paritr_node.State.Ledger.root
    paritr_node.State.Tree.root paritr_node.OrderedMap.lookup paritr_node.State.Tree.empty_at
    paritr_node.Types.Witness.root paritr_node.Difficulty.target_to_bits
genesis_bytes_test = refl

genesis_bytes-IsBytes : IsBytes genesis_bytes
genesis_bytes-IsBytes = IsBytes-of_test genesis_bytes genesis_bytes_test

block_canonical_example : genesis_bytes ≡ consensus_encode Block.encode_to genesis_block
block_canonical_example =
    block_canonical genesis_bytes genesis_block genesis_bytes-IsBytes
      (block_round_trip genesis_block genesis-IsWireBlock (omega (arith, genesis_size)))
