-- ===== src/Tests/Sample.antt =====
-- A small world: stand-ins for the hashes and signatures, two accounts, a transaction and a block.
use paritr_node.Prelude.{
  ℕ, ◌+◌, ◌%◌, List, [], ◌∷◌, some, true, take, sum_by, replicate, Result, ok,
}
use paritr_node.Codec.{Bytes}
use paritr_node.Crypto.{Primitives, Address, from_public_key, from_public_key_hash}
use paritr_node.Params.{initial_subsidy, genesis_timestamp}
use paritr_node.Difficulty.{next_bits}
use paritr_node.Types.RewardClaim
use paritr_node.Types.Witness
use paritr_node.Types.Block
use paritr_node.Types.Merkle.{merkle_root}
use paritr_node.State.Ledger
use paritr_node.Rewards.{RewardAllocation}
use paritr_node.Validation.Apply.{transition_for_candidate}
use paritr_node.Types.Transaction.{Transaction}
use paritr_node.Types.RewardClaim.{RewardClaim}
use paritr_node.Types.Block.{Block}
use paritr_node.State.Ledger.{LedgerState, Account, empty_ledger, set_account}
use paritr_node.Validation.Seed.{PowVerifier}
use paritr_node.Validation.Whole.{genesis_block}

-- Every digest is 32 zeros, and every signature is good.
instance abbrev pub toy : Primitives
toy = record {
  PublicKey = Bytes;
  Signature = Bytes;
  sha256_digest = λ x. sum_by (λ b. b) (take 20 x) % 256 ∷ replicate 31 0;
  ripemd160_digest = λ x. take 20 x;
  public_key_from_slice = λ k. some k;
  serialize_uncompressed = λ k. k;
  signature_from_compact = λ s. some s;
  normalize_s = λ s. s;
  serialize_compact = λ s. s;
  verify_ecdsa = λ digest s k. true;
}

abbrev pub value_of : {E A : Type 0} → A → Result E A → A
value_of default (ok a) = a
value_of default _ = default

abbrev pub alice_key : Bytes
alice_key = replicate 33 1

abbrev pub alice : Address
alice = from_public_key alice_key

abbrev pub bob : Address
bob = from_public_key_hash (replicate 20 9)

abbrev pub funded : LedgerState
funded = set_account alice (record { balance = 1_000_000; nonce = 0 }) empty_ledger

abbrev pub payment : Transaction
payment = record {
  version = 1;
  sender = alice;
  recipient = bob;
  amount = 100;
  fee = 10;
  nonce = 0;
  public_key = alice_key;
  signature = replicate 64 7;
}

abbrev pub genesis_history : List Block
genesis_history = genesis_block ∷ []

abbrev pub claim : RewardClaim
claim = record {
  version = 1;
  height = 1;
  finder = bob;
  amount = initial_subsidy + 10;
  extranonce = 0;
}

abbrev pub lucky : PowVerifier
lucky seed input = some (replicate 32 0)

-- The block after genesis, without transactions.
abbrev pub first_claim : RewardClaim
first_claim = record {
  version = 1;
  height = 1;
  finder = bob;
  amount = initial_subsidy;
  extranonce = 0;
}

abbrev pub nothing_done : LedgerState × (RewardAllocation × ℕ)
nothing_done = (empty_ledger, (record { finder_amount = 0; workshare_rewards = [] }, 0))

abbrev pub first_state : LedgerState
first_state =
    (value_of nothing_done
      (transition_for_candidate 1 first_claim [] genesis_history empty_ledger)).0

abbrev pub first_block : Block
first_block = record {
  header = record {
    version = 3;
    protocol = 9;
    height = 1;
    previous_block = Block.id genesis_block;
    transactions_root = merkle_root (RewardClaim.id first_claim ∷ []);
    state_root = Ledger.root first_state;
    workshare_root = Witness.root Witness.empty;
    timestamp = genesis_timestamp + 1;
    bits = next_bits genesis_history;
    nonce = 0;
  };
  reward_claim = some first_claim;
  transactions = [];
  workshare_witness = Witness.empty;
}
