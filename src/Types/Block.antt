-- ===== src/Types/Block.antt =====
-- `struct Block`. `Block::genesis` stands with the ledger, whose empty root it holds.
use paritr_node.Prelude.{ℕ, List, [], ◌∷◌, ◌++◌, map, Option, none, some, ◌==◌, if◌then◌else◌}
use paritr_node.Codec.{
  Writer, Decoder, ◌>>=◌, ◌▷◌, put_u8, put_bytes, put_vector, consensus_encode, get_u8, get_framed,
  get_vector, pure, throw, invalid_tag,
}
use paritr_node.Crypto.{Primitives, Hash32}
use paritr_node.Params.{max_block_transactions, max_transaction_bytes, max_workshare_witness_bytes}
use paritr_node.Types.Transaction
use paritr_node.Types.Transaction.{Transaction}
use paritr_node.Types.RewardClaim
use paritr_node.Types.RewardClaim.{RewardClaim}
use paritr_node.Types.BlockHeader
use paritr_node.Types.BlockHeader.{BlockHeader}
use paritr_node.Types.Witness
use paritr_node.Types.Witness.{WorkshareWitness}
use paritr_node.Types.Merkle.{merkle_root}

pub record Block : Type 0 where
  pub header : BlockHeader
  pub reward_claim : Option RewardClaim
  pub transactions : List Transaction
  pub workshare_witness : WorkshareWitness

module _ ⦃p : Primitives⦄ where
  unfoldable pub id : Block → Hash32
  id b = BlockHeader.id b.header

  abbrev pub claim_leaves : Option RewardClaim → List Hash32
  claim_leaves none = []
  claim_leaves (some claim) = RewardClaim.id claim ∷ []

  unfoldable pub transaction_root : Block → Hash32
  transaction_root b =
      merkle_root (claim_leaves b.reward_claim ++ map Transaction.id b.transactions)

  abbrev pub put_claim : Option RewardClaim → Writer → Writer
  put_claim (some claim) w = w ▷ put_u8 1 ▷ RewardClaim.encode_to claim
  put_claim none w = w ▷ put_u8 0

  unfoldable pub encode_to : Block → Writer → Writer
  encode_to b w =
      w
      ▷ BlockHeader.encode_to b.header
      ▷ put_claim b.reward_claim
      ▷ put_vector Transaction.encode_to b.transactions
      ▷ put_bytes (consensus_encode Witness.encode_to b.workshare_witness)

  unfoldable pub get_claim : ℕ → Decoder (Option RewardClaim)
  get_claim tag =
      if tag == 0
      then pure none
      else if tag == 1
      then (do claim ← RewardClaim.decode_from; pure (some claim))
      else throw (invalid_tag tag)

  unfoldable pub decode_from : Decoder Block
  unfolding get_claim
  decode_from = do
    header ← BlockHeader.decode_from
    tag ← get_u8
    reward_claim ← get_claim tag
    transactions ← get_vector max_block_transactions max_transaction_bytes Transaction.decode_from
    witness ← get_framed max_workshare_witness_bytes Witness.decode_from
    pure (record {
      header = header;
      reward_claim = reward_claim;
      transactions = transactions;
      workshare_witness = witness;
    })
