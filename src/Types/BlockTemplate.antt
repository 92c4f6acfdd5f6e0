-- ===== src/Types/BlockTemplate.antt =====
-- `struct BlockTemplate`.
use paritr_node.Prelude.{ℕ, List}
use paritr_node.Codec.{
  Writer, Decoder, ◌>>=◌, ◌▷◌, put_u16, put_u64, put_vector, consensus_encode, get_uint, get_vector,
  pure,
}
use paritr_node.Crypto.{Primitives, Hash32, put_hash, get_hash, domain_hash, ascii}
use paritr_node.Params.{max_block_transactions, max_transaction_bytes}
use paritr_node.Types.Transaction
use paritr_node.Types.Transaction.{Transaction}

pub record BlockTemplate : Type 0 where
  pub version : ℕ
  pub height : ℕ
  pub parent : Hash32
  pub transactions : List Transaction

-- `BlockTemplate::VERSION`
abbrev pub current_version : ℕ
current_version = 1

module _ ⦃p : Primitives⦄ where
  unfoldable pub encode_to : BlockTemplate → Writer → Writer
  encode_to t w =
      w
      ▷ put_u16 t.version
      ▷ put_u64 t.height
      ▷ put_hash t.parent
      ▷ put_vector Transaction.encode_to t.transactions

  unfoldable pub decode_from : Decoder BlockTemplate
  decode_from = do
    version ← get_uint 2
    height ← get_uint 8
    parent ← get_hash
    transactions ← get_vector max_block_transactions max_transaction_bytes Transaction.decode_from
    pure (record {
      version = version;
      height = height;
      parent = parent;
      transactions = transactions;
    })

  unfoldable pub id : BlockTemplate → Hash32
  unfolding encode_to
  id t = domain_hash (ascii "PARITR-P9-TEMPLATE-v1") (consensus_encode encode_to t)
