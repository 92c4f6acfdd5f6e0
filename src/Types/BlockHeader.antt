-- ===== src/Types/BlockHeader.antt =====
-- `struct BlockHeader`: 160 bytes on the wire.
use paritr_node.Prelude.{ℕ}
use paritr_node.Codec.{
  Writer, Decoder, ◌>>=◌, ◌▷◌, put_u16, put_u32, put_u64, consensus_encode, get_uint, pure,
}
use paritr_node.Crypto.{Primitives, Hash32, put_hash, get_hash, sha256d}

pub record BlockHeader : Type 0 where
  pub version : ℕ
  pub protocol : ℕ
  pub height : ℕ
  pub previous_block : Hash32
  pub transactions_root : Hash32
  pub state_root : Hash32
  pub workshare_root : Hash32
  pub timestamp : ℕ
  pub bits : ℕ
  pub nonce : ℕ

-- `BlockHeader::ENCODED_LEN`
abbrev pub encoded_len : ℕ
encoded_len = 160

module _ ⦃p : Primitives⦄ where
  unfoldable pub encode_to : BlockHeader → Writer → Writer
  encode_to h w =
      w
      ▷ put_u16 h.version
      ▷ put_u16 h.protocol
      ▷ put_u64 h.height
      ▷ put_hash h.previous_block
      ▷ put_hash h.transactions_root
      ▷ put_hash h.state_root
      ▷ put_hash h.workshare_root
      ▷ put_u64 h.timestamp
      ▷ put_u32 h.bits
      ▷ put_u64 h.nonce

  unfoldable pub decode_from : Decoder BlockHeader
  decode_from = do
    version ← get_uint 2
    protocol ← get_uint 2
    height ← get_uint 8
    previous_block ← get_hash
    transactions_root ← get_hash
    state_root ← get_hash
    workshare_root ← get_hash
    timestamp ← get_uint 8
    bits ← get_uint 4
    nonce ← get_uint 8
    pure (record {
      version = version;
      protocol = protocol;
      height = height;
      previous_block = previous_block;
      transactions_root = transactions_root;
      state_root = state_root;
      workshare_root = workshare_root;
      timestamp = timestamp;
      bits = bits;
      nonce = nonce;
    })

  unfoldable pub id : BlockHeader → Hash32
  unfolding encode_to
  id h = sha256d (consensus_encode encode_to h)
