-- ===== src/Types/Workshare.antt =====
-- `struct Workshare`.
use paritr_node.Prelude.{ℕ}
use paritr_node.Codec.{
  Writer, Decoder, ◌>>=◌, ◌▷◌, put_u16, put_u64, consensus_encode, get_uint, pure,
}
use paritr_node.Crypto.{
  Primitives, Address, Hash32, put_address, get_address, put_hash, get_hash, domain_hash, ascii,
}
use paritr_node.Types.BlockHeader
use paritr_node.Types.BlockHeader.{BlockHeader}

pub record Workshare : Type 0 where
  pub version : ℕ
  pub previous_workshare : Hash32
  pub template_id : Hash32
  pub miner : Address
  pub extranonce : ℕ
  pub candidate_header : BlockHeader

-- `Workshare::VERSION`
abbrev pub current_version : ℕ
current_version = 1

module _ ⦃p : Primitives⦄ where
  unfoldable pub encode_to : Workshare → Writer → Writer
  encode_to s w =
      w
      ▷ put_u16 s.version
      ▷ put_hash s.previous_workshare
      ▷ put_hash s.template_id
      ▷ put_address s.miner
      ▷ put_u64 s.extranonce
      ▷ BlockHeader.encode_to s.candidate_header

  unfoldable pub decode_from : Decoder Workshare
  decode_from = do
    version ← get_uint 2
    previous_workshare ← get_hash
    template_id ← get_hash
    miner ← get_address
    extranonce ← get_uint 8
    candidate_header ← BlockHeader.decode_from
    pure (record {
      version = version;
      previous_workshare = previous_workshare;
      template_id = template_id;
      miner = miner;
      extranonce = extranonce;
      candidate_header = candidate_header;
    })

  unfoldable pub id : Workshare → Hash32
  unfolding encode_to
  id s = domain_hash (ascii "PARITR-P9-WORKSHARE-v1") (consensus_encode encode_to s)
