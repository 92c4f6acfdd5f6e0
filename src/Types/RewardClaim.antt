-- ===== src/Types/RewardClaim.antt =====
-- `struct RewardClaim`.
use paritr_node.Prelude.{ℕ}
use paritr_node.Codec.{
  Writer, Decoder, ◌>>=◌, ◌▷◌, put_u16, put_u64, consensus_encode, get_uint, pure,
}
use paritr_node.Crypto.{Primitives, Address, Hash32, put_address, get_address, domain_hash, ascii}

pub record RewardClaim : Type 0 where
  pub version : ℕ
  pub height : ℕ
  pub finder : Address
  pub amount : ℕ
  pub extranonce : ℕ

-- `RewardClaim::VERSION`
abbrev pub current_version : ℕ
current_version = 1

module _ ⦃p : Primitives⦄ where
  unfoldable pub encode_to : RewardClaim → Writer → Writer
  encode_to c w =
      w
      ▷ put_u16 c.version
      ▷ put_u64 c.height
      ▷ put_address c.finder
      ▷ put_u64 c.amount
      ▷ put_u64 c.extranonce

  unfoldable pub decode_from : Decoder RewardClaim
  decode_from = do
    version ← get_uint 2
    height ← get_uint 8
    finder ← get_address
    amount ← get_uint 8
    extranonce ← get_uint 8
    pure (record {
      version = version;
      height = height;
      finder = finder;
      amount = amount;
      extranonce = extranonce;
    })

  unfoldable pub id : RewardClaim → Hash32
  unfolding encode_to
  id c = domain_hash (ascii "PARITR-P9-REWARD-CLAIM-v1") (consensus_encode encode_to c)
