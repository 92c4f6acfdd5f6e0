-- ===== src/Types/Transaction.antt =====
-- `struct Transaction`. `u16`, `u64` and the like are numbers; the byte vectors are lists.
use paritr_node.Prelude.{ℕ, [], ltb, length}
use paritr_node.Codec.{
  Bytes, Writer, Decoder, ◌>>=◌, ◌>>◌, ◌▷◌, put_u16, put_u64, put_bytes, consensus_encode, get_uint,
  get_bytes, reject_if, pure, limit_exceeded,
}
use paritr_node.Crypto.{Primitives, Address, Hash32, put_address, get_address, domain_hash, ascii}
use paritr_node.Params.{max_transaction_bytes, chain_id}

pub record Transaction : Type 0 where
  pub version : ℕ
  pub sender : Address
  pub recipient : Address
  pub amount : ℕ
  pub fee : ℕ
  pub nonce : ℕ
  pub public_key : Bytes
  pub signature : Bytes

-- `Transaction::VERSION`
abbrev pub current_version : ℕ
current_version = 1

module _ ⦃p : Primitives⦄ where
  unfoldable pub signing_bytes : Transaction → Bytes
  signing_bytes t =
      []
      ▷ put_bytes (ascii chain_id)
      ▷ put_u16 t.version
      ▷ put_address t.sender
      ▷ put_address t.recipient
      ▷ put_u64 t.amount
      ▷ put_u64 t.fee
      ▷ put_u64 t.nonce

  unfoldable pub encode_to : Transaction → Writer → Writer
  encode_to t w =
      w
      ▷ put_u16 t.version
      ▷ put_address t.sender
      ▷ put_address t.recipient
      ▷ put_u64 t.amount
      ▷ put_u64 t.fee
      ▷ put_u64 t.nonce
      ▷ put_bytes t.public_key
      ▷ put_bytes t.signature

  -- The encoding's length, which `decode_from` and the validation of transactions both bound.
  abbrev pub encoded_len : Transaction → ℕ
  encoded_len t = length (consensus_encode encode_to t)

  unfoldable pub decode_from : Decoder Transaction
  unfolding encode_to
  decode_from = do
    version ← get_uint 2
    sender ← get_address
    recipient ← get_address
    amount ← get_uint 8
    fee ← get_uint 8
    nonce ← get_uint 8
    public_key ← get_bytes 65
    signature ← get_bytes 64
    let value : Transaction = record {
      version = version;
      sender = sender;
      recipient = recipient;
      amount = amount;
      fee = fee;
      nonce = nonce;
      public_key = public_key;
      signature = signature;
    }
    reject_if (ltb max_transaction_bytes (encoded_len value))
        (limit_exceeded (encoded_len value) max_transaction_bytes)
    pure value

  unfoldable pub signature_hash : Transaction → Hash32
  unfolding signing_bytes
  signature_hash t = domain_hash (ascii "PARITR-P9-TX-SIGN-v1") (signing_bytes t)

  unfoldable pub id : Transaction → Hash32
  unfolding encode_to
  id t = domain_hash (ascii "PARITR-P9-TXID-v1") (consensus_encode encode_to t)
