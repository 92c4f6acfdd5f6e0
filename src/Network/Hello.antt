-- ===== src/Network/Hello.antt =====
-- `struct Hello`: the greeting that opens a connection. The crate `secp256k1` signs: a function
-- `sign` from a digest to 64 bytes stands for a secret key, and `challenge` for the random bytes.
use paritr_node.Prelude.{
  ℕ, ◌-◌, Bool, false, not, ◌||◌, Option, none, some, [], ltb, leb, ◌==◌, if◌then◌else◌, length,
  replicate,
}
use paritr_node.Prelude.Order.{bytes_eq}
use paritr_node.Codec.{
  Bytes, Writer, Decoder, ◌>>=◌, ◌▷◌, put_u16, put_u64, put_fixed, put_bytes, consensus_encode,
  get_uint, get_fixed, get_bytes, pure,
}
use paritr_node.Codec.Text.{put_string, get_string}
use paritr_node.Crypto.{Primitives, Hash32, put_hash, get_hash, domain_hash, ascii}
use paritr_node.Params
use paritr_node.Params.{protocol_version}
use paritr_node.Types.Block
use paritr_node.Validation.Whole.{genesis_block}

pub record Hello : Type 0 where
  pub protocol : ℕ
  pub chain_id : Bytes
  pub genesis : Hash32
  pub node_public_key : Bytes
  pub timestamp : ℕ
  pub challenge : Hash32
  pub response_to : Hash32
  pub height : ℕ
  pub tip : Hash32
  pub cumulative_work : Bytes
  pub listen_url : Bytes
  pub signature : Bytes

-- What a greeting reads of a `ChainSnapshot`. The source keeps the work as a hexadecimal text; here
-- it is what the crate `hex` decodes from it, if anything.
pub record ChainSnapshot : Type 0 where
  pub height : ℕ
  pub tip : Hash32
  pub cumulative_work : Option Bytes

abbrev pub abs_diff : ℕ → ℕ → ℕ
abs_diff a b = if leb b a then a - b else b - a

abbrev pub work_bytes : Option Bytes → Bytes
work_bytes none = replicate 32 0
work_bytes (some bytes) = if length bytes == 32 then bytes else replicate 32 0

module _ ⦃p : Primitives⦄ where
  unfoldable pub encode_to : Hello → Writer → Writer
  encode_to h w =
      w
      ▷ put_u16 h.protocol
      ▷ put_string h.chain_id
      ▷ put_hash h.genesis
      ▷ put_bytes h.node_public_key
      ▷ put_u64 h.timestamp
      ▷ put_hash h.challenge
      ▷ put_hash h.response_to
      ▷ put_u64 h.height
      ▷ put_hash h.tip
      ▷ put_fixed h.cumulative_work
      ▷ put_string h.listen_url
      ▷ put_bytes h.signature

  unfoldable pub decode_from : Decoder Hello
  decode_from = do
    protocol ← get_uint 2
    chain_id ← get_string 64
    genesis ← get_hash
    node_public_key ← get_bytes 33
    timestamp ← get_uint 8
    challenge ← get_hash
    response_to ← get_hash
    height ← get_uint 8
    tip ← get_hash
    cumulative_work ← get_fixed 32
    listen_url ← get_string 512
    signature ← get_bytes 64
    pure (record {
      protocol = protocol;
      chain_id = chain_id;
      genesis = genesis;
      node_public_key = node_public_key;
      timestamp = timestamp;
      challenge = challenge;
      response_to = response_to;
      height = height;
      tip = tip;
      cumulative_work = cumulative_work;
      listen_url = listen_url;
      signature = signature;
    })

  unfoldable pub signing_hash : Hello → Hash32
  unfolding encode_to
  signing_hash h =
      domain_hash (ascii "PARITR-P9-HELLO-v1")
        (consensus_encode encode_to (record h { signature = [] }))

  unfoldable pub node_id : Hello → Hash32
  node_id h = domain_hash (ascii "PARITR-P9-NODE-ID-v1") h.node_public_key

  unfoldable pub signed :
      (sign : Bytes → Bytes) (public_key : Bytes) (challenge : Hash32) (now : ℕ)
      → ChainSnapshot
      → Bytes
      → Hash32
      → Hello
  signed sign public_key challenge now snapshot listen_url response_to =
      let hello : Hello = record {
        protocol = protocol_version;
        chain_id = ascii Params.chain_id;
        genesis = Block.id genesis_block;
        node_public_key = public_key;
        timestamp = now;
        challenge = challenge;
        response_to = response_to;
        height = snapshot.height;
        tip = snapshot.tip;
        cumulative_work = work_bytes snapshot.cumulative_work;
        listen_url = listen_url;
        signature = [];
      } in
      record hello { signature = sign (signing_hash hello) }

  abbrev pub check_signature : Bytes → Option p.PublicKey → Option p.Signature → Bool
  check_signature digest none _ = false
  check_signature digest (some public) none = false
  check_signature digest (some public) (some signature) = p.verify_ecdsa digest signature public

  unfoldable pub verify : Hello → ℕ → Bool
  verify h now =
      if not (h.protocol == protocol_version)
        || not (bytes_eq h.chain_id (ascii Params.chain_id))
        || not (bytes_eq h.genesis (Block.id genesis_block))
        || not (length h.node_public_key == 33)
        || not (length h.signature == 64)
        || ltb 300 (abs_diff h.timestamp now)
      then false
      else check_signature (signing_hash h) (p.public_key_from_slice h.node_public_key)
          (p.signature_from_compact h.signature)
