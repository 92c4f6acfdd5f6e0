-- ===== src/Network/WireMessage.antt =====
-- `enum WireMessage`, its frames and their limits.
use paritr_node.Prelude.{
  ℕ, zero, suc, ◌+◌, ◌*◌, not, List, [], ◌∷◌, ltb, ◌==◌, if◌then◌else◌, any, length, Result, err,
}
use paritr_node.Prelude.Order.{bytes_eq}
use paritr_node.Codec.{
  Bytes, Writer, Decoder, CodecError, ◌>>=◌, ◌>>◌, ◌▷◌, put_u8, put_u32, put_u64, put_fixed,
  put_bytes, put_items, consensus_encode, get_u8, get_uint, get_fixed, get_framed, get_many,
  vector_len, pure, throw, reject_if, lift_result, new_reader, finish_decode, invalid_tag,
  limit_exceeded, non_canonical,
}
use paritr_node.Codec.Text.{put_string, get_string}
use paritr_node.Crypto.{Primitives, Hash32, put_hash, get_hash, ascii}
use paritr_node.Params.{max_block_bytes, max_template_bytes, max_transaction_bytes}
use paritr_node.Types.Transaction
use paritr_node.Types.Transaction.{Transaction}
use paritr_node.Types.BlockHeader
use paritr_node.Types.BlockHeader.{BlockHeader}
use paritr_node.Types.BlockTemplate
use paritr_node.Types.BlockTemplate.{BlockTemplate}
use paritr_node.Types.Workshare
use paritr_node.Types.Workshare.{Workshare}
use paritr_node.Types.Block
use paritr_node.Types.Block.{Block}
use paritr_node.Network.ObjectKind
use paritr_node.Network.ObjectKind.{ObjectKind, to_u8}
use paritr_node.Network.Hello
use paritr_node.Network.Hello.{Hello}

abbrev pub wire_magic : Bytes
wire_magic = ascii "PRT9"

abbrev pub max_wire_frame : ℕ
max_wire_frame = max_block_bytes + 64 * 1024

abbrev pub max_peer_urls : ℕ
max_peer_urls = 256

abbrev pub max_headers : ℕ
max_headers = 2_000

pub data WireMessage : Type 0 where
  hello : Hello → WireMessage
  inventory : ObjectKind → Hash32 → WireMessage
  get_data : ObjectKind → Hash32 → WireMessage
  block : Block → WireMessage
  transaction : Transaction → WireMessage
  workshare : Workshare → WireMessage
  template : BlockTemplate → WireMessage
  get_headers : List Hash32 → Hash32 → WireMessage
  headers : List BlockHeader → WireMessage
  ping : ℕ → WireMessage
  pong : ℕ → WireMessage
  peers : List Bytes → WireMessage

-- The loop over a `BTreeSet` of the texts already seen.
unfoldable pub get_peers : ℕ → List Bytes → Decoder (List Bytes)
get_peers zero unique = pure []
get_peers (suc n) unique = do
  peer ← get_string 512
  reject_if (any (bytes_eq peer) unique) (non_canonical "duplicate peer URL")
  rest ← get_peers n (peer ∷ unique)
  pure (peer ∷ rest)

unfoldable pub get_kind : Decoder ObjectKind
get_kind = do tag ← get_u8; lift_result (ObjectKind.try_from tag)

module _ ⦃p : Primitives⦄ where
  unfoldable pub encode_to : WireMessage → Writer → Writer
  encode_to (hello value) w = w ▷ put_u8 1 ▷ put_bytes (consensus_encode Hello.encode_to value)
  encode_to (inventory kind id) w = w ▷ put_u8 2 ▷ put_u8 (to_u8 kind) ▷ put_hash id
  encode_to (get_data kind id) w = w ▷ put_u8 3 ▷ put_u8 (to_u8 kind) ▷ put_hash id
  encode_to (block value) w = w ▷ put_u8 4 ▷ put_bytes (consensus_encode Block.encode_to value)
  encode_to (transaction value) w =
      w ▷ put_u8 5 ▷ put_bytes (consensus_encode Transaction.encode_to value)
  encode_to (workshare value) w =
      w ▷ put_u8 6 ▷ put_bytes (consensus_encode Workshare.encode_to value)
  encode_to (template value) w =
      w ▷ put_u8 7 ▷ put_bytes (consensus_encode BlockTemplate.encode_to value)
  encode_to (get_headers locator stop) w =
      w ▷ put_u8 8 ▷ put_u32 (length locator) ▷ put_items put_hash locator ▷ put_hash stop
  encode_to (headers list) w =
      w ▷ put_u8 9 ▷ put_u32 (length list) ▷ put_items BlockHeader.encode_to list
  encode_to (ping nonce) w = w ▷ put_u8 10 ▷ put_u64 nonce
  encode_to (pong nonce) w = w ▷ put_u8 11 ▷ put_u64 nonce
  encode_to (peers list) w = w ▷ put_u8 12 ▷ put_u32 (length list) ▷ put_items put_string list

  unfoldable pub get_message : ℕ → Decoder WireMessage
  get_message tag =
      if tag == 1
      then (do value ← get_framed 2_048 Hello.decode_from; pure (hello value))
      else if tag == 2
      then (do kind ← get_kind; id ← get_hash; pure (inventory kind id))
      else if tag == 3
      then (do kind ← get_kind; id ← get_hash; pure (get_data kind id))
      else if tag == 4
      then (do value ← get_framed max_block_bytes Block.decode_from; pure (block value))
      else if tag == 5
      then (do
        value ← get_framed max_transaction_bytes Transaction.decode_from
        pure (transaction value))
      else if tag == 6
      then (do value ← get_framed 512 Workshare.decode_from; pure (workshare value))
      else if tag == 7
      then (do
        value ← get_framed max_template_bytes BlockTemplate.decode_from
        pure (template value))
      else if tag == 8
      then (do
        count ← vector_len 64
        locator ← get_many count get_hash
        stop ← get_hash
        pure (get_headers locator stop))
      else if tag == 9
      then (do
        count ← vector_len max_headers
        list ← get_many count BlockHeader.decode_from
        pure (headers list))
      else if tag == 10
      then (do nonce ← get_uint 8; pure (ping nonce))
      else if tag == 11
      then (do nonce ← get_uint 8; pure (pong nonce))
      else if tag == 12
      then (do count ← vector_len max_peer_urls; list ← get_peers count []; pure (peers list))
      else throw (invalid_tag tag)

  unfoldable pub decode_from : Decoder WireMessage
  decode_from = do tag ← get_u8; get_message tag

  unfoldable pub encode_frame : WireMessage → Bytes
  unfolding encode_to
  encode_frame m = [] ▷ put_fixed wire_magic ▷ encode_to m

  unfoldable pub get_frame : Decoder WireMessage
  get_frame = do
    magic ← get_fixed 4
    reject_if (not (bytes_eq magic wire_magic)) (non_canonical "wrong P2P magic")
    decode_from

  unfoldable pub decode_frame : Bytes → Result CodecError WireMessage
  unfolding get_frame
  decode_frame bytes =
      if ltb max_wire_frame (length bytes)
      then err (limit_exceeded (length bytes) max_wire_frame)
      else finish_decode (get_frame (new_reader bytes))
