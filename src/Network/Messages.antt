-- ===== src/Network/Messages.antt =====
-- Every message of wire form is read back from its bytes.
use mathlib.Core.List.{append_assoc, append-nil}
use paritr_node.Prelude.{◌≤◌, ◌<◌, ◌≡◌, refl, List, [], ◌∷◌, ◌++◌, arith, length, All, u64_mod, ok}
use paritr_node.Codec.{Bytes, to_le_bytes, consensus_encode, get_u8, lift_result}
use paritr_node.Codec.Reads.{
  Reads, Reads-as, Reads-bind, Reads-bind_nil, Reads-pure, Reads-get_u8, Reads-get_uint,
  Reads-get_fixed, Reads-vector_len,
}
use paritr_node.Codec.Frames.{put_items-eq, Reads-get_framed, Reads-get_many}
use paritr_node.Codec.Spells.{counted}
use paritr_node.Codec.Text.{IsText, put_string}
use paritr_node.Crypto.{Primitives, Hash32, get_hash, put_hash}
use paritr_node.Params.{max_block_bytes, max_template_bytes, max_transaction_bytes}
use paritr_node.Types.Transaction
use paritr_node.Types.BlockHeader
use paritr_node.Types.BlockHeader.{BlockHeader}
use paritr_node.Types.BlockTemplate
use paritr_node.Types.Workshare
use paritr_node.Types.Block
use paritr_node.Types.Wire.Simple.{
  IsHash, IsWireTransaction, Reads-Transaction, transaction_encoded_len, IsWireHeader,
  Reads-BlockHeader,
}
use paritr_node.Types.Wire.Nested.{
  IsWireTemplate, Reads-BlockTemplate, IsWireWorkshare, Reads-Workshare, workshare_encoded_len,
  header_bytes, header_append,
}
use paritr_node.Types.Wire.Whole.{IsWireBlock, Reads-Block}
use paritr_node.Network.ObjectKind
use paritr_node.Network.ObjectKind.{ObjectKind, to_u8}
use paritr_node.Network.Hello
use paritr_node.Network.WireMessage
use paritr_node.Network.WireMessage.{
  WireMessage, hello, inventory, get_data, block, transaction, workshare, template, get_headers,
  headers, ping, pong, peers, get_kind, get_message, get_frame, encode_frame, decode_frame,
  wire_magic, max_wire_frame, max_headers, max_peer_urls,
}
use paritr_node.Network.Greeting.{IsWireHello, Reads-Hello, hello_encoded_len}
use paritr_node.Network.Urls.{IsFresh, Reads-get_peers}

try_from-to_u8 : (kind : ObjectKind) → ObjectKind.try_from (to_u8 kind) ≡ ok kind
unfolding ObjectKind.try_from
try_from-to_u8 ObjectKind.block = refl
try_from-to_u8 ObjectKind.transaction = refl
try_from-to_u8 ObjectKind.workshare = refl
try_from-to_u8 ObjectKind.template = refl

Reads-get_kind : (kind : ObjectKind) → Reads get_kind (to_u8 kind ∷ []) kind
unfolding get_kind
Reads-get_kind kind =
    Reads-bind_nil get_u8 (λ tag. lift_result (ObjectKind.try_from tag)) (Reads-get_u8 (to_u8 kind))
      (rw (try_from-to_u8 kind) (Reads-pure kind))

pub string_append : (text w : Bytes) → put_string text w ≡ w ++ counted text
string_append text w = append_assoc w (to_le_bytes 4 (length text)) text

module _ ⦃p : Primitives⦄ where
  -- A message of the kinds and sizes that a decoder lets through.
  abbrev pub IsWire : WireMessage → Type 0
  IsWire (hello h) = IsWireHello h
  IsWire (inventory kind id) = IsHash id
  IsWire (get_data kind id) = IsHash id
  IsWire (block b) = IsWireBlock b × (length (consensus_encode Block.encode_to b) ≤ max_block_bytes)
  IsWire (transaction t) = IsWireTransaction t
  IsWire (workshare s) = IsWireWorkshare s
  IsWire (template t) = IsWireTemplate t
  IsWire (get_headers locator stop) = (length locator ≤ 64) × All IsHash locator × IsHash stop
  IsWire (headers list) = (length list ≤ max_headers) × All IsWireHeader list
  IsWire (ping nonce) = nonce < u64_mod
  IsWire (pong nonce) = nonce < u64_mod
  IsWire (peers list) = (length list ≤ max_peer_urls) × All (IsText 512) list × IsFresh [] list

  unfoldable pub itself : Hash32 → Bytes
  itself x = x

  locator-Reads :
      (locator : List Hash32) → All IsHash locator → All (λ x. Reads get_hash (itself x) x) locator
  unfolding itself
  locator-Reads [] h = tt
  locator-Reads (x ∷ locator) h = (Reads-get_fixed 32 x h.0, locator-Reads locator h.1)

  headers-Reads :
      (list : List BlockHeader)
      → All IsWireHeader list
      → All (λ b. Reads BlockHeader.decode_from (header_bytes b) b) list
  unfolding header_bytes
  headers-Reads [] h = tt
  headers-Reads (b ∷ list) h = (Reads-BlockHeader b h.0, headers-Reads list h.1)

  pub Reads-WireMessage :
      (m : WireMessage)
      → IsWire m
      → Reads WireMessage.decode_from (consensus_encode WireMessage.encode_to m) m
  unfolding WireMessage.decode_from WireMessage.encode_to get_message itself
  Reads-WireMessage (hello h) w =
      Reads-as
        (Reads-bind _ _ (Reads-get_u8 1) (
          Reads-bind _ _
            (Reads-get_framed 2_048 Hello.decode_from (consensus_encode Hello.encode_to) h
              (Reads-Hello h w) (hello_encoded_len h w) (omega (arith, hello_encoded_len h w)))
            (Reads-pure (hello h))))
        (simp (append_assoc, append-nil))
  Reads-WireMessage (inventory kind id) w =
      Reads-as
        (Reads-bind _ _ (Reads-get_u8 2) (
          Reads-bind _ _ (Reads-get_kind kind)
            (Reads-bind _ _ (Reads-get_fixed 32 id w) (Reads-pure (inventory kind id)))))
        (simp (append_assoc, append-nil))
  Reads-WireMessage (get_data kind id) w =
      Reads-as
        (Reads-bind _ _ (Reads-get_u8 3) (
          Reads-bind _ _ (Reads-get_kind kind)
            (Reads-bind _ _ (Reads-get_fixed 32 id w) (Reads-pure (get_data kind id)))))
        (simp (append_assoc, append-nil))
  Reads-WireMessage (block b) w =
      Reads-as
        (Reads-bind _ _ (Reads-get_u8 4) (
          Reads-bind _ _
            (Reads-get_framed max_block_bytes Block.decode_from (consensus_encode Block.encode_to) b
              (Reads-Block b w.0) w.1 w.1)
            (Reads-pure (block b))))
        (simp (append_assoc, append-nil))
  Reads-WireMessage (transaction t) w =
      Reads-as
        (Reads-bind _ _ (Reads-get_u8 5) (
          Reads-bind _ _
            (Reads-get_framed max_transaction_bytes Transaction.decode_from
              (consensus_encode Transaction.encode_to) t (Reads-Transaction t w)
              (transaction_encoded_len t w) (omega (arith, transaction_encoded_len t w)))
            (Reads-pure (transaction t))))
        (simp (append_assoc, append-nil))
  Reads-WireMessage (workshare s) w =
      Reads-as
        (Reads-bind _ _ (Reads-get_u8 6) (
          Reads-bind _ _
            (Reads-get_framed 512 Workshare.decode_from (consensus_encode Workshare.encode_to) s
              (Reads-Workshare s w) (workshare_encoded_len s w)
              (omega (arith, workshare_encoded_len s w)))
            (Reads-pure (workshare s))))
        (simp (append_assoc, append-nil))
  Reads-WireMessage (template t) w =
      Reads-as
        (Reads-bind _ _ (Reads-get_u8 7) (
          Reads-bind _ _
            (Reads-get_framed max_template_bytes BlockTemplate.decode_from
              (consensus_encode BlockTemplate.encode_to) t (Reads-BlockTemplate t w) w.size
              (omega (arith, w.size)))
            (Reads-pure (template t))))
        (simp (append_assoc, append-nil))
  Reads-WireMessage (get_headers locator stop) w =
      Reads-as
        (Reads-bind _ _ (Reads-get_u8 8) (
          Reads-bind _ _ (Reads-vector_len 64 (length locator) w.0 (omega (arith, w.0))) (
            Reads-bind _ _ (Reads-get_many get_hash itself locator (locator-Reads locator w.1)) (
              Reads-bind _ _ (Reads-get_fixed 32 stop w.2)
                (Reads-pure (get_headers locator stop))))))
        (simp (put_items-eq put_hash itself locator _ (λ a v. refl), append_assoc, append-nil))
  Reads-WireMessage (headers list) w =
      Reads-as
        (Reads-bind _ _ (Reads-get_u8 9) (
          Reads-bind _ _ (Reads-vector_len max_headers (length list) w.0 (omega (arith, w.0))) (
            Reads-bind _ _
              (Reads-get_many BlockHeader.decode_from header_bytes list (headers-Reads list w.1))
              (Reads-pure (headers list)))))
        (simp (
          put_items-eq BlockHeader.encode_to header_bytes list _ header_append,
          append_assoc,
          append-nil,
        ))
  Reads-WireMessage (ping nonce) w =
      Reads-as
        (Reads-bind _ _ (Reads-get_u8 10)
          (Reads-bind _ _ (Reads-get_uint 8 nonce w) (Reads-pure (ping nonce))))
        (simp (append_assoc, append-nil))
  Reads-WireMessage (pong nonce) w =
      Reads-as
        (Reads-bind _ _ (Reads-get_u8 11)
          (Reads-bind _ _ (Reads-get_uint 8 nonce w) (Reads-pure (pong nonce))))
        (simp (append_assoc, append-nil))
  Reads-WireMessage (peers list) w =
      Reads-as
        (Reads-bind _ _ (Reads-get_u8 12) (
          Reads-bind _ _ (Reads-vector_len max_peer_urls (length list) w.0 (omega (arith, w.0)))
            (Reads-bind _ _ (Reads-get_peers [] list w.1 w.2) (Reads-pure (peers list)))))
        (simp (put_items-eq put_string counted list _ string_append, append_assoc, append-nil))
