-- ===== src/Network/Frames.antt =====
-- A frame is read back as the message that was written, and every message fits a frame.
use mathlib.Core.List.{append_assoc}
use paritr_node.Prelude.{
  ℕ, ◌+◌, ◌*◌, ◌≤◌, ◌≡◌, refl, sym, List, [], ◌∷◌, ◌++◌, arith, length, length-append, All, ok,
}
use paritr_node.Prelude.Order.{bytes_eq_refl}
use paritr_node.Codec.{Bytes, Writer, to_le_bytes, consensus_encode, get_fixed}
use paritr_node.Codec.Digits.{length-to_le_bytes}
use paritr_node.Codec.Reads.{Reads, Reads-as, Reads-bind, Reads-get_fixed, Reads-reject_if}
use paritr_node.Codec.Frames.{concat_items, finish_decode-Reads, put_items-eq}
use paritr_node.Codec.Spells.{counted}
use paritr_node.Codec.Text.{IsText, put_string}
use paritr_node.Crypto.{Primitives, Hash32, put_hash}
use paritr_node.Params.{max_block_bytes}
use paritr_node.Types.Transaction
use paritr_node.Types.BlockHeader
use paritr_node.Types.BlockHeader.{BlockHeader}
use paritr_node.Types.BlockTemplate
use paritr_node.Types.Workshare
use paritr_node.Types.Block
use paritr_node.Types.Wire.Simple.{IsHash, transaction_encoded_len, IsWireHeader, length-header}
use paritr_node.Types.Wire.Nested.{workshare_encoded_len, header_bytes, header_append}
use paritr_node.Network.Hello
use paritr_node.Network.WireMessage
use paritr_node.Network.WireMessage.{
  WireMessage, hello, inventory, get_data, block, transaction, workshare, template, get_headers,
  headers, ping, pong, peers, get_kind, get_message, get_frame, encode_frame, decode_frame,
  wire_magic, max_wire_frame, max_headers, max_peer_urls,
}
use paritr_node.Network.Greeting.{hello_encoded_len}
use paritr_node.Network.Messages.{IsWire, itself, string_append, Reads-WireMessage}

counted_len : (x : Bytes) → length (counted x) ≡ length x + 4
counted_len x =
    omega (arith, length-append {0} (to_le_bytes 4 (length x)) x, length-to_le_bytes 4 (length x))

module _ ⦃p : Primitives⦄ where
  -- The sizes of the lists in a message.
  length-concat_items {ℓ} :
      {A : Type ℓ} (enc : A → Bytes) (limit : ℕ) (items : List A)
      → All (λ a. length (enc a) ≤ limit) items
      → length (concat_items enc items) ≤ length items * limit
  length-concat_items enc limit [] h = omega arith
  length-concat_items enc limit (a ∷ items) h = omega (
    arith,
    length-append {0} (enc a) (concat_items enc items),
    length-concat_items enc limit items h.1,
    h.0,
  )

  hashes-fit :
      (locator : List Hash32) → All IsHash locator → All (λ x. length (itself x) ≤ 32) locator
  unfolding itself
  hashes-fit [] h = tt
  hashes-fit (x ∷ locator) h = (omega (arith, h.0), hashes-fit locator h.1)

  headers-fit :
      (list : List BlockHeader)
      → All IsWireHeader list
      → All (λ b. length (header_bytes b) ≤ 160) list
  unfolding header_bytes
  headers-fit [] h = tt
  headers-fit (b ∷ list) h = (omega (arith, length-header b h.0), headers-fit list h.1)

  urls-fit : (list : List Bytes) → All (IsText 512) list → All (λ x. length (counted x) ≤ 516) list
  urls-fit [] h = tt
  urls-fit (x ∷ list) h = (omega (arith, counted_len x, h.0.size), urls-fit list h.1)

  -- A message is written behind what is there.
  message_append :
      (m : WireMessage) (w : Writer)
      → WireMessage.encode_to m w ≡ w ++ consensus_encode WireMessage.encode_to m
  unfolding WireMessage.encode_to itself
  message_append (hello h) w = simp append_assoc
  message_append (inventory kind id) w = simp append_assoc
  message_append (get_data kind id) w = simp append_assoc
  message_append (block b) w = simp append_assoc
  message_append (transaction t) w = simp append_assoc
  message_append (workshare s) w = simp append_assoc
  message_append (template t) w = simp append_assoc
  message_append (get_headers locator stop) w =
      simp (put_items-eq put_hash itself locator _ (λ a v. refl), append_assoc)
  message_append (headers list) w =
      simp (put_items-eq BlockHeader.encode_to header_bytes list _ header_append, append_assoc)
  message_append (ping nonce) w = simp append_assoc
  message_append (pong nonce) w = simp append_assoc
  message_append (peers list) w =
      simp (put_items-eq put_string counted list _ string_append, append_assoc)

  message_size :
      (m : WireMessage)
      → IsWire m
      → length (consensus_encode WireMessage.encode_to m) ≤ max_block_bytes + 5
  unfolding WireMessage.encode_to itself
  message_size (hello h) w =
      omega (arith, counted_len (consensus_encode Hello.encode_to h), hello_encoded_len h w)
  message_size (inventory kind id) w = omega (arith, w)
  message_size (get_data kind id) w = omega (arith, w)
  message_size (block b) w = omega (arith, counted_len (consensus_encode Block.encode_to b), w.1)
  message_size (transaction t) w =
      omega
        (arith, counted_len (consensus_encode Transaction.encode_to t), transaction_encoded_len t w)
  message_size (workshare s) w =
      omega (arith, counted_len (consensus_encode Workshare.encode_to s), workshare_encoded_len s w)
  message_size (template t) w =
      omega (arith, counted_len (consensus_encode BlockTemplate.encode_to t), w.size)
  message_size (get_headers locator stop) w =
      rw (put_items-eq put_hash itself locator _ (λ a v. refl)) (
        omega (
          arith,
          length-append {0} (to_le_bytes 4 (length locator) ++ concat_items itself locator) stop,
          length-append {0} (to_le_bytes 4 (length locator)) (concat_items itself locator),
          length-to_le_bytes 4 (length locator),
          length-concat_items itself 32 locator (hashes-fit locator w.1),
          w.0,
          w.2,
        ))
  message_size (headers list) w =
      rw (put_items-eq BlockHeader.encode_to header_bytes list _ header_append) (
        omega (
          arith,
          length-append {0} (to_le_bytes 4 (length list)) (concat_items header_bytes list),
          length-to_le_bytes 4 (length list),
          length-concat_items header_bytes 160 list (headers-fit list w.1),
          w.0,
        ))
  message_size (ping nonce) w = omega (arith, length-to_le_bytes 8 nonce)
  message_size (pong nonce) w = omega (arith, length-to_le_bytes 8 nonce)
  message_size (peers list) w = rw (put_items-eq put_string counted list _ string_append) (
      omega (
        arith,
        length-append {0} (to_le_bytes 4 (length list)) (concat_items counted list),
        length-to_le_bytes 4 (length list),
        length-concat_items counted 516 list (urls-fit list w.1),
        w.0,
      ))

  Reads-get_frame :
      (m : WireMessage)
      → IsWire m
      → Reads get_frame (wire_magic ++ consensus_encode WireMessage.encode_to m) m
  unfolding get_frame
  Reads-get_frame m w =
      Reads-bind (get_fixed 4) _ (Reads-get_fixed 4 wire_magic refl)
        (Reads-reject_if _ _ (rw (bytes_eq_refl wire_magic)) (Reads-WireMessage m w))

  pub encode_frame-eq :
      (m : WireMessage) → encode_frame m ≡ wire_magic ++ consensus_encode WireMessage.encode_to m
  unfolding encode_frame
  encode_frame-eq m = message_append m wire_magic

  -- A message of wire form fits a frame, and is decoded from its frame.
  pub frame_round_trip :
      (m : WireMessage)
      → IsWire m
      → (length (encode_frame m) ≤ max_wire_frame) × (decode_frame (encode_frame m) ≡ ok m)
  unfolding decode_frame
  frame_round_trip m w =
      let fits : length (encode_frame m) ≤ max_wire_frame =
        rw (encode_frame-eq m) (omega (arith, message_size m w)) in
      let read =
        finish_decode-Reads get_frame (encode_frame m) m
          (Reads-as (Reads-get_frame m w) (sym (encode_frame-eq m))) (omega (arith, fits)) in
      (fits, ground (arith, fits, read))
