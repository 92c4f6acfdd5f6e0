-- ===== src/Network/Greeting.antt =====
-- `Hello` on the wire.
use mathlib.Core.List.{append_assoc, append-nil}
use paritr_node.Prelude.{◌≤◌, ◌<◌, [], arith, length, length-append, u16_mod, u64_mod}
use paritr_node.Codec.{consensus_encode}
use paritr_node.Codec.Digits.{length-to_le_bytes}
use paritr_node.Codec.Reads.{
  Reads, Reads-as, Reads-bind, Reads-pure, Reads-get_uint, Reads-get_fixed, Reads-get_bytes,
}
use paritr_node.Codec.Spells.{
  Spells, Spells-bind, Spells-pure, Spells-get_uint, Spells-get_fixed, Spells-get_bytes,
}
use paritr_node.Codec.Text.{IsText, Reads-get_string, Spells-get_string}
use paritr_node.Crypto.{Primitives}
use paritr_node.Types.Wire.Simple.{IsHash}
use paritr_node.Network.Hello
use paritr_node.Network.Hello.{Hello}

module _ ⦃p : Primitives⦄ where
  -- A greeting that a `Hello` can hold and a decoder lets through.
  pub record IsWireHello (h : Hello) : Type 0 where
    pub protocol : h.protocol < u16_mod
    pub chain_id : IsText 64 h.chain_id
    pub genesis : IsHash h.genesis
    pub node_public_key : length h.node_public_key ≤ 33
    pub timestamp : h.timestamp < u64_mod
    pub challenge : IsHash h.challenge
    pub response_to : IsHash h.response_to
    pub height : h.height < u64_mod
    pub tip : IsHash h.tip
    pub cumulative_work : IsHash h.cumulative_work
    pub listen_url : IsText 512 h.listen_url
    pub signature : length h.signature ≤ 64

  pub hello_encoded_len :
      (h : Hello) → IsWireHello h → length (consensus_encode Hello.encode_to h) ≤ 2_048
  unfolding Hello.encode_to
  hello_encoded_len h w =
      omega (arith, length-append {0}, length-to_le_bytes, w.chain_id.size, w.listen_url.size)

  pub Reads-Hello :
      (h : Hello) → IsWireHello h → Reads Hello.decode_from (consensus_encode Hello.encode_to h) h
  unfolding Hello.decode_from Hello.encode_to
  Reads-Hello h w =
      Reads-as
        (Reads-bind _ _ (Reads-get_uint 2 h.protocol w.protocol) (
          Reads-bind _ _ (Reads-get_string 64 h.chain_id (omega arith) w.chain_id) (
            Reads-bind _ _ (Reads-get_fixed 32 h.genesis w.genesis) (
              Reads-bind _ _ (Reads-get_bytes 33 h.node_public_key w.node_public_key (omega arith))
                (Reads-bind _ _ (Reads-get_uint 8 h.timestamp w.timestamp) (
                  Reads-bind _ _ (Reads-get_fixed 32 h.challenge w.challenge) (
                    Reads-bind _ _ (Reads-get_fixed 32 h.response_to w.response_to) (
                      Reads-bind _ _ (Reads-get_uint 8 h.height w.height) (
                        Reads-bind _ _ (Reads-get_fixed 32 h.tip w.tip) (
                          Reads-bind _ _ (Reads-get_fixed 32 h.cumulative_work w.cumulative_work) (
                            Reads-bind _ _
                              (Reads-get_string 512 h.listen_url (omega arith) w.listen_url)
                              (Reads-bind _ _
                                (Reads-get_bytes 64 h.signature w.signature (omega arith))
                                (Reads-pure h)))))))))))))
        (simp (append_assoc, append-nil))

  pub Spells-Hello : Spells [] Hello.decode_from (consensus_encode Hello.encode_to)
  unfolding Hello.decode_from Hello.encode_to
  Spells-Hello = Spells-bind _ _ _ _ _ (Spells-get_uint 2) λ protocol.
      Spells-bind _ _ _ _ _ (Spells-get_string 64) λ chain_id.
        Spells-bind _ _ _ _ _ (Spells-get_fixed 32) λ genesis.
          Spells-bind _ _ _ _ _ (Spells-get_bytes 33) λ node_public_key.
            Spells-bind _ _ _ _ _ (Spells-get_uint 8) λ timestamp.
              Spells-bind _ _ _ _ _ (Spells-get_fixed 32) λ challenge.
                Spells-bind _ _ _ _ _ (Spells-get_fixed 32) λ response_to.
                  Spells-bind _ _ _ _ _ (Spells-get_uint 8) λ height.
                    Spells-bind _ _ _ _ _ (Spells-get_fixed 32) λ tip.
                      Spells-bind _ _ _ _ _ (Spells-get_fixed 32) λ cumulative_work.
                        Spells-bind _ _ _ _ _ (Spells-get_string 512) λ listen_url.
                          Spells-bind _ _ _ _ _ (Spells-get_bytes 64)
                            λ signature. Spells-pure _ _ _ (simp append_assoc)
