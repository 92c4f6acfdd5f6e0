-- ===== src/Types/Wire/Simple.antt =====
-- Transactions, reward claims and block headers on the wire.
use mathlib.Core.List.{append_assoc, append-nil}
use paritr_node.Prelude.{◌≤◌, ◌<◌, ◌≡◌, [], arith, length, length-append, u16_mod, u32_mod, u64_mod}
use paritr_node.Codec.{consensus_encode}
use paritr_node.Codec.Digits.{length-to_le_bytes}
use paritr_node.Codec.Reads.{
  Reads, Reads-as, Reads-bind, Reads-pure, Reads-get_uint, Reads-get_fixed, Reads-get_bytes,
  Reads-reject_if,
}
use paritr_node.Codec.Spells.{
  Spells, Spells-bind, Spells-pure, Spells-get_uint, Spells-get_fixed, Spells-get_bytes,
  Spells-reject_if,
}
use paritr_node.Crypto.{Primitives, Hash32}
use paritr_node.Crypto.Addresses.{IsAddress, Reads-get_address, Spells-get_address}
use paritr_node.Params.{max_transaction_bytes}
use paritr_node.Types.Transaction
use paritr_node.Types.Transaction.{Transaction}
use paritr_node.Types.RewardClaim
use paritr_node.Types.RewardClaim.{RewardClaim}
use paritr_node.Types.BlockHeader
use paritr_node.Types.BlockHeader.{BlockHeader}

module _ ⦃p : Primitives⦄ where
  -- A transaction that a `Transaction` can hold and a decoder lets through.
  pub record IsWireTransaction (t : Transaction) : Type 0 where
    pub version : t.version < u16_mod
    pub sender : IsAddress t.sender
    pub recipient : IsAddress t.recipient
    pub amount : t.amount < u64_mod
    pub fee : t.fee < u64_mod
    pub nonce : t.nonce < u64_mod
    pub public_key : length t.public_key ≤ 65
    pub signature : length t.signature ≤ 64

  pub transaction_encoded_len :
      (t : Transaction) → IsWireTransaction t → Transaction.encoded_len t ≤ max_transaction_bytes
  unfolding Transaction.encode_to
  transaction_encoded_len t h = omega (arith, length-append {0}, length-to_le_bytes)

  -- A transaction is read back from its encoding, whatever follows it.
  pub Reads-Transaction :
      (t : Transaction)
      → IsWireTransaction t
      → Reads Transaction.decode_from (consensus_encode Transaction.encode_to t) t
  unfolding Transaction.decode_from
  Reads-Transaction t h =
      Reads-as
        (Reads-bind _ _ (Reads-get_uint 2 t.version h.version) (
          Reads-bind _ _ (Reads-get_address t.sender h.sender) (
            Reads-bind _ _ (Reads-get_address t.recipient h.recipient) (
              Reads-bind _ _ (Reads-get_uint 8 t.amount h.amount) (
                Reads-bind _ _ (Reads-get_uint 8 t.fee h.fee) (
                  Reads-bind _ _ (Reads-get_uint 8 t.nonce h.nonce) (
                    Reads-bind _ _ (Reads-get_bytes 65 t.public_key h.public_key (omega arith)) (
                      Reads-bind _ _ (Reads-get_bytes 64 t.signature h.signature (omega arith)) (
                        Reads-reject_if _ _ (ground (arith, transaction_encoded_len t h))
                          (Reads-pure t))))))))))
        (simp (append_assoc, append-nil))

  -- Bytes that decode to a transaction are its encoding.
  pub Spells-Transaction :
      Spells [] Transaction.decode_from (consensus_encode Transaction.encode_to)
  unfolding Transaction.decode_from
  Spells-Transaction = Spells-bind _ _ _ _ _ (Spells-get_uint 2) λ version.
      Spells-bind _ _ _ _ _ Spells-get_address λ sender.
        Spells-bind _ _ _ _ _ Spells-get_address λ recipient.
          Spells-bind _ _ _ _ _ (Spells-get_uint 8) λ amount.
            Spells-bind _ _ _ _ _ (Spells-get_uint 8) λ fee.
              Spells-bind _ _ _ _ _ (Spells-get_uint 8) λ nonce.
                Spells-bind _ _ _ _ _ (Spells-get_bytes 65) λ public_key.
                  Spells-bind _ _ _ _ _ (Spells-get_bytes 64)
                    λ signature. Spells-reject_if _ _ _ _ _ (Spells-pure _ _ _ (simp append_assoc))

  pub record IsWireClaim (c : RewardClaim) : Type 0 where
    pub version : c.version < u16_mod
    pub height : c.height < u64_mod
    pub finder : IsAddress c.finder
    pub amount : c.amount < u64_mod
    pub extranonce : c.extranonce < u64_mod

  pub Reads-RewardClaim :
      (c : RewardClaim)
      → IsWireClaim c
      → Reads RewardClaim.decode_from (consensus_encode RewardClaim.encode_to c) c
  unfolding RewardClaim.decode_from RewardClaim.encode_to
  Reads-RewardClaim c h =
      Reads-as
        (Reads-bind _ _ (Reads-get_uint 2 c.version h.version) (
          Reads-bind _ _ (Reads-get_uint 8 c.height h.height) (
            Reads-bind _ _ (Reads-get_address c.finder h.finder) (
              Reads-bind _ _ (Reads-get_uint 8 c.amount h.amount)
                (Reads-bind _ _ (Reads-get_uint 8 c.extranonce h.extranonce) (Reads-pure c))))))
        (simp (append_assoc, append-nil))

  pub Spells-RewardClaim :
      Spells [] RewardClaim.decode_from (consensus_encode RewardClaim.encode_to)
  unfolding RewardClaim.decode_from RewardClaim.encode_to
  Spells-RewardClaim = Spells-bind _ _ _ _ _ (Spells-get_uint 2) λ version.
      Spells-bind _ _ _ _ _ (Spells-get_uint 8) λ height.
        Spells-bind _ _ _ _ _ Spells-get_address λ finder.
          Spells-bind _ _ _ _ _ (Spells-get_uint 8) λ amount.
            Spells-bind _ _ _ _ _ (Spells-get_uint 8)
              λ extranonce. Spells-pure _ _ _ (simp append_assoc)

  abbrev pub IsHash : Hash32 → Type 0
  IsHash x = length x ≡ 32

  pub record IsWireHeader (b : BlockHeader) : Type 0 where
    pub version : b.version < u16_mod
    pub protocol : b.protocol < u16_mod
    pub height : b.height < u64_mod
    pub previous_block : IsHash b.previous_block
    pub transactions_root : IsHash b.transactions_root
    pub state_root : IsHash b.state_root
    pub workshare_root : IsHash b.workshare_root
    pub timestamp : b.timestamp < u64_mod
    pub bits : b.bits < u32_mod
    pub nonce : b.nonce < u64_mod

  pub Reads-BlockHeader :
      (b : BlockHeader)
      → IsWireHeader b
      → Reads BlockHeader.decode_from (consensus_encode BlockHeader.encode_to b) b
  unfolding BlockHeader.decode_from BlockHeader.encode_to
  Reads-BlockHeader b h =
      Reads-as
        (Reads-bind _ _ (Reads-get_uint 2 b.version h.version) (
          Reads-bind _ _ (Reads-get_uint 2 b.protocol h.protocol) (
            Reads-bind _ _ (Reads-get_uint 8 b.height h.height) (
              Reads-bind _ _ (Reads-get_fixed 32 b.previous_block h.previous_block) (
                Reads-bind _ _ (Reads-get_fixed 32 b.transactions_root h.transactions_root) (
                  Reads-bind _ _ (Reads-get_fixed 32 b.state_root h.state_root) (
                    Reads-bind _ _ (Reads-get_fixed 32 b.workshare_root h.workshare_root) (
                      Reads-bind _ _ (Reads-get_uint 8 b.timestamp h.timestamp) (
                        Reads-bind _ _ (Reads-get_uint 4 b.bits h.bits) (
                          Reads-bind _ _ (Reads-get_uint 8 b.nonce h.nonce) (Reads-pure b)))))))))))
        (simp (append_assoc, append-nil))

  pub Spells-BlockHeader :
      Spells [] BlockHeader.decode_from (consensus_encode BlockHeader.encode_to)
  unfolding BlockHeader.decode_from BlockHeader.encode_to
  Spells-BlockHeader = Spells-bind _ _ _ _ _ (Spells-get_uint 2) λ version.
      Spells-bind _ _ _ _ _ (Spells-get_uint 2) λ protocol.
        Spells-bind _ _ _ _ _ (Spells-get_uint 8) λ height.
          Spells-bind _ _ _ _ _ (Spells-get_fixed 32) λ previous_block.
            Spells-bind _ _ _ _ _ (Spells-get_fixed 32) λ transactions_root.
              Spells-bind _ _ _ _ _ (Spells-get_fixed 32) λ state_root.
                Spells-bind _ _ _ _ _ (Spells-get_fixed 32) λ workshare_root.
                  Spells-bind _ _ _ _ _ (Spells-get_uint 8) λ timestamp.
                    Spells-bind _ _ _ _ _ (Spells-get_uint 4) λ bits.
                      Spells-bind _ _ _ _ _ (Spells-get_uint 8)
                        λ nonce. Spells-pure _ _ _ (simp append_assoc)

  -- The header's encoding has the length that the source states.
  pub length-header :
      (b : BlockHeader)
      → IsWireHeader b
      → length (consensus_encode BlockHeader.encode_to b) ≡ BlockHeader.encoded_len
  unfolding BlockHeader.encode_to
  length-header b h = omega (arith, length-append {0}, length-to_le_bytes)
