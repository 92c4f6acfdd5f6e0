-- ===== src/Types/Wire/Nested.antt =====
-- Templates, workshares, witnesses and blocks on the wire.
use mathlib.Core.List.{append_assoc, append-nil}
use paritr_node.Prelude.{
  ℕ, ◌≤◌, ◌<◌, ◌≡◌, ap, List, ◌++◌, [], ◌∷◌, arith, length, All, u16_mod, u64_mod,
}
use paritr_node.Codec.{Bytes, Writer, consensus_encode}
use paritr_node.Prelude.{length-append}
use paritr_node.Codec.Digits.{length-to_le_bytes}
use paritr_node.Codec.Reads.{
  Reads, Reads-as, Reads-bind, Reads-pure, Reads-get_uint, Reads-get_fixed,
}
use paritr_node.Codec.Spells.{Spells, Spells-bind, Spells-pure, Spells-get_uint, Spells-get_fixed}
use paritr_node.Codec.Frames.{ReadsBack, Reads-get_vector, put_vector-eq}
use paritr_node.Codec.Canonical.{Spells-get_vector}
use paritr_node.Crypto.{Primitives}
use paritr_node.Crypto.Addresses.{IsAddress, Reads-get_address, Spells-get_address}
use paritr_node.Params.{
  max_block_transactions, max_transaction_bytes, max_templates_per_block, max_workshares_per_block,
  max_template_bytes,
}
use paritr_node.Types.Transaction
use paritr_node.Types.Transaction.{Transaction}
use paritr_node.Types.BlockHeader
use paritr_node.Types.BlockHeader.{BlockHeader}
use paritr_node.Types.BlockTemplate
use paritr_node.Types.BlockTemplate.{BlockTemplate}
use paritr_node.Types.Workshare
use paritr_node.Types.Workshare.{Workshare}
use paritr_node.Types.Witness
use paritr_node.Types.Witness.{WorkshareWitness}
use paritr_node.Types.Wire.Simple.{
  IsWireTransaction, Reads-Transaction, Spells-Transaction, transaction_encoded_len, IsHash,
  IsWireHeader, Reads-BlockHeader, Spells-BlockHeader, length-header,
}

module _ ⦃p : Primitives⦄ where
  pub transactions-ReadsBack :
      (ts : List Transaction)
      → All IsWireTransaction ts
      → All
          (ReadsBack Transaction.decode_from
            (consensus_encode Transaction.encode_to)
            max_transaction_bytes)
          ts
  transactions-ReadsBack [] h = tt
  transactions-ReadsBack (t ∷ ts) h = (
    record { reads = Reads-Transaction t h.0; fits = transaction_encoded_len t h.0 },
    transactions-ReadsBack ts h.1,
  )

  pub record IsWireTemplate (t : BlockTemplate) : Type 0 where
    pub version : t.version < u16_mod
    pub height : t.height < u64_mod
    pub parent : IsHash t.parent
    pub count : length t.transactions ≤ max_block_transactions
    pub transactions : All IsWireTransaction t.transactions
    pub size : length (consensus_encode BlockTemplate.encode_to t) ≤ max_template_bytes

  pub Reads-BlockTemplate :
      (t : BlockTemplate)
      → IsWireTemplate t
      → Reads BlockTemplate.decode_from (consensus_encode BlockTemplate.encode_to t) t
  unfolding BlockTemplate.decode_from BlockTemplate.encode_to
  Reads-BlockTemplate t h =
      Reads-as
        (Reads-bind _ _ (Reads-get_uint 2 t.version h.version) (
          Reads-bind _ _ (Reads-get_uint 8 t.height h.height) (
            Reads-bind _ _ (Reads-get_fixed 32 t.parent h.parent) (
              Reads-bind _ _
                (Reads-get_vector max_block_transactions max_transaction_bytes
                  Transaction.decode_from _ t.transactions (omega arith) h.count (omega arith)
                  (transactions-ReadsBack t.transactions h.transactions))
                (Reads-pure t)))))
        (simp (append_assoc, append-nil, put_vector-eq))

  pub Spells-BlockTemplate :
      Spells [] BlockTemplate.decode_from (consensus_encode BlockTemplate.encode_to)
  unfolding BlockTemplate.decode_from BlockTemplate.encode_to
  Spells-BlockTemplate = Spells-bind _ _ _ _ _ (Spells-get_uint 2) λ version.
      Spells-bind _ _ _ _ _ (Spells-get_uint 8) λ height.
        Spells-bind _ _ _ _ _ (Spells-get_fixed 32) λ parent.
          Spells-bind _ _ _ _ _ (Spells-get_vector _ _ _ _ Spells-Transaction)
            λ transactions. Spells-pure _ _ _ (simp (append_assoc, put_vector-eq))

  -- A header behind other bytes.
  unfoldable pub header_bytes : BlockHeader → Bytes
  unfolding BlockHeader.encode_to
  header_bytes b = consensus_encode BlockHeader.encode_to b

  pub header_append :
      (b : BlockHeader) (w : Writer) → BlockHeader.encode_to b w ≡ w ++ header_bytes b
  unfolding header_bytes
  header_append b w = simp append_assoc

  pub record IsWireWorkshare (s : Workshare) : Type 0 where
    pub version : s.version < u16_mod
    pub previous_workshare : IsHash s.previous_workshare
    pub template_id : IsHash s.template_id
    pub miner : IsAddress s.miner
    pub extranonce : s.extranonce < u64_mod
    pub candidate_header : IsWireHeader s.candidate_header

  pub Reads-Workshare :
      (s : Workshare)
      → IsWireWorkshare s
      → Reads Workshare.decode_from (consensus_encode Workshare.encode_to s) s
  unfolding Workshare.decode_from Workshare.encode_to
  Reads-Workshare s h =
      Reads-as
        (Reads-bind _ _ (Reads-get_uint 2 s.version h.version) (
          Reads-bind _ _ (Reads-get_fixed 32 s.previous_workshare h.previous_workshare) (
            Reads-bind _ _ (Reads-get_fixed 32 s.template_id h.template_id) (
              Reads-bind _ _ (Reads-get_address s.miner h.miner) (
                Reads-bind _ _ (Reads-get_uint 8 s.extranonce h.extranonce) (
                  Reads-bind _ _ (Reads-BlockHeader s.candidate_header h.candidate_header)
                    (Reads-pure s)))))))
        (simp (append_assoc, append-nil, header_append))

  pub Spells-Workshare : Spells [] Workshare.decode_from (consensus_encode Workshare.encode_to)
  unfolding Workshare.decode_from Workshare.encode_to
  Spells-Workshare = Spells-bind _ _ _ _ _ (Spells-get_uint 2) λ version.
      Spells-bind _ _ _ _ _ (Spells-get_fixed 32) λ previous_workshare.
        Spells-bind _ _ _ _ _ (Spells-get_fixed 32) λ template_id.
          Spells-bind _ _ _ _ _ Spells-get_address λ miner.
            Spells-bind _ _ _ _ _ (Spells-get_uint 8) λ extranonce.
              Spells-bind _ _ _ _ _ Spells-BlockHeader
                λ candidate_header. Spells-pure _ _ _ (simp (append_assoc, header_append))

  pub workshare_encoded_len :
      (s : Workshare) → IsWireWorkshare s → length (consensus_encode Workshare.encode_to s) ≤ 512
  unfolding Workshare.encode_to
  workshare_encoded_len s h = omega (
    arith,
    length-append {0},
    length-to_le_bytes,
    ap (length {A = ℕ}) (header_append s.candidate_header _),
    ap (length {A = ℕ}) (header_append s.candidate_header []),
    length-header s.candidate_header h.candidate_header,
  )

  workshares-ReadsBack :
      (ss : List Workshare)
      → All IsWireWorkshare ss
      → All (ReadsBack Workshare.decode_from (consensus_encode Workshare.encode_to) 512) ss
  workshares-ReadsBack [] h = tt
  workshares-ReadsBack (s ∷ ss) h = (
    record { reads = Reads-Workshare s h.0; fits = workshare_encoded_len s h.0 },
    workshares-ReadsBack ss h.1,
  )

  templates-ReadsBack :
      (ts : List BlockTemplate)
      → All IsWireTemplate ts
      → All
          (ReadsBack BlockTemplate.decode_from
            (consensus_encode BlockTemplate.encode_to)
            max_template_bytes)
          ts
  templates-ReadsBack [] h = tt
  templates-ReadsBack (t ∷ ts) h =
      (record { reads = Reads-BlockTemplate t h.0; fits = h.0.size }, templates-ReadsBack ts h.1)

  pub record IsWireWitness (v : WorkshareWitness) : Type 0 where
    pub version : v.version < u16_mod
    pub template_count : length v.templates ≤ max_templates_per_block
    pub templates : All IsWireTemplate v.templates
    pub workshare_count : length v.workshares ≤ max_workshares_per_block
    pub workshares : All IsWireWorkshare v.workshares

  pub Reads-WorkshareWitness :
      (v : WorkshareWitness)
      → IsWireWitness v
      → Reads Witness.decode_from (consensus_encode Witness.encode_to v) v
  unfolding Witness.decode_from Witness.encode_to
  Reads-WorkshareWitness v h =
      Reads-as
        (Reads-bind _ _ (Reads-get_uint 2 v.version h.version) (
          Reads-bind _ _
            (Reads-get_vector max_templates_per_block max_template_bytes BlockTemplate.decode_from _
              v.templates (omega arith) h.template_count (omega arith)
              (templates-ReadsBack v.templates h.templates))
            (Reads-bind _ _
              (Reads-get_vector max_workshares_per_block 512 Workshare.decode_from _ v.workshares
                (omega arith) h.workshare_count (omega arith)
                (workshares-ReadsBack v.workshares h.workshares))
              (Reads-pure v))))
        (simp (append_assoc, append-nil, put_vector-eq))

  pub Spells-WorkshareWitness : Spells [] Witness.decode_from (consensus_encode Witness.encode_to)
  unfolding Witness.decode_from Witness.encode_to
  Spells-WorkshareWitness = Spells-bind _ _ _ _ _ (Spells-get_uint 2) λ version.
      Spells-bind _ _ _ _ _ (Spells-get_vector _ _ _ _ Spells-BlockTemplate) λ templates.
        Spells-bind _ _ _ _ _ (Spells-get_vector _ _ _ _ Spells-Workshare)
          λ workshares. Spells-pure _ _ _ (simp (append_assoc, put_vector-eq))
