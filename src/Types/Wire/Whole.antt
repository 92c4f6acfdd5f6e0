-- ===== src/Types/Wire/Whole.antt =====
-- Whole blocks on the wire, and the two theorems on `consensus_decode` for each object.
use mathlib.Core.Path.{subst}
use mathlib.Core.List.{append_assoc, append-nil}
use paritr_node.Prelude.{
  ℕ, ◌≤◌, ◌≡◌, refl, sym, ◌∙◌, ◌++◌, [], none, some, false, Option, Result, ok, err, panicked, inl,
  inr, Bool-cases, ◌==◌, ==_iff, arith, length, All,
}
use paritr_node.Codec.{
  Bytes, Writer, Decoder, Reader, CodecError, IsBytes, continue, ◌>>=◌, pure, consensus_decode,
  consensus_encode, max_consensus_allocation,
}
use paritr_node.Codec.Reads.{Reads, Reads-as, Reads-bind, Reads-pure, Reads-get_u8}
use paritr_node.Codec.Spells.{Spells, Spells-bind, Spells-pure, Spells-get_u8, one_byte}
use paritr_node.Codec.Frames.{
  consensus_decode-Reads, Reads-get_vector, Reads-get_framed, put_vector-eq,
}
use paritr_node.Codec.Canonical.{consensus_decode-Spells, Spells-get_vector, Spells-get_framed}
use paritr_node.Crypto.{Primitives}
use paritr_node.Params.{max_block_transactions, max_transaction_bytes, max_workshare_witness_bytes}
use paritr_node.Types.Transaction
use paritr_node.Types.Transaction.{Transaction}
use paritr_node.Types.RewardClaim
use paritr_node.Types.RewardClaim.{RewardClaim}
use paritr_node.Types.BlockHeader
use paritr_node.Types.BlockHeader.{BlockHeader}
use paritr_node.Types.Witness
use paritr_node.Types.Witness.{WorkshareWitness}
use paritr_node.Types.Block
use paritr_node.Types.Block.{Block}
use paritr_node.Types.Wire.Simple.{
  IsWireTransaction, Reads-Transaction, Spells-Transaction, transaction_encoded_len, IsWireClaim,
  Reads-RewardClaim, Spells-RewardClaim, IsWireHeader, Reads-BlockHeader, Spells-BlockHeader,
  length-header,
}
use paritr_node.Types.Wire.Nested.{
  transactions-ReadsBack, IsWireWitness, Reads-WorkshareWitness, Spells-WorkshareWitness,
}

module _ ⦃p : Primitives⦄ where
  claim_bytes : RewardClaim → Bytes
  unfolding RewardClaim.encode_to
  claim_bytes c = consensus_encode RewardClaim.encode_to c

  claim_append : (c : RewardClaim) (w : Writer) → RewardClaim.encode_to c w ≡ w ++ claim_bytes c
  unfolding claim_bytes
  claim_append c w = simp append_assoc

  -- The optional claim: its tag, and the claim behind a tag of 1.
  abbrev tag_of : Option RewardClaim → ℕ
  tag_of none = 0
  tag_of (some c) = 1

  abbrev body_bytes : Option RewardClaim → Bytes
  body_bytes none = []
  body_bytes (some c) = consensus_encode RewardClaim.encode_to c

  abbrev pub IsWireOption : Option RewardClaim → Type 0
  IsWireOption none = Unit
  IsWireOption (some c) = IsWireClaim c

  option_append :
      (o : Option RewardClaim) (w : Writer)
      → Block.put_claim o w ≡ (w ++ one_byte (tag_of o)) ++ body_bytes o
  option_append none w = simp append-nil
  option_append (some c) w = simp claim_append

  pub record IsWireBlock (b : Block) : Type 0 where
    pub header : IsWireHeader b.header
    pub reward_claim : IsWireOption b.reward_claim
    pub count : length b.transactions ≤ max_block_transactions
    pub transactions : All IsWireTransaction b.transactions
    pub witness : IsWireWitness b.workshare_witness
    pub witness_size :
        length (consensus_encode Witness.encode_to b.workshare_witness)
        ≤ max_workshare_witness_bytes

  Reads-get_claim :
      (o : Option RewardClaim)
      → IsWireOption o
      → Reads (Block.get_claim (tag_of o)) (body_bytes o) o
  unfolding Block.get_claim
  Reads-get_claim none h = Reads-pure none
  Reads-get_claim (some c) h =
      Reads-as (Reads-bind _ _ (Reads-RewardClaim c h) (Reads-pure (some c))) (append-nil _)

  pub Reads-Block :
      (b : Block) → IsWireBlock b → Reads Block.decode_from (consensus_encode Block.encode_to b) b
  unfolding Block.decode_from Block.encode_to
  Reads-Block b h =
      Reads-as
        (Reads-bind _ _ (Reads-BlockHeader b.header h.header) (
          Reads-bind _ _ (Reads-get_u8 (tag_of b.reward_claim)) (
            Reads-bind _ _ (Reads-get_claim b.reward_claim h.reward_claim) (
              Reads-bind _ _
                (Reads-get_vector max_block_transactions max_transaction_bytes
                  Transaction.decode_from _ b.transactions (omega arith) h.count (omega arith)
                  (transactions-ReadsBack b.transactions h.transactions))
                (Reads-bind _ _
                  (Reads-get_framed max_workshare_witness_bytes Witness.decode_from
                    (consensus_encode Witness.encode_to) b.workshare_witness
                    (Reads-WorkshareWitness b.workshare_witness h.witness) h.witness_size
                    (omega (arith, h.witness_size)))
                  (Reads-pure b))))))
        (simp (option_append, append_assoc, append-nil, put_vector-eq))

  continue_assoc {ℓ κ μ} :
      {A : Type ℓ} {B : Type κ} {C : Type μ} (g : A → Decoder B) (f : B → Decoder C)
      (m : Result CodecError (A × Reader))
      → continue f (continue g m) ≡ continue (λ a r. continue f (g a r)) m
  continue_assoc g f (ok x) = refl
  continue_assoc g f (err e) = refl
  continue_assoc g f panicked = refl

  -- The tag and the body together are spelled as `put_claim` writes them.
  Spells-get_claim :
      (pre : Bytes) (tag : ℕ) (f : Option RewardClaim → Decoder Block) (enc : Block → Bytes)
      → ((o : Option RewardClaim) → Spells ((pre ++ one_byte (tag_of o)) ++ body_bytes o) (f o) enc)
      → Spells (pre ++ one_byte tag) (Block.get_claim tag >>= f) enc
  unfolding Block.get_claim
  Spells-get_claim pre tag f enc h = elim (Bool-cases (tag == 0)) [
    | inl zeroth ↦
        subst (λ z. Spells (pre ++ one_byte z) (Block.get_claim z >>= f) enc)
          (sym ((==_iff tag 0).0 zeroth)) absent
    | inr more ↦ elim (Bool-cases (tag == 1)) [
      | inl first ↦
          subst (λ z. Spells (pre ++ one_byte z) (Block.get_claim z >>= f) enc)
            (sym ((==_iff tag 1).0 first)) present
      | inr other ↦ record { at = λ r b r' bytes e. absurd (refused r e more other) }
    ]
  ]
    where
      absent : Spells (pre ++ one_byte 0) (Block.get_claim 0 >>= f) enc
      absent = record {
        at = (subst (λ z. Spells z (f none) enc) (append-nil (pre ++ one_byte 0)) (h none)).at;
      }

      present : Spells (pre ++ one_byte 1) (Block.get_claim 1 >>= f) enc
      present =
          let k : Spells (pre ++ one_byte 1) (RewardClaim.decode_from >>= λ c. f (some c)) enc =
            Spells-bind _ _ _ _ _ Spells-RewardClaim (λ c. h (some c)) in
          record {
            at = λ r b r' bytes e.
                k.at r b r' bytes
                  (sym (continue_assoc (λ c. pure (some c)) f (RewardClaim.decode_from r)) ∙ e);
          }

      refused :
          (r : Reader) {q : Block × Reader}
          → (Block.get_claim tag >>= f) r ≡ ok q
          → (tag == 0) ≡ false
          → (tag == 1) ≡ false
          → ⊥
      refused r e more other = ground arith

  pub Spells-Block : Spells [] Block.decode_from (consensus_encode Block.encode_to)
  unfolding Block.decode_from Block.encode_to
  Spells-Block = Spells-bind _ _ _ _ _ Spells-BlockHeader λ header.
      Spells-bind _ _ _ _ _ Spells-get_u8 λ tag.
        Spells-get_claim (consensus_encode BlockHeader.encode_to header) tag _ _ λ claim.
          Spells-bind _ _ _ _ _ (Spells-get_vector _ _ _ _ Spells-Transaction) λ transactions.
            Spells-bind _ _ _ _ _ (Spells-get_framed _ _ _ Spells-WorkshareWitness)
              λ witness. Spells-pure _ _ _ (simp (option_append, append_assoc, put_vector-eq))

  -- A block of wire form and of at most 8 MiB is decoded from its encoding.
  pub block_round_trip :
      (b : Block)
      → IsWireBlock b
      → length (consensus_encode Block.encode_to b) ≤ max_consensus_allocation
      → consensus_decode Block.decode_from (consensus_encode Block.encode_to b) ≡ ok b
  block_round_trip b h small = consensus_decode-Reads _ _ b (Reads-Block b h) small

  -- Bytes that decode to a block are its encoding.
  pub block_canonical :
      (input : Bytes) (b : Block)
      → IsBytes input
      → consensus_decode Block.decode_from input ≡ ok b
      → input ≡ consensus_encode Block.encode_to b
  block_canonical input b bytes h = consensus_decode-Spells _ _ input b Spells-Block bytes h

  -- A transaction of wire form is decoded from its encoding.
  pub transaction_round_trip :
      (t : Transaction)
      → IsWireTransaction t
      → consensus_decode Transaction.decode_from (consensus_encode Transaction.encode_to t) ≡ ok t
  transaction_round_trip t h =
      consensus_decode-Reads _ _ t (Reads-Transaction t h)
        (omega (arith, transaction_encoded_len t h))

  -- Bytes that decode to a transaction are its encoding.
  pub transaction_canonical :
      (input : Bytes) (t : Transaction)
      → IsBytes input
      → consensus_decode Transaction.decode_from input ≡ ok t
      → input ≡ consensus_encode Transaction.encode_to t
  transaction_canonical input t bytes h =
      consensus_decode-Spells _ _ input t Spells-Transaction bytes h

  -- A header is 160 bytes long on the wire, and is decoded from them.
  pub header_round_trip :
      (b : BlockHeader)
      → IsWireHeader b
      → (length (consensus_encode BlockHeader.encode_to b) ≡ BlockHeader.encoded_len)
        × (consensus_decode BlockHeader.decode_from (consensus_encode BlockHeader.encode_to b)
            ≡ ok b)
  header_round_trip b h = (
    length-header b h,
    consensus_decode-Reads _ _ b (Reads-BlockHeader b h) (omega (arith, length-header b h)),
  )
