-- ===== src/Validation/Shares.antt =====
-- `validate_witness_shape` and `validate_workshares`.
use paritr_node.Prelude.{
  ℕ, Bool, ◌||◌, not, List, [], ◌∷◌, ◌++◌, map, any, length, get_last?, ◌==◌, ltb, leb,
  wrapping_add, checked_add, Result, ok, ◌>>=◌, ◌>>◌, ok_or, fail_if, if◌then◌else◌,
}
use paritr_node.Prelude.Order.{bytes_eq, bytes_lt, bytes_ord}
use paritr_node.Prelude.Sort.{sort_by}
use paritr_node.OrderedMap
use paritr_node.OrderedMap.{OrderedMap}
use paritr_node.Codec.{Bytes, consensus_encode}
use paritr_node.Crypto.{Primitives, Hash32, zero_hash}
use paritr_node.Errors.{
  ConsensusError, non_canonical_witness, wrong_parent, invalid_target, invalid_workshare_chain,
  money_range, pow_unavailable, invalid_proof_of_work,
}
use paritr_node.Params.{
  header_version, protocol_version, max_workshare_witness_bytes, max_template_bytes,
}
use paritr_node.Difficulty.{bits_to_target, next_bits, workshare_bits, hash_meets_target}
use paritr_node.Types.Transaction
use paritr_node.Types.Transaction.{Transaction}
use paritr_node.Types.RewardClaim
use paritr_node.Types.RewardClaim.{RewardClaim}
use paritr_node.Types.BlockHeader
use paritr_node.Types.BlockHeader.{BlockHeader}
use paritr_node.Types.BlockTemplate
use paritr_node.Types.BlockTemplate.{BlockTemplate}
use paritr_node.Types.Workshare
use paritr_node.Types.Workshare.{Workshare}
use paritr_node.Types.Witness
use paritr_node.Types.Witness.{WorkshareWitness}
use paritr_node.Types.Merkle.{merkle_root}
use paritr_node.Types.Block
use paritr_node.Types.Block.{Block}
use paritr_node.State.Ledger
use paritr_node.State.Ledger.{LedgerState}
use paritr_node.Rewards.{reward_allocation}
use paritr_node.Validation.Apply.{transition_for_candidate}
use paritr_node.Validation.Seed.{PowVerifier, randomx_seed, median_time_past}

-- What stays the same through the loop over the workshares.
pub record ShareContext : Type 0 where
  pub parent : Block
  pub parent_history : List Block
  pub parent_state : LedgerState
  pub pow : PowVerifier
  pub settling_timestamp : ℕ
  pub templates : OrderedMap Hash32 BlockTemplate
  pub seed : Bytes
  pub expected_bits : ℕ
  pub block_target : ℕ
  pub share_target : ℕ
  pub median_time : ℕ

-- `try_fold(0_u64, ..)` over the fees.
unfoldable pub sum_fees : ℕ → List Transaction → Result ConsensusError ℕ
sum_fees sum [] = ok sum
sum_fees sum (t ∷ rest) = do next ← ok_or (checked_add sum t.fee) money_range; sum_fees next rest

module _ ⦃p : Primitives⦄ where
  unfoldable pub validate_witness_shape : WorkshareWitness → Result ConsensusError (Unit {0})
  validate_witness_shape witness = do
    fail_if
        (not (witness.version == Witness.current_version)
          || (ltb max_workshare_witness_bytes (length (consensus_encode Witness.encode_to witness))
              || not (Witness.is_canonical witness)))
        non_canonical_witness
    fail_if
        (any
          (λ t.
            not (t.version == BlockTemplate.current_version)
            || ltb max_template_bytes (length (consensus_encode BlockTemplate.encode_to t)))
          witness.templates)
        non_canonical_witness

  -- `.map(|template| (template.id(), template)).collect()`
  unfoldable pub by_id :
      List BlockTemplate → OrderedMap Hash32 BlockTemplate → OrderedMap Hash32 BlockTemplate
  by_id [] m = m
  by_id (t ∷ rest) m = by_id rest (OrderedMap.insert (BlockTemplate.id t) t m)

  -- The first test of the loop's body.
  unfoldable pub breaks_chain : ShareContext → Hash32 → Workshare → Bool
  breaks_chain c previous share =
      let header = share.candidate_header in
      not (share.version == Workshare.current_version)
      || (not (bytes_eq share.previous_workshare previous)
          || (not (header.version == header_version)
              || (not (header.protocol == protocol_version)
                  || (not (header.height == wrapping_add c.parent.header.height 1)
                      || (not (bytes_eq header.previous_block (Block.id c.parent))
                          || (not (header.bits == c.expected_bits)
                              || (leb header.timestamp c.parent.header.timestamp
                                  || (leb header.timestamp c.median_time
                                      || ltb c.settling_timestamp header.timestamp))))))))

  -- The claim that the candidate of a workshare must hold.
  abbrev pub claim_of : Workshare → BlockTemplate → ℕ → RewardClaim
  claim_of share template amount = record {
    version = RewardClaim.current_version;
    height = template.height;
    finder = share.miner;
    amount = amount;
    extranonce = share.extranonce;
  }

  -- The candidate block of a workshare, built again from its template.
  unfoldable pub check_candidate :
      ShareContext → WorkshareWitness → Workshare → BlockTemplate → Result ConsensusError (Unit {0})
  unfolding sum_fees
  check_candidate c prefix share template = do
    fees ← sum_fees 0 template.transactions
    allocation ← reward_allocation template.height share.miner fees c.parent_history
    let claim = claim_of share template allocation.finder_amount
    (state, rest) ←
        transition_for_candidate template.height claim template.transactions c.parent_history
          c.parent_state
    let txids = RewardClaim.id claim ∷ map Transaction.id template.transactions
    fail_if
        (not (bytes_eq share.candidate_header.transactions_root (merkle_root txids))
          || (not (bytes_eq share.candidate_header.state_root (Ledger.root state))
              || not (bytes_eq share.candidate_header.workshare_root (Witness.root prefix))))
        invalid_workshare_chain

  -- `prefix.workshares.push(..)`, and the template if its identifier is new.
  unfoldable pub extend_prefix : WorkshareWitness → Workshare → BlockTemplate → WorkshareWitness
  extend_prefix prefix share template = record prefix {
    workshares = prefix.workshares ++ (share ∷ []);
    templates =
        if any (λ existing. bytes_eq (BlockTemplate.id existing) (BlockTemplate.id template))
          prefix.templates
        then prefix.templates
        else sort_by (λ a b. not (bytes_lt (BlockTemplate.id b) (BlockTemplate.id a)))
            (prefix.templates ++ (template ∷ []));
  }

  -- The body of the loop; it gives the witness so far, with this workshare.
  unfoldable pub check_share :
      ShareContext → Hash32 → WorkshareWitness → Workshare → Result ConsensusError WorkshareWitness
  unfolding breaks_chain check_candidate extend_prefix
  check_share c previous prefix share = do
    fail_if (breaks_chain c previous share) invalid_workshare_chain
    template ← ok_or (OrderedMap.lookup share.template_id c.templates) invalid_workshare_chain
    fail_if
        (not (template.version == BlockTemplate.current_version)
          || (not (template.height == wrapping_add c.parent.header.height 1)
              || not (bytes_eq template.parent (Block.id c.parent))))
        invalid_workshare_chain
    check_candidate c prefix share template
    hash ←
        ok_or (c.pow c.seed (consensus_encode BlockHeader.encode_to share.candidate_header))
          pow_unavailable
    fail_if (not (hash_meets_target hash c.share_target) || hash_meets_target hash c.block_target)
        invalid_proof_of_work
    ok (extend_prefix prefix share template)

  unfoldable pub check_shares :
      ShareContext → Hash32 → WorkshareWitness → List Workshare → Result ConsensusError (Unit {0})
  unfolding check_share
  check_shares c previous prefix [] = ok tt
  check_shares c previous prefix (share ∷ rest) = do
    prefix' ← check_share c previous prefix share
    check_shares c (Workshare.id share) prefix' rest

  -- The bindings before the loop.
  unfoldable pub share_context :
      WorkshareWitness
      → List Block
      → LedgerState
      → PowVerifier
      → ℕ
      → Result ConsensusError ShareContext
  unfolding by_id
  share_context witness parent_history parent_state pow settling_timestamp = do
    parent ← ok_or (get_last? parent_history) wrong_parent
    seed ← randomx_seed parent_history (wrapping_add parent.header.height 1)
    let expected_bits = next_bits parent_history
    block_target ← ok_or (bits_to_target expected_bits) invalid_target
    share_bits ← ok_or (workshare_bits expected_bits) invalid_target
    share_target ← ok_or (bits_to_target share_bits) invalid_target
    ok (record {
      parent = parent;
      parent_history = parent_history;
      parent_state = parent_state;
      pow = pow;
      settling_timestamp = settling_timestamp;
      templates = by_id witness.templates [];
      seed = seed;
      expected_bits = expected_bits;
      block_target = block_target;
      share_target = share_target;
      median_time = median_time_past parent_history;
    })

  unfoldable pub validate_workshares :
      WorkshareWitness
      → List Block
      → LedgerState
      → PowVerifier
      → ℕ
      → Result ConsensusError (Unit {0})
  unfolding share_context check_shares
  validate_workshares witness parent_history parent_state pow settling_timestamp =
      if length witness.workshares == 0 then ok tt else do
        c ← share_context witness parent_history parent_state pow settling_timestamp
        check_shares c zero_hash Witness.empty witness.workshares
