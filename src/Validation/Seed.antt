-- ===== src/Validation/Seed.antt =====
-- What a header is checked against: the median time, the seed of RandomX, the work of a chain.
use paritr_node.Prelude.{
  ℕ, ◌+◌, ◌-◌, ◌/◌, Option, none, some, List, [], ◌∷◌, map, ◌==◌, ltb, leb, length, drop, find,
  get_elem?, Result, ok, ◌>>=◌, ok_or, fail_if, not, if◌then◌else◌,
}
use paritr_node.Prelude.Sort.{sort_by}
use paritr_node.Codec.{Bytes, ◌▷◌, put_u64, put_bytes, consensus_encode}
use paritr_node.Crypto.{Primitives, Hash32, domain_hash, ascii, put_hash}
use paritr_node.Errors.{
  ConsensusError, invalid_target, arithmetic_overflow, storage_invariant, pow_unavailable,
  invalid_proof_of_work,
}
use paritr_node.Params.{
  median_time_span, randomx_epoch_blocks, randomx_seed_reference_height, chain_id,
}
use paritr_node.Difficulty.{bits_to_target, target_work, hash_meets_target, u256_mod}
use paritr_node.Types.BlockHeader
use paritr_node.Types.BlockHeader.{BlockHeader}
use paritr_node.Types.Block
use paritr_node.Types.Block.{Block}

-- `PowVerifier::hash`, of a seed and an input.
abbrev pub PowVerifier : Type 0
PowVerifier = Bytes → Bytes → Option Hash32

abbrev timestamps : List Block → List ℕ
timestamps history =
    map (λ b. b.header.timestamp) (drop (length history - median_time_span) history)

-- `get(i).copied().unwrap_or_default()`
abbrev time_at : List ℕ → ℕ → ℕ
time_at times i = elim (get_elem? times i) [ none ↦ 0 | some t ↦ t ]

unfoldable pub median_time_past : List Block → ℕ
median_time_past history =
    let times = sort_by leb (timestamps history) in time_at times (length times / 2)

abbrev pub add_work : ℕ → ℕ → Option ℕ
add_work a b = if ltb (a + b) u256_mod then some (a + b) else none

-- `try_fold`, from the total so far.
unfoldable pub work_from : ℕ → List Block → Result ConsensusError ℕ
work_from total [] = ok total
work_from total (b ∷ rest) = do
  target ← ok_or (bits_to_target b.header.bits) invalid_target
  work ← target_work target
  next ← ok_or (add_work total work) arithmetic_overflow
  work_from next rest

unfoldable pub cumulative_work : List Block → Result ConsensusError ℕ
unfolding work_from
cumulative_work blocks = work_from 0 blocks

module _ ⦃p : Primitives⦄ where
  unfoldable pub randomx_seed : List Block → ℕ → Result ConsensusError Bytes
  randomx_seed parent_history height =
      if ltb height randomx_epoch_blocks
      then ok (ascii "Paritr-Protocol-9-RandomX-Bootstrap-v1")
      else do
        reference ←
            ok_or
              (find (λ b. b.header.height == randomx_seed_reference_height height) parent_history)
              storage_invariant
        ok (
            domain_hash (ascii "PARITR-P9-RANDOMX-EPOCH-v1") (
              []
              ▷ put_bytes (ascii chain_id)
              ▷ put_u64 (height / randomx_epoch_blocks)
              ▷ put_hash (Block.id reference)))

  unfoldable pub verify_pow :
      PowVerifier → Bytes → BlockHeader → ℕ → Result ConsensusError (Unit {0})
  verify_pow pow seed header target = do
    hash ← ok_or (pow seed (consensus_encode BlockHeader.encode_to header)) pow_unavailable
    fail_if (not (hash_meets_target hash target)) invalid_proof_of_work
