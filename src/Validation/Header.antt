-- ===== src/Validation/Header.antt =====
-- `validate_header_context`. `parent.header.height + 1` wraps in a release build.
use paritr_node.Prelude.{
  ℕ, Bool, true, ◌||◌, not, none, some, List, ◌==◌, ltb, leb, wrapping_add, saturating_add, Result,
  ◌>>◌, fail_if, Option,
}
use paritr_node.Prelude.Order.{bytes_eq}
use paritr_node.Crypto.{Primitives}
use paritr_node.Errors.{
  ConsensusError, unsupported_version, wrong_height, wrong_parent, invalid_target,
  invalid_timestamp, future_timestamp,
}
use paritr_node.Params.{header_version, protocol_version, pow_limit, max_future_block_time}
use paritr_node.Difficulty.{bits_to_target, next_bits}
use paritr_node.Types.BlockHeader.{BlockHeader}
use paritr_node.Types.Block
use paritr_node.Types.Block.{Block}
use paritr_node.Validation.Seed.{median_time_past}

-- `is_none_or(|target| target > pow_limit())`
abbrev pub above_limit : Option ℕ → Bool
above_limit none = true
above_limit (some target) = ltb pow_limit target

module _ ⦃p : Primitives⦄ where
  unfoldable pub validate_header_context :
      BlockHeader → Block → List Block → ℕ → Result ConsensusError (Unit {0})
  validate_header_context header parent parent_history now = do
    fail_if (not (header.version == header_version) || not (header.protocol == protocol_version))
        unsupported_version
    fail_if (not (header.height == wrapping_add parent.header.height 1)) wrong_height
    fail_if (not (bytes_eq header.previous_block (Block.id parent))) wrong_parent
    fail_if
        (not (header.bits == next_bits parent_history) || above_limit (bits_to_target header.bits))
        invalid_target
    fail_if
        (leb header.timestamp parent.header.timestamp
          || leb header.timestamp (median_time_past parent_history))
        invalid_timestamp
    fail_if (ltb (saturating_add now max_future_block_time) header.timestamp) future_timestamp
