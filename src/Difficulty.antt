-- ===== src/Difficulty.antt =====
-- src/consensus/difficulty.rs: compact targets, the ASERT rule, the work of a target. A `U256` or
-- `U512` is a number; where a value could leave 256 bits, that is written out. An `|` of bit fields
-- that do not overlap is a sum, a shift is a product or a quotient by a power of two.
pub mod Work
pub mod Schedule
use paritr_node.Prelude.{
  ℕ, zero, suc, ◌+◌, ◌-◌, ◌*◌, ◌/◌, ◌%◌, ◌^◌, min, max, Bool, true, false, ◌||◌, not, Option, none,
  some, List, [], ◌∷◌, ltb, leb, ◌==◌, if◌then◌else◌, length, get_last?, Result, ok, panicked,
}
use paritr_node.Errors.{ConsensusError}
use paritr_node.Prelude.Int.{ℤ, pos, negsuc, sub_ℕ, scale, div_euclid, rem_euclid}
use mathlib.Core.List.{reverse}
use paritr_node.Codec.{Bytes, to_le_bytes, from_le_bytes}
use paritr_node.Params.{
  initial_target, pow_limit, target_block_time, asert_half_life, workshare_target_multiplier,
}
use paritr_node.Types.BlockHeader.{BlockHeader}
use paritr_node.Types.Block.{Block}

abbrev pub u256_mod : ℕ
u256_mod = 2 ^ 256

abbrev pub u256_max : ℕ
u256_max = 2 ^ 256 - 1

abbrev pub to_big_endian : ℕ → Bytes
to_big_endian v = reverse (to_le_bytes 32 v)

-- `&bytes[first..]`, from the first byte that is not 0.
unfoldable pub significant_bytes : Bytes → Bytes
significant_bytes [] = []
significant_bytes (b ∷ bs) = let rest = significant_bytes bs in if b == 0 then rest else b ∷ bs

-- `significant.get(i).map_or(0, ..)`
abbrev pub byte_or_zero : Bytes → ℕ → ℕ
byte_or_zero [] i = 0
byte_or_zero (b ∷ bs) zero = b
byte_or_zero (b ∷ bs) (suc i) = byte_or_zero bs i

-- The size byte and the mantissa, from the significant bytes.
unfoldable pub compact : Bytes → ℕ
compact bs =
    let first = byte_or_zero bs 0 in
    if leb 0x80 first
    then (length bs + 1) * 2 ^ 24 + (first * 2 ^ 8 + byte_or_zero bs 1)
    else length bs * 2 ^ 24 + (first * 2 ^ 16 + byte_or_zero bs 1 * 2 ^ 8 + byte_or_zero bs 2)

unfoldable pub target_to_bits : ℕ → ℕ
unfolding significant_bytes compact
target_to_bits target =
    if target == 0 then 0 else compact (significant_bytes (to_big_endian target))

-- The value of a size and a mantissa.
abbrev pub expand : ℕ → ℕ → ℕ
expand size word =
    if leb size 3 then word / 2 ^ (8 * (3 - size)) else word * 2 ^ (8 * (size - 3)) % u256_mod

unfoldable pub bits_to_target : ℕ → Option ℕ
unfolding target_to_bits
bits_to_target bits =
    let size = bits / 2 ^ 24 in
    let word = bits % 2 ^ 23 in
    if word == 0
      || (not (bits / 2 ^ 23 % 2 == 0)
          || (size == 0 || (ltb 33 size || (if size == 33 then ltb 0xffff word else false))))
    then none
    else if target_to_bits (expand size word) == bits
    then some (expand size word)
    else none

-- `65_536 + ((.. * fraction + .. + (1 << 47)) >> 48)`
unfoldable pub asert_factor : ℕ → ℕ
asert_factor fraction =
    65_536
    + (195_766_423_245_049 * fraction
        + 971_821_376 * fraction * fraction
        + 5_127 * fraction * fraction * fraction
        + 2 ^ 47)
      / 2 ^ 48

-- `u512_to_u256_clamped`
abbrev pub clamped : ℕ → ℕ → ℕ
clamped value maximum = if ltb u256_max value then maximum else min value maximum

-- The target after a shift by the whole half-lives.
unfoldable pub shifted_target : ℕ → ℤ → ℕ
shifted_target target (negsuc n) = max (clamped (target / 2 ^ min (n + 1) 511) pow_limit) 1
shifted_target target (pos n) =
    if leb 256 n
    then pow_limit
    else if ltb (pow_limit / 2 ^ n) target
    then pow_limit
    else max (clamped (target * 2 ^ n) pow_limit) 1

-- In 1 / 65536 of a half-life: how far the branch is behind its schedule.
unfoldable pub asert_exponent : ℕ → ℕ → ℕ → ℤ
unfolding scale div_euclid
asert_exponent parent_height parent_timestamp launch_timestamp =
    let ideal_elapsed = (parent_height - 1) * target_block_time in
    let drift = sub_ℕ parent_timestamp (launch_timestamp + ideal_elapsed) in
    div_euclid (scale drift 65_536) asert_half_life

unfoldable pub required_target : ℕ → ℕ → ℕ → ℕ
unfolding asert_exponent asert_factor shifted_target div_euclid rem_euclid
required_target parent_height parent_timestamp launch_timestamp =
    if leb parent_height 1
    then initial_target
    else let exponent = asert_exponent parent_height parent_timestamp launch_timestamp in
      let factor = asert_factor (rem_euclid exponent 65_536) in
      shifted_target (initial_target * factor / 2 ^ 16) (div_euclid exponent 65_536)

unfoldable pub required_bits : ℕ → ℕ → ℕ → ℕ
required_bits parent_height parent_timestamp launch_timestamp =
    target_to_bits (required_target parent_height parent_timestamp launch_timestamp)

-- `history.get(1).map_or(parent.header.timestamp, ..)`
abbrev pub launch_of : List Block → ℕ → ℕ
launch_of (genesis ∷ first ∷ rest) default_time = first.header.timestamp
launch_of _ default_time = default_time

unfoldable pub next_bits : List Block → ℕ
unfolding required_bits
next_bits history = elim (get_last? history) [
  | none ↦ target_to_bits initial_target
  | some parent ↦
      required_bits parent.header.height parent.header.timestamp
        (launch_of history parent.header.timestamp)
]

unfoldable pub workshare_bits : ℕ → Option ℕ
workshare_bits block_bits = elim (bits_to_target block_bits) [
  | none ↦ none
  | some block_target ↦
      some (target_to_bits (max (clamped (block_target * workshare_target_multiplier) u256_max) 1))
]

-- `(!target / (target + U256::one())) + U256::one()`, a sum of `U256`, which panics when it overflows.
-- The inner sum does not, below the largest target.
unfoldable pub target_work : ℕ → Result ConsensusError ℕ
target_work target =
    if target == u256_max
    then ok 1
    else let work = (u256_max - target) / (target + 1) + 1 in
      if ltb work u256_mod then ok work else panicked

-- `U256::from_little_endian(&hash) <= target`
unfoldable pub hash_meets_target : Bytes → ℕ → Bool
hash_meets_target hash target = leb (from_le_bytes hash) target
