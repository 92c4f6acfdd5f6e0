-- ===== src/Difficulty/Schedule.antt =====
-- The ASERT rule: its bounds, and its values on schedule and whole half-lives off it.
use paritr_node.Prelude.{
  ℕ, zero, suc, ◌+◌, ◌-◌, ◌*◌, ◌/◌, ◌%◌, ◌^◌, ◌≤◌, ◌<◌, ◌≡◌, refl, arith, false, inl, inr,
  Bool-cases, leb,
}
use paritr_node.Prelude.Int.{ℤ, pos, negsuc, scale, div_euclid, rem_euclid}
use paritr_node.Params.{initial_target, pow_limit, target_block_time, asert_half_life}
use paritr_node.Difficulty.{required_target, shifted_target, asert_exponent, asert_factor}

shifted_target_bounds :
    (target : ℕ) (e : ℤ) → (1 ≤ shifted_target target e) × (shifted_target target e ≤ pow_limit)
unfolding shifted_target
shifted_target_bounds target (pos n) = ground arith
shifted_target_bounds target (negsuc n) = ground arith

-- The target lies between 1 and the limit of the protocol, whatever the heights and timestamps.
pub required_target_bounds :
    (height time launch : ℕ)
    → (1 ≤ required_target height time launch) × (required_target height time launch ≤ pow_limit)
unfolding required_target
required_target_bounds height time launch = elim (Bool-cases (leb height 1)) [
  | inl early ↦ rw early (omega arith)
  | inr later ↦
      let e = asert_exponent height time launch in
      rw later (
        shifted_target_bounds (initial_target * asert_factor (rem_euclid e 65_536) / 2 ^ 16)
          (div_euclid e 65_536))
]

-- Whole half-lives: the exponent has no fraction, and as many shifts as half-lives.
late_exponent :
    (height k launch : ℕ)
    → asert_exponent height (launch + (height - 1) * target_block_time + k * asert_half_life) launch
      ≡ pos (k * 65_536)
unfolding asert_exponent scale div_euclid
late_exponent height k launch = ground arith

doubled : (k : ℕ) → k ≤ 6 → shifted_target initial_target (pos k) ≡ initial_target * 2 ^ k
unfolding shifted_target
doubled zero h = refl
doubled (suc zero) h = refl
doubled (suc (suc zero)) h = refl
doubled (suc (suc (suc zero))) h = refl
doubled (suc (suc (suc (suc zero)))) h = refl
doubled (suc (suc (suc (suc (suc zero))))) h = refl
doubled (suc (suc (suc (suc (suc (suc zero)))))) h = refl
doubled (suc (suc (suc (suc (suc (suc (suc k))))))) h = absurd (omega arith)

-- Above height 1, a branch that is `k` half-lives late, `k` at most 6, has 2^k times the initial
-- target. At `k = 0` it is on schedule.
pub required_target_late :
    (height k launch : ℕ)
    → 1 < height
    → k ≤ 6
    → required_target height
        (launch + (height - 1) * target_block_time + k * asert_half_life)
        launch
      ≡ initial_target * 2 ^ k
unfolding required_target
required_target_late height k launch h small =
    let later : leb height 1 ≡ false = ground arith in
    let whole : k * 65_536 / 65_536 ≡ k = omega arith in
    let fraction : k * 65_536 % 65_536 ≡ 0 = omega arith in
    rw (late_exponent height k launch, later, whole, fraction) (doubled k small)
