-- ===== src/Params/Schedule.antt =====
-- The issuance schedule and the RandomX epochs.
use paritr_node.Prelude.{ℕ, zero, suc, ◌+◌, ◌-◌, ◌*◌, ◌/◌, ◌^◌, ◌≤◌, ◌<◌, ◌≡◌, ◌⊎◌, inl, inr, arith}
use native.Mathlib.Nat.{pow-suc}
use paritr_node.Params.{
  block_subsidy, min_subsidy, initial_subsidy, halving_interval, randomx_seed_reference_height,
  randomx_epoch_blocks, randomx_seed_lag,
}

pow_pos : (k : ℕ) → 0 < 2 ^ k
pow_pos zero = omega arith
pow_pos (suc k) = omega (arith, pow-suc 2 k, pow_pos k)

pow_mono : (j k : ℕ) → 2 ^ j ≤ 2 ^ (j + k)
pow_mono j zero = ground arith
pow_mono j (suc k) =
    let e : j + suc k ≡ suc (j + k) = omega arith in
    rw e (omega (arith, pow-suc 2 (j + k), pow_mono j k))

halved : (p : ℕ) → 0 < p → initial_subsidy / (2 * p) ≤ initial_subsidy / p
halved p h = grind arith

-- From height 1 on the subsidy never rises.
pub block_subsidy_antitone :
    (height : ℕ) → 0 < height → block_subsidy (height + 1) ≤ block_subsidy height
unfolding block_subsidy
block_subsidy_antitone height h =
    let halvings = (height - 1) / halving_interval in
    let next : ((height + 1 - 1) / halving_interval ≡ halvings)
        ⊎ ((height + 1 - 1) / halving_interval ≡ suc halvings) =
      ground arith in
    elim next [
      | inl e ↦ rw e (ground arith)
      | inr e ↦ rw (e, pow-suc) (ground (arith, halved (2 ^ halvings) (pow_pos halvings)))
    ]

-- Above genesis every subsidy lies between half a coin and ten coins.
pub block_subsidy_bounds :
    (height : ℕ)
    → 0 < height
    → (min_subsidy ≤ block_subsidy height) × (block_subsidy height ≤ initial_subsidy)
unfolding block_subsidy
block_subsidy_bounds height h = let pos = pow_pos ((height - 1) / halving_interval) in grind arith

-- The block whose id seeds an epoch lies at least 64 blocks below the height that needs it.
pub seed_reference_below :
    (height : ℕ)
    → randomx_epoch_blocks ≤ height
    → (randomx_seed_reference_height height + randomx_seed_lag ≤ height)
      × (height < randomx_seed_reference_height height + randomx_seed_lag + randomx_epoch_blocks)
unfolding randomx_seed_reference_height
seed_reference_below height h = ground arith

-- No height has a subsidy above ten coins.
pub block_subsidy-le : (height : ℕ) → block_subsidy height ≤ initial_subsidy
unfolding block_subsidy
block_subsidy-le height = let pos = pow_pos ((height - 1) / halving_interval) in grind arith

-- The subsidies of the heights from 1 on, together.
unfoldable pub issued : ℕ → ℕ
issued zero = 0
issued (suc height) = issued height + block_subsidy (suc height)
