-- ===== src/Node/Issuance.antt =====
-- `scheduled_supply`: the money that the schedule has issued up to a height, as the node shows it.
pub mod Exact
use paritr_node.Prelude.{
  ℕ, zero, suc, ◌-◌, ◌/◌, min, max, ◌==◌, saturating_add, saturating_mul, if◌then◌else◌,
}
use paritr_node.Params.{initial_subsidy, min_subsidy, halving_interval}

-- The loop. A round that is not the last takes a whole interval, so one more round than the height
-- has whole intervals is enough.
unfoldable pub scheduled_from : ℕ → ℕ → ℕ → ℕ → ℕ
scheduled_from zero remaining subsidy total = total
scheduled_from (suc fuel) remaining subsidy total =
    let span = min remaining halving_interval in
    let rest =
      scheduled_from fuel (remaining - span) (max (subsidy / 2) min_subsidy)
        (saturating_add total (saturating_mul span subsidy)) in
    if remaining == 0 then total else rest

unfoldable pub scheduled_supply : ℕ → ℕ
unfolding scheduled_from
scheduled_supply height = scheduled_from (suc (height / halving_interval)) height initial_subsidy 0
