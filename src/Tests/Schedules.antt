-- ===== src/Tests/Schedules.antt =====
-- Runs of the subsidy, the RandomX epochs, the targets and the addresses.
use paritr_node.Prelude.{
  ◌+◌, ◌-◌, ◌*◌, ◌/◌, ◌^◌, ◌≤◌, ◌≡◌, arith, ok, panicked, ◌==◌, if◌then◌else◌,
}
use paritr_node.Params.{pow_limit, initial_target, target_block_time, asert_half_life}
use paritr_node.Difficulty.{target_work, required_target, u256_mod}
use paritr_node.Difficulty.Work.{target_work_lem}
use paritr_node.Difficulty.Schedule.{required_target_bounds, required_target_late}
use paritr_node.Tests.Sample.{toy}

target_work_lem_example :
    target_work pow_limit ≡ (if pow_limit == 0 then panicked else ok (u256_mod / (pow_limit + 1)))
target_work_lem_example = target_work_lem pow_limit (omega arith)

required_target_bounds_example :
    (1 ≤ required_target 10 1_000_000 500) × (required_target 10 1_000_000 500 ≤ pow_limit)
required_target_bounds_example = required_target_bounds 10 1_000_000 500

required_target_late_example :
    required_target 10 (500 + (10 - 1) * target_block_time + 2 * asert_half_life) 500
    ≡ initial_target * 2 ^ 2
required_target_late_example = required_target_late 10 2 500 (omega arith) (omega arith)
