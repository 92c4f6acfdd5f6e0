-- ===== src/Params.antt =====
-- src/consensus/params.rs: the constants of Protocol 9, the subsidy and the RandomX epochs.
-- A 256-bit target is a number.
pub mod Schedule
use Prim.Native.String.{String}
use paritr_node.Prelude.{ℕ, ◌+◌, ◌-◌, ◌*◌, ◌/◌, ◌^◌, max, leb, ltb, ◌==◌, if◌then◌else◌}

abbrev pub protocol_version : ℕ
protocol_version = 9

abbrev pub chain_id : String
chain_id = "paritr-mainnet"

abbrev pub header_version : ℕ
header_version = 3

abbrev pub coin : ℕ
coin = 100_000_000

abbrev pub initial_subsidy : ℕ
initial_subsidy = 10 * coin

abbrev pub halving_interval : ℕ
halving_interval = 1_600_000

abbrev pub min_subsidy : ℕ
min_subsidy = coin / 2

abbrev pub finder_share_percent : ℕ
finder_share_percent = 5

abbrev pub reward_window : ℕ
reward_window = 1_440

abbrev pub reward_maturity : ℕ
reward_maturity = 100

abbrev pub target_block_time : ℕ
target_block_time = 64

abbrev pub asert_half_life : ℕ
asert_half_life = 2 * 60 * 60

abbrev pub median_time_span : ℕ
median_time_span = 11

abbrev pub max_future_block_time : ℕ
max_future_block_time = 300

abbrev pub workshare_target_multiplier : ℕ
workshare_target_multiplier = 32

abbrev pub max_workshares_per_block : ℕ
max_workshares_per_block = 512

abbrev pub max_templates_per_block : ℕ
max_templates_per_block = 512

abbrev pub max_workshare_witness_bytes : ℕ
max_workshare_witness_bytes = 4 * 1024 * 1024

abbrev pub max_block_bytes : ℕ
max_block_bytes = 8 * 1024 * 1024

abbrev pub max_block_transactions : ℕ
max_block_transactions = 4_096

abbrev pub max_transaction_bytes : ℕ
max_transaction_bytes = 1_024

abbrev pub max_template_bytes : ℕ
max_template_bytes = 4 * 1024 * 1024

abbrev pub max_money : ℕ
max_money = 2 ^ 62 - 1

abbrev pub randomx_epoch_blocks : ℕ
randomx_epoch_blocks = 2_048

abbrev pub randomx_seed_lag : ℕ
randomx_seed_lag = 64

abbrev pub genesis_timestamp : ℕ
genesis_timestamp = 1_788_984_000

abbrev pub pow_limit : ℕ
pow_limit = 2 ^ 248 - 1

abbrev pub initial_target : ℕ
initial_target = 2 ^ 242 - 1

-- A shift to the right by `halvings` is a division.
unfoldable pub block_subsidy : ℕ → ℕ
block_subsidy height =
    if height == 0
    then 0
    else let halvings = (height - 1) / halving_interval in
      if leb 64 halvings then min_subsidy else max (initial_subsidy / 2 ^ halvings) min_subsidy

unfoldable pub randomx_seed_reference_height : ℕ → ℕ
randomx_seed_reference_height height =
    if ltb height randomx_epoch_blocks
    then 0
    else let epoch_start = height / randomx_epoch_blocks * randomx_epoch_blocks in
      epoch_start - randomx_seed_lag
