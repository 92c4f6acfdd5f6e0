-- ===== src/Tests/Ledgers.antt =====
-- Runs of the ledger's operations, of the transactions and of the reward allocation.
use paritr_node.Prelude.{ℕ, ◌+◌, ◌≡◌, ◌≤◌, refl, arith, [], ◌∷◌, List, Result, ok}
use paritr_node.OrderedMap
use paritr_node.Params.{block_subsidy}
use paritr_node.State.Ledger.{
  LedgerState, empty_ledger, set_account, credit, debit, schedule_reward, mature, matured,
}
use paritr_node.State.Supply.{IsOrdered, supply, total_balance, total_pending}
use paritr_node.State.Supply.Rewards.{schedule_reward_moves}
use paritr_node.State.Supply.Maturity.{mature_moves}
use paritr_node.Rewards.{RewardAllocation, reward_allocation, window_weights}
use paritr_node.Rewards.Exact.Allocation.{paid_out, reward_allocation_exact}
use paritr_node.Rewards.Exact.Success.{reward_allocation-ok}
use paritr_node.Validation.Apply.{apply_transactions}
use paritr_node.Validation.Money.{apply_transactions_moves}
use paritr_node.Tests.Sample.{toy, value_of, alice, bob, funded, payment, genesis_history}

funded_order : IsOrdered funded
unfolding set_account OrderedMap.insert
funded_order = record { accounts = (tt, tt); pending = tt }

abbrev credited : LedgerState
credited = value_of empty_ledger (credit bob 5 funded)

credit_ok : credit bob 5 funded ≡ ok credited
unfolding credit OrderedMap.lookup set_account OrderedMap.insert paritr_node.Prelude.Order.cmp_bytes
    paritr_node.Crypto.from_public_key_hash paritr_node.Crypto.from_public_key
credit_ok = refl

abbrev debited : LedgerState
debited = value_of empty_ledger (debit alice 5 funded)

debit_ok : debit alice 5 funded ≡ ok debited
unfolding debit OrderedMap.lookup set_account OrderedMap.insert paritr_node.Prelude.Order.cmp_bytes
    paritr_node.Crypto.from_public_key
debit_ok = refl

abbrev scheduled : LedgerState
scheduled = value_of empty_ledger (schedule_reward (7, bob) 30 funded)

schedule_ok : schedule_reward (7, bob) 30 funded ≡ ok scheduled
unfolding schedule_reward OrderedMap.lookup set_account
schedule_ok = refl

scheduled_moves :
    IsOrdered scheduled
    × (total_pending scheduled ≡ total_pending funded + 30)
    × (scheduled.accounts ≡ funded.accounts)
scheduled_moves = schedule_reward_moves (7, bob) 30 funded scheduled funded_order schedule_ok

scheduled_order : IsOrdered scheduled
scheduled_order = scheduled_moves.0

abbrev after_maturity : LedgerState
after_maturity = value_of empty_ledger (mature 7 scheduled)

mature_ok : mature 7 scheduled ≡ ok after_maturity
unfolding mature schedule_reward OrderedMap.lookup set_account OrderedMap.insert
    paritr_node.Prelude.Order.cmp_numbered paritr_node.Prelude.Order.cmp_bytes
    paritr_node.Crypto.from_public_key_hash paritr_node.Crypto.from_public_key
mature_ok = refl

mature_moves_example :
    IsOrdered after_maturity
    × (supply after_maturity ≡ supply scheduled)
    × (total_pending after_maturity + OrderedMap.sum_values (λ v. v) (matured 7 scheduled)
        ≡ total_pending scheduled)
mature_moves_example = mature_moves 7 scheduled after_maturity scheduled_order mature_ok

abbrev spent : LedgerState × ℕ
spent = value_of (empty_ledger, 0) (apply_transactions (payment ∷ []) funded)

apply_ok : apply_transactions (payment ∷ []) funded ≡ ok spent
unfolding apply_transactions paritr_node.Prelude.Order.cmp_bytes paritr_node.Crypto.from_public_key
    paritr_node.Types.Transaction.encode_to paritr_node.Codec.to_le_bytes
    paritr_node.State.Ledger.account_of OrderedMap.lookup set_account OrderedMap.insert
    paritr_node.Crypto.parse_and_validate_signature debit credit
apply_ok = refl

apply_transactions_moves_example :
    IsOrdered spent.0
    × (total_balance spent.0 + spent.1 ≡ total_balance funded)
    × (spent.0.pending_rewards ≡ funded.pending_rewards)
apply_transactions_moves_example =
    apply_transactions_moves (payment ∷ []) funded spent.0 spent.1 funded_order apply_ok

abbrev allocation : RewardAllocation
allocation = record { finder_amount = 1_000_000_010; workshare_rewards = [] }

allocation_ok : reward_allocation 1 bob 10 genesis_history ≡ ok allocation
unfolding reward_allocation block_subsidy paritr_node.Validation.Whole.genesis_block
allocation_ok = refl

reward_allocation_exact_example : paid_out allocation ≡ block_subsidy 1 + 10
reward_allocation_exact_example =
    reward_allocation_exact 1 bob 10 genesis_history allocation allocation_ok

no_weights : window_weights genesis_history ≡ ok []
unfolding window_weights paritr_node.Validation.Whole.genesis_block
no_weights = refl

reward_allocation-ok_example :
    (r : RewardAllocation) × (reward_allocation 1 bob 10 genesis_history ≡ ok r)
    × (paid_out r ≡ block_subsidy 1 + 10)
reward_allocation-ok_example =
    reward_allocation-ok 1 bob 10 genesis_history [] (omega arith) no_weights (omega arith)
