-- ===== src/State/Supply.antt =====
-- Where the money of the ledger is: each operation moves the sum of the balances and of the pending
-- rewards by a known amount, and keeps both maps in order.
pub mod Accounts
pub mod Rewards
pub mod Maturity
use paritr_node.Prelude.{ℕ, ◌+◌}
use paritr_node.Prelude.Order.{bytes_ord, numbered_ord}
use paritr_node.OrderedMap
use paritr_node.State.Ledger.{LedgerState}

abbrev pub total_balance : LedgerState → ℕ
total_balance s = OrderedMap.sum_values (λ a. a.balance) s.accounts

abbrev pub total_pending : LedgerState → ℕ
total_pending s = OrderedMap.sum_values (λ v. v) s.pending_rewards

abbrev pub supply : LedgerState → ℕ
supply s = total_balance s + total_pending s

pub record IsOrdered (s : LedgerState) : Type 0 where
  pub accounts : OrderedMap.IsSorted s.accounts
  pub pending : OrderedMap.IsSorted s.pending_rewards
