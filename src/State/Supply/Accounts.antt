-- ===== src/State/Supply/Accounts.antt =====
-- Credits, debits and nonces.
use paritr_node.Prelude.{ℕ, ◌+◌, ◌-◌, ◌≤◌, ◌≡◌, arith, if◌then◌else◌, ok}
use paritr_node.Prelude.Order.{bytes_ord, bytes_eq}
use paritr_node.OrderedMap
use paritr_node.OrderedMap.Lookup.{lookup-insert, lookup-remove}
use paritr_node.OrderedMap.Sorted.{insert-IsSorted, remove-IsSorted}
use paritr_node.OrderedMap.Sum.{sum-insert, sum-remove, amount-le-sum}
use paritr_node.Crypto.{Primitives, Address}
use paritr_node.Params.{max_money}
use paritr_node.State.Ledger.{
  Account, LedgerState, account_of, set_account, credit, debit, set_nonce,
}
use paritr_node.State.Supply.{total_balance, IsOrdered}

abbrev balance_of : Account → ℕ
balance_of a = a.balance

amount-account_of :
    (s : LedgerState) (a : Address)
    → (account_of s a).balance ≡ OrderedMap.amount_at balance_of (OrderedMap.lookup a s.accounts)
unfolding account_of
amount-account_of s a = ground arith

-- No account holds more than all accounts together.
pub balance-le-total : (s : LedgerState) (a : Address) → (account_of s a).balance ≤ total_balance s
balance-le-total s a = omega (arith, amount-account_of s a, amount-le-sum balance_of a s.accounts)

module _ ⦃p : Primitives⦄ where
  pub set_account-IsOrdered :
      (a : Address) (v : Account) (s : LedgerState) → IsOrdered s → IsOrdered (set_account a v s)
  unfolding set_account
  set_account-IsOrdered a v s h =
      ground (arith, insert-IsSorted a v s.accounts, remove-IsSorted a s.accounts)

  pub total_balance-set_account :
      (a : Address) (v : Account) (s : LedgerState)
      → IsOrdered s
      → total_balance (set_account a v s) + (account_of s a).balance ≡ total_balance s + v.balance
  unfolding set_account
  total_balance-set_account a v s h = ground (
    arith,
    amount-account_of s a,
    sum-insert balance_of a v s.accounts h.accounts,
    sum-remove balance_of a s.accounts h.accounts,
  )

  pub pending-set_account :
      (a : Address) (v : Account) (s : LedgerState)
      → (set_account a v s).pending_rewards ≡ s.pending_rewards
  unfolding set_account
  pending-set_account a v s = ground arith

  pub account_of-set_account :
      (a b : Address) (v : Account) (s : LedgerState)
      → account_of (set_account a v s) b ≡ (if bytes_eq b a then v else account_of s b)
  unfolding set_account account_of
  account_of-set_account a b v s =
      ground (arith, lookup-insert a b v s.accounts, lookup-remove a b s.accounts)

  -- What a successful credit did.
  pub credit-eq-ok :
      (a : Address) (x : ℕ) (s : LedgerState) {s' : LedgerState}
      → credit a x s ≡ ok s'
      → (s' ≡ set_account a (record (account_of s a) { balance = (account_of s a).balance + x }) s)
        × ((account_of s a).balance + x ≤ max_money)
  unfolding credit
  credit-eq-ok a x s h = ground arith

  pub debit-eq-ok :
      (a : Address) (x : ℕ) (s : LedgerState) {s' : LedgerState}
      → debit a x s ≡ ok s'
      → (s' ≡ set_account a (record (account_of s a) { balance = (account_of s a).balance - x }) s)
        × (x ≤ (account_of s a).balance)
  unfolding debit
  debit-eq-ok a x s h = ground arith

  -- A credit raises the sum of the balances by its amount, and touches no pending reward.
  pub credit_moves :
      (a : Address) (x : ℕ) (s s' : LedgerState)
      → IsOrdered s
      → credit a x s ≡ ok s'
      → IsOrdered s'
        × (total_balance s' ≡ total_balance s + x)
        × (s'.pending_rewards ≡ s.pending_rewards)
  credit_moves a x s s' h e =
      let (same, _) = credit-eq-ok a x s e in
      let v = record (account_of s a) { balance = (account_of s a).balance + x } in
      rw same (
        set_account-IsOrdered a v s h,
        omega (arith, total_balance-set_account a v s h),
        pending-set_account a v s,
      )

  -- A debit lowers the sum of the balances by its amount, and touches no pending reward.
  pub debit_moves :
      (a : Address) (x : ℕ) (s s' : LedgerState)
      → IsOrdered s
      → debit a x s ≡ ok s'
      → IsOrdered s'
        × (total_balance s' + x ≡ total_balance s)
        × (s'.pending_rewards ≡ s.pending_rewards)
  debit_moves a x s s' h e =
      let (same, room) = debit-eq-ok a x s e in
      let v = record (account_of s a) { balance = (account_of s a).balance - x } in
      rw same (
        set_account-IsOrdered a v s h,
        omega (arith, total_balance-set_account a v s h),
        pending-set_account a v s,
      )

  pub set_nonce_moves :
      (a : Address) (n : ℕ) (s : LedgerState)
      → IsOrdered s
      → IsOrdered (set_nonce a n s)
        × (total_balance (set_nonce a n s) ≡ total_balance s)
        × ((set_nonce a n s).pending_rewards ≡ s.pending_rewards)
  unfolding set_nonce
  set_nonce_moves a n s h =
      let v = record (account_of s a) { nonce = n } in
      (
        set_account-IsOrdered a v s h,
        omega (arith, total_balance-set_account a v s h),
        pending-set_account a v s,
      )

  -- A credit within the money range succeeds.
  pub credit-ok :
      (a : Address) (x : ℕ) (s : LedgerState)
      → (account_of s a).balance + x ≤ max_money
      → (s' : LedgerState) × (credit a x s ≡ ok s')
  unfolding credit
  credit-ok a x s h = (
    set_account a (record (account_of s a) { balance = (account_of s a).balance + x }) s,
    ground arith,
  )

  pub debit-ok :
      (a : Address) (x : ℕ) (s : LedgerState)
      → x ≤ (account_of s a).balance
      → (s' : LedgerState) × (debit a x s ≡ ok s')
  unfolding debit
  debit-ok a x s h = (
    set_account a (record (account_of s a) { balance = (account_of s a).balance - x }) s,
    ground arith,
  )
