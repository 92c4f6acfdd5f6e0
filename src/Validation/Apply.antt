-- ===== src/Validation/Apply.antt =====
-- `apply_transactions` and `transition_for_candidate`.
use paritr_node.Prelude.{
  ℕ, ◌||◌, not, List, [], ◌∷◌, ◌==◌, ltb, any, length, checked_add, Result, ok, ◌>>=◌, ◌>>◌, ok_or,
  fail_if, map_err,
}
use paritr_node.Prelude.Order.{bytes_eq}
use paritr_node.Crypto.{Primitives, Address, Hash32, parse_and_validate_signature}
use paritr_node.Errors.{
  ConsensusError, crypto, invalid_transaction, duplicate_transaction, invalid_nonce, money_range,
  insufficient_balance, arithmetic_overflow, reward_mismatch, size_limit,
}
use paritr_node.Params.{max_money, max_transaction_bytes, max_block_transactions, reward_maturity}
use paritr_node.Types.Transaction
use paritr_node.Types.Transaction.{Transaction}
use paritr_node.Types.RewardClaim.{RewardClaim}
use paritr_node.Types.Block.{Block}
use paritr_node.State.Ledger.{
  LedgerState, account_of, credit, debit, set_nonce, schedule_reward, mature, in_money_range,
}
use paritr_node.Rewards.{RewardAllocation, reward_allocation}

-- `seen: BTreeSet<Hash32>`
abbrev pub Seen : Type 0
Seen = List Hash32

module _ ⦃p : Primitives⦄ where
  unfoldable pub validate_transaction_structure : Transaction → Result ConsensusError (Unit {0})
  validate_transaction_structure t =
      fail_if
        (not (t.version == Transaction.current_version)
          || (t.amount == 0
              || (ltb max_money t.amount
                  || (ltb max_money t.fee
                      || (bytes_eq t.sender t.recipient
                          || (not (length t.public_key == 33 || length t.public_key == 65)
                              || (not (length t.signature == 64)
                                  || ltb max_transaction_bytes (Transaction.encoded_len t))))))))
        invalid_transaction

  -- The body of the loop, after the structure and the identifier: the guards on the account.
  unfoldable pub check_account : Transaction → LedgerState → Result ConsensusError ℕ
  check_account t s = do
    fail_if (not (t.nonce == (account_of s t.sender).nonce)) invalid_nonce
    total ← ok_or (checked_add t.amount t.fee) money_range
    fail_if (ltb (account_of s t.sender).balance total) insufficient_balance
    fail_if (not (length t.signature == 64)) invalid_transaction
    map_err crypto (
        parse_and_validate_signature t.sender t.public_key t.signature
          (Transaction.signature_hash t))
    ok total

  -- The body of the loop, last part: the money moves and the nonce advances.
  unfoldable pub move_money : Transaction → ℕ → LedgerState → Result ConsensusError LedgerState
  move_money t total s = do
    debited ← debit t.sender total s
    credited ← credit t.recipient t.amount debited
    next ← ok_or (checked_add t.nonce 1) arithmetic_overflow
    ok (set_nonce t.sender next credited)

  -- The loop, with the identifiers seen, the fees and the state so far.
  unfoldable pub apply_each :
      List Transaction → Seen → ℕ → LedgerState → Result ConsensusError (LedgerState × ℕ)
  unfolding validate_transaction_structure check_account move_money
  apply_each [] seen fees s = ok (s, fees)
  apply_each (t ∷ rest) seen fees s = do
    validate_transaction_structure t
    fail_if (any (bytes_eq (Transaction.id t)) seen) duplicate_transaction
    total ← check_account t s
    s' ← move_money t total s
    fees' ← ok_or (in_money_range (checked_add fees t.fee)) money_range
    apply_each rest (Transaction.id t ∷ seen) fees' s'

  unfoldable pub apply_transactions :
      List Transaction → LedgerState → Result ConsensusError (LedgerState × ℕ)
  unfolding apply_each
  apply_transactions transactions s = apply_each transactions [] 0 s

  -- `for (recipient, amount) in &allocation.workshare_rewards`
  unfoldable pub schedule_each :
      ℕ → List (Address × ℕ) → LedgerState → Result ConsensusError LedgerState
  schedule_each maturity [] s = ok s
  schedule_each maturity ((recipient, amount) ∷ rest) s = do
    s' ← schedule_reward (maturity, recipient) amount s
    schedule_each maturity rest s'

  unfoldable pub transition_for_candidate :
      ℕ
      → RewardClaim
      → List Transaction
      → List Block
      → LedgerState
      → Result ConsensusError (LedgerState × (RewardAllocation × ℕ))
  unfolding apply_transactions schedule_each
  transition_for_candidate height claim transactions parent_history parent_state = do
    matured ← mature height parent_state
    (spent, fees) ← apply_transactions transactions matured
    allocation ← reward_allocation height claim.finder fees parent_history
    fail_if (not (claim.amount == allocation.finder_amount)) reward_mismatch
    maturity ← ok_or (checked_add height reward_maturity) arithmetic_overflow
    paid ← schedule_reward (maturity, claim.finder) allocation.finder_amount spent
    post ← schedule_each maturity allocation.workshare_rewards paid
    ok (post, (allocation, fees))

  unfoldable pub validate_template_transactions :
      List Transaction → LedgerState → ℕ → Result ConsensusError (Unit {0})
  unfolding apply_transactions
  validate_template_transactions transactions parent_state height = do
    fail_if (ltb max_block_transactions (length transactions)) size_limit
    matured ← mature height parent_state
    (post, fees) ← apply_transactions transactions matured
    ok tt
