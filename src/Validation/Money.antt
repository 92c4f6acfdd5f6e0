-- ===== src/Validation/Money.antt =====
-- Where the money goes in a block: transactions move it and set the fees aside, the rewards pay out
-- the fees and the subsidy, and nothing else changes the sum.
use paritr_node.Prelude.{
  ℕ, ◌+◌, ◌≡◌, refl, arith, not, List, [], ◌∷◌, ◌==◌, ltb, any, length, checked_add, ok, >>-eq-ok,
  >>=-eq-ok, ok_or, map_err, map_err-eq-ok, then-eq-ok, sym, ◌∙◌, ◌≤◌,
}
use mathlib.Core.Path.{subst}
use paritr_node.Prelude.Order.{bytes_eq}
use paritr_node.Crypto.{Primitives, Address, parse_and_validate_signature}
use paritr_node.Errors.{crypto}
use paritr_node.Params.{block_subsidy, reward_maturity}
use paritr_node.Types.Transaction
use paritr_node.Types.Transaction.{Transaction}
use paritr_node.Types.RewardClaim.{RewardClaim}
use paritr_node.Types.Block.{Block}
use paritr_node.State.Ledger.{
  LedgerState, account_of, credit, debit, set_nonce, in_money_range, schedule_reward, mature,
}
use paritr_node.State.Supply.{total_balance, total_pending, supply, IsOrdered}
use paritr_node.State.Supply.Accounts.{credit_moves, debit_moves, set_nonce_moves}
use paritr_node.State.Supply.Rewards.{schedule_reward_moves}
use paritr_node.State.Supply.Maturity.{mature_moves}
use paritr_node.Rewards.{RewardAllocation, reward_allocation}
use paritr_node.Rewards.Exact.Sorting.{paid}
use paritr_node.Rewards.Exact.Totals.{ok-injective}
use paritr_node.Rewards.Exact.Allocation.{paid_out, reward_allocation_exact}
use paritr_node.Validation.Apply.{
  Seen, check_account, move_money, apply_each, apply_transactions, schedule_each,
  transition_for_candidate, validate_transaction_structure,
}

module _ ⦃p : Primitives⦄ where
  pub check_account-eq-ok :
      (t : Transaction) (s : LedgerState) (total : ℕ)
      → check_account t s ≡ ok total
      → (total ≡ t.amount + t.fee)
        × (t.nonce ≡ (account_of s t.sender).nonce)
        × (total ≤ (account_of s t.sender).balance)
        × (parse_and_validate_signature t.sender t.public_key t.signature
              (Transaction.signature_hash t)
            ≡ ok tt)
  unfolding check_account
  check_account-eq-ok t s total h =
      let (nonce, rest) = >>-eq-ok (not (t.nonce == (account_of s t.sender).nonce)) _ _ h in
      let (debit, added, rest) = >>=-eq-ok (ok_or (checked_add t.amount t.fee) _) _ rest in
      let (funded, rest) = >>-eq-ok (ltb (account_of s t.sender).balance debit) _ _ rest in
      let (width, rest) = >>-eq-ok (not (length t.signature == 64)) _ _ rest in
      let signature =
        parse_and_validate_signature t.sender t.public_key t.signature
          (Transaction.signature_hash t) in
      let (signed, done) = then-eq-ok (map_err crypto signature) (ok debit) rest in
      let same : debit ≡ total = ok-injective done in
      (
        ground arith,
        ground arith,
        rw (sym same) (ground arith),
        map_err-eq-ok crypto signature signed,
      )

  pub move_money_moves :
      (t : Transaction) (total : ℕ) (s s' : LedgerState)
      → IsOrdered s
      → move_money t total s ≡ ok s'
      → IsOrdered s'
        × (total_balance s' + total ≡ total_balance s + t.amount)
        × (s'.pending_rewards ≡ s.pending_rewards)
  unfolding move_money
  move_money_moves t total s s' h e =
      let (debited, first, rest) = >>=-eq-ok (debit t.sender total s) _ e in
      let (credited, second, rest) = >>=-eq-ok (credit t.recipient t.amount debited) _ rest in
      let (next, third, done) = >>=-eq-ok (ok_or (checked_add t.nonce 1) _) _ rest in
      let (ordered, left, same) = debit_moves t.sender total s debited h first in
      let (ordered', got, same') =
        credit_moves t.recipient t.amount debited credited ordered second in
      let (ordered'', kept, same'') = set_nonce_moves t.sender next credited ordered' in
      let last : set_nonce t.sender next credited ≡ s' = ok-injective done in
      rw (sym last) (ordered'', omega (arith, left, got, kept), same'' ∙ same' ∙ same)

  pub apply_each_moves :
      (ts : List Transaction) (seen : Seen) (fees fees' : ℕ) (s s' : LedgerState)
      → IsOrdered s
      → apply_each ts seen fees s ≡ ok (s', fees')
      → IsOrdered s'
        × (total_balance s' + fees' ≡ total_balance s + fees)
        × (s'.pending_rewards ≡ s.pending_rewards)
  unfolding apply_each
  apply_each_moves [] seen fees fees' s s' h e =
      let same : s' ≡ s = cc in
      let same_fees : fees' ≡ fees = cc in rw (same, same_fees) (h, refl, refl)
  apply_each_moves (t ∷ ts) seen fees fees' s s' h e =
      let (formed, rest) = then-eq-ok (validate_transaction_structure t) _ e in
      let (fresh, rest) = >>-eq-ok (any (bytes_eq (Transaction.id t)) seen) _ _ rest in
      let (total, checked, rest) = >>=-eq-ok (check_account t s) _ rest in
      let (s1, moved, rest) = >>=-eq-ok (move_money t total s) _ rest in
      let (fees1, added, rest) =
        >>=-eq-ok (ok_or (in_money_range (checked_add fees t.fee)) _) _ rest in
      let (sum, _, _, _) = check_account-eq-ok t s total checked in
      let (ordered, flow, same) = move_money_moves t total s s1 h moved in
      let (ordered', flow', same') =
        apply_each_moves ts (Transaction.id t ∷ seen) fees1 fees' s1 s' ordered rest in
      let more : fees1 ≡ fees + t.fee = ground arith in
      (ordered', omega (arith, flow, flow', sum, more), same' ∙ same)

  -- Transactions that apply take exactly their fees out of the balances; they touch no pending
  -- reward, and the maps stay in order.
  pub apply_transactions_moves :
      (ts : List Transaction) (s s' : LedgerState) (fees : ℕ)
      → IsOrdered s
      → apply_transactions ts s ≡ ok (s', fees)
      → IsOrdered s'
        × (total_balance s' + fees ≡ total_balance s)
        × (s'.pending_rewards ≡ s.pending_rewards)
  unfolding apply_transactions
  apply_transactions_moves ts s s' fees h e =
      let (ordered, flow, same) = apply_each_moves ts [] 0 fees s s' h e in
      (ordered, omega (arith, flow), same)

  pub schedule_each_moves :
      (maturity : ℕ) (rewards : List (Address × ℕ)) (s s' : LedgerState)
      → IsOrdered s
      → schedule_each maturity rewards s ≡ ok s'
      → IsOrdered s'
        × (total_pending s' ≡ total_pending s + paid rewards)
        × (s'.accounts ≡ s.accounts)
  unfolding schedule_each
  schedule_each_moves maturity [] s s' h e =
      let same : s' ≡ s = cc in rw same (h, omega arith, refl)
  schedule_each_moves maturity ((a, x) ∷ rewards) s s' h e =
      let (s1, first, rest) = >>=-eq-ok (schedule_reward (maturity, a) x s) _ e in
      let (ordered, sum, same) = schedule_reward_moves (maturity, a) x s s1 h first in
      let (ordered', sum', same') = schedule_each_moves maturity rewards s1 s' ordered rest in
      (ordered', omega (arith, sum, sum'), same' ∙ same)

  -- The states that a successful transition went through.
  pub record TransitionSteps (height : ℕ) (claim : RewardClaim) (ts : List Transaction)
      (history : List Block) (parent post : LedgerState) (allocation : RewardAllocation) (fees : ℕ)
      : Type 0 where
    pub matured : LedgerState
    pub spent : LedgerState
    pub scheduled : LedgerState
    pub matured_eq : mature height parent ≡ ok matured
    pub spent_eq : apply_transactions ts matured ≡ ok (spent, fees)
    pub allocation_eq : reward_allocation height claim.finder fees history ≡ ok allocation
    pub claimed : claim.amount ≡ allocation.finder_amount
    pub scheduled_eq :
        schedule_reward (height + reward_maturity, claim.finder) allocation.finder_amount spent
        ≡ ok scheduled
    pub post_eq :
        schedule_each (height + reward_maturity) allocation.workshare_rewards scheduled ≡ ok post

  module _ (height : ℕ) (claim : RewardClaim) (ts : List Transaction) (history : List Block) where
    pub transition-eq-ok :
        (parent post : LedgerState) (allocation : RewardAllocation) (fees : ℕ)
        → transition_for_candidate height claim ts history parent ≡ ok (post, (allocation, fees))
        → TransitionSteps height claim ts history parent post allocation fees
    unfolding transition_for_candidate
    transition-eq-ok parent post allocation fees e =
        let (matured, first, rest) = >>=-eq-ok (mature height parent) _ e in
        let ((spent, fees'), second, rest) = >>=-eq-ok (apply_transactions ts matured) _ rest in
        let (r, third, rest) =
          >>=-eq-ok (reward_allocation height claim.finder fees' history) _ rest in
        let (claimed, rest) = >>-eq-ok (not (claim.amount == r.finder_amount)) _ _ rest in
        let (maturity, fourth, rest) =
          >>=-eq-ok (ok_or (checked_add height reward_maturity) _) _ rest in
        let (scheduled, fifth, rest) =
          >>=-eq-ok (schedule_reward (maturity, claim.finder) r.finder_amount spent) _ rest in
        let (last, sixth, done) =
          >>=-eq-ok (schedule_each maturity r.workshare_rewards scheduled) _ rest in
        let at_height : maturity ≡ height + reward_maturity = ground arith in
        let paid_claim : claim.amount ≡ r.finder_amount = ground arith in
        let result : (last, (r, fees')) ≡ (post, (allocation, fees)) = ok-injective done in
        let built : TransitionSteps height claim ts history parent last r fees' = record {
          matured = matured;
          spent = spent;
          scheduled = scheduled;
          matured_eq = first;
          spent_eq = second;
          allocation_eq = third;
          claimed = paid_claim;
          scheduled_eq =
              subst (λ m. schedule_reward (m, claim.finder) r.finder_amount spent ≡ ok scheduled)
                at_height fifth;
          post_eq =
              subst (λ m. schedule_each m r.workshare_rewards scheduled ≡ ok last) at_height sixth;
        } in
        subst
          (λ (x : LedgerState × (RewardAllocation × ℕ)).
            TransitionSteps height claim ts history parent x.0 x.1.0 x.1.1)
          result built

    -- A transition that succeeds creates the subsidy of its height and no other money: the balances and
    -- the pending rewards together grow by exactly that, and the maps stay in order. The claim is the
    -- finder's amount, and the allocation pays the subsidy and the fees.
    pub transition_supply :
        (parent post : LedgerState) (allocation : RewardAllocation) (fees : ℕ)
        → IsOrdered parent
        → transition_for_candidate height claim ts history parent ≡ ok (post, (allocation, fees))
        → IsOrdered post
          × (supply post ≡ supply parent + block_subsidy height)
          × (claim.amount ≡ allocation.finder_amount)
          × (paid_out allocation ≡ block_subsidy height + fees)
    transition_supply parent post allocation fees h e =
        let steps = transition-eq-ok parent post allocation fees e in
        let (ordered, kept, _) = mature_moves height parent steps.matured h steps.matured_eq in
        let (ordered, flow, same) =
          apply_transactions_moves ts steps.matured steps.spent fees ordered steps.spent_eq in
        let (ordered, reward, same') =
          schedule_reward_moves (height + reward_maturity, claim.finder) allocation.finder_amount
            steps.spent steps.scheduled ordered steps.scheduled_eq in
        let (ordered, rewards, same'') =
          schedule_each_moves (height + reward_maturity) allocation.workshare_rewards
            steps.scheduled post ordered steps.post_eq in
        let exact =
          reward_allocation_exact height claim.finder fees history allocation steps.allocation_eq in
        let balances : total_balance post ≡ total_balance steps.spent =
          ground (arith, same', same'') in
        let pending : total_pending steps.spent ≡ total_pending steps.matured =
          ground (arith, same) in
        (
          ordered,
          omega (arith, kept, flow, reward, rewards, exact, balances, pending),
          steps.claimed,
          exact,
        )
