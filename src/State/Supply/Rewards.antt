-- ===== src/State/Supply/Rewards.antt =====
-- Scheduled rewards.
use paritr_node.Prelude.{
  ℕ, ◌+◌, ◌≤◌, ◌≡◌, refl, arith, ok, inl, inr, Bool-cases, ◌==◌, if◌then◌else◌,
}
use paritr_node.Prelude.Order.{numbered_ord}
use paritr_node.OrderedMap.Sorted.{insert-IsSorted, remove-IsSorted}
use paritr_node.OrderedMap.Sum.{sum-insert, sum-remove, amount-le-sum}
use paritr_node.Crypto.{Primitives}
use paritr_node.Params.{max_money}
use paritr_node.State.Ledger.{
  LedgerState, RewardKey, schedule_reward, set_reward, drop_reward, reward_at,
}
use paritr_node.State.Supply.{total_pending, IsOrdered}

module _ ⦃p : Primitives⦄ where
  pub schedule_reward-eq-ok :
      (k : RewardKey) (x : ℕ) (s : LedgerState) {s' : LedgerState}
      → schedule_reward k x s ≡ ok s'
      → s' ≡ (if x == 0 then s else set_reward k (reward_at k s + x) s)
  unfolding schedule_reward
  schedule_reward-eq-ok k x s h = elim (Bool-cases (x == 0)) [
    | inl nothing ↦ ground arith
    | inr amount ↦ ground arith
  ]

  set_reward_moves :
      (k : RewardKey) (x : ℕ) (s : LedgerState)
      → IsOrdered s
      → IsOrdered (set_reward k (reward_at k s + x) s)
        × (total_pending (set_reward k (reward_at k s + x) s) ≡ total_pending s + x)
  set_reward_moves k x s h =
      let next = reward_at k s + x in
      (
        record {
          accounts = h.accounts;
          pending = insert-IsSorted k next s.pending_rewards h.pending;
        },
        omega (arith, sum-insert (λ (v : ℕ). v) k next s.pending_rewards h.pending),
      )

  -- A scheduled reward adds its amount to the pending sum, and touches no account.
  pub schedule_reward_moves :
      (k : RewardKey) (x : ℕ) (s s' : LedgerState)
      → IsOrdered s
      → schedule_reward k x s ≡ ok s'
      → IsOrdered s' × (total_pending s' ≡ total_pending s + x) × (s'.accounts ≡ s.accounts)
  schedule_reward_moves k x s s' h e =
      let (ordered, moved) = set_reward_moves k x s h in
      let same = schedule_reward-eq-ok k x s e in
      elim (Bool-cases (x == 0)) [
        | inl nothing ↦ rw (same, nothing) (h, ground arith, refl)
        | inr amount ↦ rw (same, amount) (ordered, moved, refl)
      ]

  pub schedule_reward-ok :
      (k : RewardKey) (x : ℕ) (s : LedgerState)
      → total_pending s + x ≤ max_money
      → (s' : LedgerState) × (schedule_reward k x s ≡ ok s')
  unfolding schedule_reward
  schedule_reward-ok k x s h = elim (Bool-cases (x == 0)) [
    | inl nothing ↦ (s, ground arith)
    | inr some_amount ↦ (
      set_reward k (reward_at k s + x) s,
      ground (arith, amount-le-sum (λ (v : ℕ). v) k s.pending_rewards),
    )
  ]

  pub drop_reward_moves :
      (k : RewardKey) (s : LedgerState)
      → IsOrdered s
      → IsOrdered (drop_reward k s)
        × (total_pending (drop_reward k s) + reward_at k s ≡ total_pending s)
  drop_reward_moves k s h = (
    record { accounts = h.accounts; pending = remove-IsSorted k s.pending_rewards h.pending },
    sum-remove (λ v. v) k s.pending_rewards h.pending,
  )
