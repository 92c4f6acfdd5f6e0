-- ===== src/State/Supply/Maturity.antt =====
-- `mature`: pending rewards of one height become balances.

use mathlib.Core.Path.{subst}
use paritr_node.Prelude.{ℕ, ◌+◌, ◌≡◌, refl, ap, sym, ◌∙◌, some, [], ◌∷◌, arith, ok, All, >>=-eq-ok}
use paritr_node.Prelude.Order.{numbered_ord, cmp_numbered}
use paritr_node.OrderedMap
use paritr_node.OrderedMap.{OrderedMap}
use paritr_node.OrderedMap.Lookup.{lookup-remove}
use paritr_node.Crypto.{Primitives, Address}
use paritr_node.State.Ledger.{
  LedgerState, RewardKey, credit, mature, mature_each, matured, range, drop_reward, reward_at,
  address_min, address_max,
}
use paritr_node.State.Supply.{total_pending, supply, IsOrdered}
use paritr_node.State.Supply.Accounts.{credit_moves}
use paritr_node.State.Supply.Rewards.{drop_reward_moves}

-- Entries that all lie in `m` under their keys.
abbrev AreIn : OrderedMap RewardKey ℕ → OrderedMap RewardKey ℕ → Type 0
AreIn es m = All (λ (e : RewardKey × ℕ). OrderedMap.lookup e.0 m ≡ some e.1) es

range-IsAbove :
    (low high k : RewardKey) (m : OrderedMap RewardKey ℕ)
    → OrderedMap.IsAbove k m
    → OrderedMap.IsAbove k (range low high m)
unfolding range
range-IsAbove low high k [] h = tt
range-IsAbove low high k (e ∷ m) h = ground (arith, range-IsAbove low high k m h.1)

range-IsSorted :
    (low high : RewardKey) (m : OrderedMap RewardKey ℕ)
    → OrderedMap.IsSorted m
    → OrderedMap.IsSorted (range low high m)
unfolding range
range-IsSorted low high [] h = tt
range-IsSorted low high (e ∷ m) h =
    ground (arith, range-IsAbove low high e.0 m h.0, range-IsSorted low high m h.1)

-- An entry behind others is still found in front of them.
AreIn-cons :
    (k : RewardKey) (v : ℕ) (es m : OrderedMap RewardKey ℕ)
    → OrderedMap.IsAbove k es
    → AreIn es m
    → AreIn es ((k, v) ∷ m)
unfolding OrderedMap.lookup
AreIn-cons k v [] m a h = tt
AreIn-cons k v (e ∷ es) m a h =
    (ground (arith, h.0, a.0, numbered_ord.gt_of_lt k e.0), AreIn-cons k v es m a.1 h.1)

range-AreIn :
    (low high : RewardKey) (m : OrderedMap RewardKey ℕ)
    → OrderedMap.IsSorted m
    → AreIn (range low high m) m
unfolding range OrderedMap.lookup
range-AreIn low high [] s = tt
range-AreIn low high ((k, v) ∷ m) s =
    let above = range-IsAbove low high k m s.0 in
    let rest = AreIn-cons k v (range low high m) m above (range-AreIn low high m s.1) in
    ground (arith, rest, numbered_ord.cmp_refl k)

AreIn-remove :
    (k : RewardKey) (es m : OrderedMap RewardKey ℕ)
    → OrderedMap.IsAbove k es
    → AreIn es m
    → AreIn es (OrderedMap.remove k m)
AreIn-remove k [] m a h = tt
AreIn-remove k (e ∷ es) m a h = (
  ground (arith, lookup-remove k e.0 m, h.0, a.0, numbered_ord.gt_of_lt k e.0),
  AreIn-remove k es m a.1 h.1,
)

-- The keys of a range between two keys of one height have that height.
abbrev AtHeight : ℕ → OrderedMap RewardKey ℕ → Type 0
AtHeight height es = All (λ (e : RewardKey × ℕ). e.0.0 ≡ height) es

range-AtHeight :
    (height : ℕ) (a b : Address) (m : OrderedMap RewardKey ℕ)
    → AtHeight height (range (height, a) (height, b) m)
unfolding range cmp_numbered
range-AtHeight height a b [] = tt
range-AtHeight height a b (e ∷ m) = ground (arith, range-AtHeight height a b m)

module _ ⦃p : Primitives⦄ where
  -- One round of the loop of `mature`.
  mature_step :
      (k : RewardKey) (v : ℕ) (s s' : LedgerState)
      → IsOrdered s
      → OrderedMap.lookup k s.pending_rewards ≡ some v
      → credit k.1 v (drop_reward k s) ≡ ok s'
      → IsOrdered s'
        × (supply s' ≡ supply s)
        × (total_pending s' + v ≡ total_pending s)
        × (s'.pending_rewards ≡ OrderedMap.remove k s.pending_rewards)
  mature_step k v s s' h found e =
      let (ordered, dropped) = drop_reward_moves k s h in
      let (ordered', moved, same) = credit_moves k.1 v (drop_reward k s) s' ordered e in
      let before : reward_at k s ≡ v = rw found refl in
      let pending : total_pending s' ≡ total_pending (drop_reward k s) =
        ap (OrderedMap.sum_values (λ v. v)) same in
      (
        ordered',
        omega (arith, moved, dropped, before, pending),
        omega (arith, dropped, before, pending),
        same,
      )

  mature_each_moves :
      (height : ℕ) (es : OrderedMap RewardKey ℕ) (s s' : LedgerState)
      → IsOrdered s
      → OrderedMap.IsSorted es
      → AreIn es s.pending_rewards
      → AtHeight height es
      → mature_each height es s ≡ ok s'
      → IsOrdered s'
        × (supply s' ≡ supply s)
        × (total_pending s' + OrderedMap.sum_values (λ v. v) es ≡ total_pending s)
  unfolding mature_each
  mature_each_moves height [] s s' h sorted found at e =
      let same : s ≡ s' = cc in rw (← same) (h, refl, omega arith)
  mature_each_moves height (((n, a), v) ∷ es) s s' h sorted found at e =
      let (s₁, first, rest) =
        >>=-eq-ok (credit a v (drop_reward (height, a) s)) (mature_each height es) e in
      let here : OrderedMap.lookup (height, a) s.pending_rewards ≡ some v =
        subst (λ m. OrderedMap.lookup (m, a) s.pending_rewards ≡ some v) at.0 found.0 in
      let above : OrderedMap.IsAbove (height, a) es =
        subst (λ m. OrderedMap.IsAbove (m, a) es) at.0 sorted.0 in
      let (ordered, kept, paid, pending) = mature_step (height, a) v s s₁ h here first in
      let (ordered', kept', paid') =
        mature_each_moves height es s₁ s' ordered sorted.1
          (subst (AreIn es) (sym pending)
            (AreIn-remove (height, a) es s.pending_rewards above found.1))
          at.1 rest in
      (ordered', kept' ∙ kept, omega (arith, paid, paid'))

  -- Maturing a height moves rewards from pending to balances: the supply stays, and the pending
  -- sum falls by what `matured` collected.
  pub mature_moves :
      (height : ℕ) (s s' : LedgerState)
      → IsOrdered s
      → mature height s ≡ ok s'
      → IsOrdered s'
        × (supply s' ≡ supply s)
        × (total_pending s' + OrderedMap.sum_values (λ v. v) (matured height s) ≡ total_pending s)
  unfolding mature
  mature_moves height s s' h e =
      mature_each_moves height (matured height s) s s' h
        (range-IsSorted (height, address_min) (height, address_max) s.pending_rewards h.pending)
        (range-AreIn (height, address_min) (height, address_max) s.pending_rewards h.pending)
        (range-AtHeight height address_min address_max s.pending_rewards) e
