-- ===== src/State/Ledger.antt =====
-- `LedgerState` and its methods. A method that fails midway leaves a state that every caller in the
-- source drops, so the error carries no state.
use Prim.Native.Nat.{Ordering}
use paritr_node.Prelude.{
  ℕ, Bool, ◌&&◌, Option, none, some, [], ◌∷◌, leb, ◌==◌, if◌then◌else◌, checked_add, checked_sub,
  saturating_add, Result, ok, ◌>>=◌, ok_or,
}
use paritr_node.Prelude.Order.{bytes_ord, numbered_ord, bytes_eq, cmp_numbered}
use paritr_node.OrderedMap
use paritr_node.OrderedMap.{OrderedMap}
use paritr_node.Codec.{Bytes, Writer, ◌▷◌, put_u8, put_u64, consensus_encode}
use paritr_node.Crypto.{
  Primitives, Address, Hash32, put_address, domain_hash, ascii, from_public_key_hash,
}
use paritr_node.Prelude.{replicate}
use paritr_node.Params.{max_money}
use paritr_node.Errors.{ConsensusError, money_range, insufficient_balance}
use paritr_node.State.Tree
use paritr_node.State.Tree.{SparseMerkleTree}

pub record Account : Type 0 where
  pub balance : ℕ
  pub nonce : ℕ

-- `Account::default()`
abbrev pub no_account : Account
no_account = record { balance = 0; nonce = 0 }

abbrev pub is_default : Account → Bool
is_default a = a.balance == 0 && a.nonce == 0

pub record PendingReward : Type 0 where
  pub maturity_height : ℕ
  pub recipient : Address
  pub amount : ℕ

-- The key of a pending reward: its maturity and its recipient.
abbrev pub RewardKey : Type 0
RewardKey = ℕ × Address

pub data StateKey : Type 0 where
  account : Address → StateKey
  pending_reward : RewardKey → StateKey

pub record LedgerState : Type 0 where
  pub accounts : OrderedMap Address Account
  pub pending_rewards : OrderedMap RewardKey ℕ
  pub tree : SparseMerkleTree

abbrev pub empty_ledger : LedgerState
empty_ledger = record { accounts = []; pending_rewards = []; tree = Tree.empty_tree }

-- `self.accounts.get(&address).copied().unwrap_or_default()`
unfoldable pub account_of : LedgerState → Address → Account
account_of s address = elim (OrderedMap.lookup address s.accounts) [
  | none ↦ no_account
  | some a ↦ a
]

-- The rewards of one recipient, added up without overflow.
unfoldable pub pending_from : Address → ℕ → OrderedMap RewardKey ℕ → ℕ
pending_from address acc [] = acc
pending_from address acc (((maturity, recipient), amount) ∷ m) =
    pending_from address (if bytes_eq recipient address then saturating_add acc amount else acc) m

unfoldable pub pending_for : LedgerState → Address → ℕ
unfolding pending_from
pending_for s address = pending_from address 0 s.pending_rewards

-- `Some(sum).filter(|v| *v <= MAX_MONEY)`
abbrev pub in_money_range : Option ℕ → Option ℕ
in_money_range none = none
in_money_range (some v) = if leb v max_money then some v else none

-- `range(low..=high)`
unfoldable pub range : RewardKey → RewardKey → OrderedMap RewardKey ℕ → OrderedMap RewardKey ℕ
range low high [] = []
range low high ((k, v) ∷ m) =
    let rest = range low high m in
    elim (cmp_numbered k low) [
      | Ordering.lt ↦ rest
      | _ ↦ elim (cmp_numbered k high) [ Ordering.gt ↦ rest | _ ↦ (k, v) ∷ rest ]
    ]

module _ ⦃p : Primitives⦄ where
  unfoldable pub put_account : Account → Writer → Writer
  put_account a w = w ▷ put_u64 a.balance ▷ put_u64 a.nonce

  unfoldable pub put_reward : PendingReward → Writer → Writer
  put_reward r w = w ▷ put_u64 r.maturity_height ▷ put_address r.recipient ▷ put_u64 r.amount

  unfoldable pub key_bytes : StateKey → Bytes
  key_bytes (account address) = [] ▷ put_u8 0 ▷ put_address address
  key_bytes (pending_reward (maturity, recipient)) =
      [] ▷ put_u8 1 ▷ put_u64 maturity ▷ put_address recipient

  unfoldable pub key_hash : StateKey → Hash32
  unfolding key_bytes
  key_hash k = domain_hash (ascii "PARITR-P9-STATE-KEY-v1") (key_bytes k)

  unfoldable pub root : LedgerState → Hash32
  root s = Tree.root s.tree

  unfoldable pub set_account : Address → Account → LedgerState → LedgerState
  unfolding put_account
  set_account address a s =
      let key = key_hash (account address) in
      if is_default a
      then record s {
        accounts = OrderedMap.remove address s.accounts;
        tree = Tree.update key none s.tree;
      }
      else record s {
        accounts = OrderedMap.insert address a s.accounts;
        tree = Tree.update key (some (consensus_encode put_account a)) s.tree;
      }

  unfoldable pub credit : Address → ℕ → LedgerState → Result ConsensusError LedgerState
  unfolding account_of
  credit address amount s = do
    let a = account_of s address
    balance ← ok_or (in_money_range (checked_add a.balance amount)) money_range
    ok (set_account address (record a { balance = balance }) s)

  unfoldable pub debit : Address → ℕ → LedgerState → Result ConsensusError LedgerState
  unfolding account_of
  debit address amount s = do
    let a = account_of s address
    balance ← ok_or (checked_sub a.balance amount) insufficient_balance
    ok (set_account address (record a { balance = balance }) s)

  unfoldable pub set_nonce : Address → ℕ → LedgerState → LedgerState
  unfolding account_of
  set_nonce address nonce s =
      set_account address (record (account_of s address) { nonce = nonce }) s

  -- `get(&key).copied().unwrap_or(0)`
  abbrev pub reward_at : RewardKey → LedgerState → ℕ
  reward_at key s = OrderedMap.amount_at (λ v. v) (OrderedMap.lookup key s.pending_rewards)

  abbrev pub set_reward : RewardKey → ℕ → LedgerState → LedgerState
  set_reward key next s = record s {
    pending_rewards = OrderedMap.insert key next s.pending_rewards;
    tree =
        Tree.update (key_hash (pending_reward key))
          (some (
            consensus_encode put_reward
              (record { maturity_height = key.0; recipient = key.1; amount = next })))
          s.tree;
  }

  unfoldable pub schedule_reward : RewardKey → ℕ → LedgerState → Result ConsensusError LedgerState
  unfolding put_reward
  schedule_reward key amount s = if amount == 0 then ok s else do
    next ← ok_or (in_money_range (checked_add (reward_at key s) amount)) money_range
    ok (set_reward key next s)

  abbrev pub drop_reward : RewardKey → LedgerState → LedgerState
  drop_reward key s = record s {
    pending_rewards = OrderedMap.remove key s.pending_rewards;
    tree = Tree.update (key_hash (pending_reward key)) none s.tree;
  }

  unfoldable pub address_min : Address
  address_min = from_public_key_hash (replicate 20 0)

  unfoldable pub address_max : Address
  address_max = from_public_key_hash (replicate 20 0xff)

  -- The entries that `mature` collects before it changes anything.
  unfoldable pub matured : ℕ → LedgerState → OrderedMap RewardKey ℕ
  unfolding range address_min address_max
  matured height s = range (height, address_min) (height, address_max) s.pending_rewards

  unfoldable pub mature_each :
      ℕ → OrderedMap RewardKey ℕ → LedgerState → Result ConsensusError LedgerState
  unfolding credit
  mature_each height [] s = ok s
  mature_each height (((_, address), amount) ∷ rest) s = do
    s' ← credit address amount (drop_reward (height, address) s)
    mature_each height rest s'

  -- The source also returns the list `matured`, which no caller in the consensus code reads.
  unfoldable pub mature : ℕ → LedgerState → Result ConsensusError LedgerState
  unfolding matured mature_each
  mature height s = mature_each height (matured height s) s
