-- ===== src/Tests/Pools.antt =====
-- Runs of the pool.
use paritr_node.Prelude.{
  ℕ, ◌+◌, ◌*◌, ◌≡◌, ◌≤◌, ◌<◌, refl, ap, arith, some, none, List, [], ◌∷◌, length, max, u64_mod,
  Result, ok,
}
use mathlib.Core.List.{Memᴰ}
use mathlib.Core.List.Memᴰ
use paritr_node.Prelude.Order.{bytes_ord}
use paritr_node.Prelude.Slot.{slot_ord}
use paritr_node.OrderedMap
use paritr_node.Params.{max_money}
use paritr_node.Crypto.{Hash32}
use paritr_node.State.Ledger.{set_account}
use paritr_node.State.Supply.{total_balance, IsOrdered}
use paritr_node.Types.Transaction
use paritr_node.Types.Transaction.{Transaction}
use paritr_node.Mempool.{
  Mempool, RelayPolicy, Entry, new_mempool, default_policy, accept, remove, insert_entry,
  expire_and_trim, slot_of, replace_existing, entry_for,
}
use paritr_node.Mempool.Counted.{IsCounted, insert_entry-IsCounted}
use paritr_node.Mempool.Bounded.{expire_and_trim_bound}
use paritr_node.Mempool.Accepts.{accept_counts, replacement_pays}
use paritr_node.Mempool.Select.{select}
use paritr_node.Mempool.Mined.{Mined, select-Mined}
use paritr_node.Tests.Sample.{toy, funded, payment}

abbrev small_policy : RelayPolicy
small_policy = record default_policy { min_relay_fee = 5; dust_limit = 1; max_mempool_bytes = 100 }

abbrev empty_pool : Mempool
empty_pool = new_mempool small_policy

empty_pool-IsCounted : IsCounted empty_pool
empty_pool-IsCounted = record { sorted = tt; counted = refl }

small_payment : empty_pool.bytes + Transaction.encoded_len payment ≡ 181
unfolding Transaction.encode_to paritr_node.Codec.to_le_bytes paritr_node.Crypto.from_public_key
small_payment = refl

accept_counts_example : IsCounted (accept payment funded 50 empty_pool).0
accept_counts_example =
    accept_counts payment funded 50 empty_pool empty_pool-IsCounted (omega (arith, small_payment))

abbrev one_waiting : Mempool
one_waiting = insert_entry payment 50 empty_pool

missing : OrderedMap.lookup (Transaction.id payment) empty_pool.entries ≡ none
unfolding OrderedMap.lookup
missing = refl

one_waiting-IsCounted : IsCounted one_waiting
one_waiting-IsCounted =
    insert_entry-IsCounted payment 50 empty_pool empty_pool-IsCounted missing
      (omega (arith, small_payment))

expire_and_trim_bound_example :
    IsCounted (expire_and_trim 60 one_waiting)
    × ((expire_and_trim 60 one_waiting).bytes ≤ one_waiting.policy.max_mempool_bytes)
expire_and_trim_bound_example = expire_and_trim_bound 60 one_waiting one_waiting-IsCounted

abbrev better_payment : Transaction
better_payment = record payment { fee = 20 }

abbrev waiting : Entry
waiting = entry_for payment 50

at_slot :
    OrderedMap.lookup (slot_of better_payment) one_waiting.by_sender_nonce
    ≡ some (Transaction.id payment)
unfolding OrderedMap.lookup insert_entry OrderedMap.insert paritr_node.Prelude.Slot.cmp_slot
    paritr_node.Prelude.Order.cmp_bytes paritr_node.Crypto.from_public_key
at_slot = refl

in_pool : OrderedMap.lookup (Transaction.id payment) one_waiting.entries ≡ some waiting
unfolding OrderedMap.lookup insert_entry OrderedMap.insert paritr_node.Prelude.Order.cmp_bytes
    Transaction.id paritr_node.Crypto.domain_hash paritr_node.Codec.to_le_bytes
in_pool = refl

replaced :
    replace_existing better_payment one_waiting ≡ ok (remove (Transaction.id payment) one_waiting)
unfolding replace_existing OrderedMap.lookup insert_entry OrderedMap.insert
    paritr_node.Prelude.Slot.cmp_slot paritr_node.Prelude.Order.cmp_bytes
    paritr_node.Crypto.from_public_key Transaction.id paritr_node.Crypto.domain_hash
    paritr_node.Codec.to_le_bytes
replaced = refl

replacement_pays_example :
    (waiting.transaction.fee + one_waiting.policy.min_relay_fee ≤ better_payment.fee)
    × (waiting.transaction.fee * 11 ≤ better_payment.fee * 10)
    × (remove (Transaction.id payment) one_waiting ≡ remove (Transaction.id payment) one_waiting)
unfolding insert_entry
replacement_pays_example =
    replacement_pays better_payment one_waiting (remove (Transaction.id payment) one_waiting)
      (Transaction.id payment) waiting (omega arith) (omega arith) at_slot in_pool replaced

funded_ledger : IsOrdered funded × (total_balance funded ≤ max_money)
unfolding set_account OrderedMap.insert
funded_ledger = (record { accounts = (tt, tt); pending = tt }, omega arith)

waiting_nonces :
    (id : Hash32) (e : Entry) → Memᴰ (id, e) one_waiting.entries → e.transaction.nonce + 1 < u64_mod
unfolding insert_entry OrderedMap.insert
waiting_nonces id e there =
    let same = Memᴰ.eq_of_singleton there in
    let zeroth : e.transaction.nonce ≡ 0 =
      ap (λ (x : Hash32 × Entry). x.1.transaction.nonce) same in
    omega (arith, zeroth)

select_test : select funded 5 one_waiting ≡ ok (payment ∷ [])
unfolding select insert_entry OrderedMap.insert OrderedMap.lookup set_account
    paritr_node.Prelude.Order.cmp_bytes paritr_node.Crypto.from_public_key Transaction.id
    paritr_node.Crypto.domain_hash paritr_node.Codec.to_le_bytes
select_test = refl

select-Mined_example :
    (ts : List Transaction) × (select funded 5 one_waiting ≡ ok ts)
    × Mined one_waiting.entries funded ts
    × (length ts ≤ max 5 1)
select-Mined_example =
    select-Mined funded 5 one_waiting funded_ledger.0 funded_ledger.1 waiting_nonces
