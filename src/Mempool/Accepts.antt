-- ===== src/Mempool/Accepts.antt =====
-- What `accept` does to the pool.
use paritr_node.Prelude.{
  ℕ, ◌+◌, ◌*◌, ◌≡◌, ◌≤◌, ◌<◌, refl, sym, arith, inl, inr, true, false, some, none, Bool-cases,
  Option-cases, Result, ok, err, panicked, u64_mod, ltb, ◌⊎◌, Bool,
}
use mathlib.Core.Path.{subst}
use paritr_node.Prelude.Order.{bytes_ord}
use paritr_node.Prelude.Slot.{slot_ord}
use paritr_node.OrderedMap
use paritr_node.OrderedMap.{OrderedMap}
use paritr_node.OrderedMap.Lookup.{lookup-remove}
use paritr_node.Crypto.{Primitives, Hash32}
use paritr_node.Types.Transaction
use paritr_node.Types.Transaction.{Transaction}
use paritr_node.State.Ledger.{LedgerState}
use paritr_node.Mempool.{
  Mempool, Entry, MempoolError, RelayPolicy, rbf_percent, admit, accept_valid, remove, insert_entry,
  replace_existing, required_fee, settle_entry, accept, validate_for_relay, slot_of,
  sender_is_funded,
}
use paritr_node.Mempool.Counted.{
  IsCounted, remove-IsCounted, insert_entry-IsCounted, bytes-remove-le,
}
use paritr_node.Mempool.Bounded.{expire_and_trim_bound}

ok-injective {ℓ} : {A : Type ℓ} {a b : A} → ◌≡◌ {A = Result MempoolError A} (ok a) (ok b) → a ≡ b
ok-injective h = cc

required_fee-lower :
    (rules : RelayPolicy) (fee : ℕ)
    → fee * rbf_percent + 99 < u64_mod
    → fee + rules.min_relay_fee < u64_mod
    → (fee + rules.min_relay_fee ≤ required_fee rules fee)
      × (fee * 11 ≤ required_fee rules fee * 10)
unfolding required_fee
required_fee-lower rules fee small relay = (ground arith, ground arith)

-- A replacement pays for itself: where a transaction with the same sender and nonce waits, and ten times
-- its fee and its fee with the relay fee stay below 64 bits, one that takes its place pays more by at least the relay fee and by at
-- least a tenth. The one that waited is removed.
pub replacement_pays :
    (t : Transaction) (m m' : Mempool) (id : Hash32) (old : Entry)
    → old.transaction.fee * rbf_percent + 99 < u64_mod
    → old.transaction.fee + m.policy.min_relay_fee < u64_mod
    → OrderedMap.lookup (slot_of t) m.by_sender_nonce ≡ some id
    → OrderedMap.lookup id m.entries ≡ some old
    → replace_existing t m ≡ ok m'
    → (old.transaction.fee + m.policy.min_relay_fee ≤ t.fee)
      × (old.transaction.fee * 11 ≤ t.fee * 10)
      × (m' ≡ remove id m)
unfolding replace_existing
replacement_pays t m m' id old small relay at_slot in_pool h =
    let (floor, tenth) = required_fee-lower m.policy old.transaction.fee small relay in
    let required = required_fee m.policy old.transaction.fee in
    elim (Bool-cases (ltb t.fee required)) [
      | inl cheap ↦ absurd (cc (rw (replace_existing, at_slot, in_pool, cheap) at h))
      | inr pays ↦
          let enough : required ≤ t.fee = ground arith in
          let same : remove id m ≡ m' =
            ok-injective (rw (replace_existing, at_slot, in_pool, pays) at h) in
          (omega (arith, floor, enough), omega (arith, tenth, enough), sym same)
    ]

pub replace_existing-outcomes :
    (t : Transaction) (m m' : Mempool)
    → replace_existing t m ≡ ok m'
    → (m' ≡ m) ⊎ ((id : Hash32) × (m' ≡ remove id m))
unfolding replace_existing
replace_existing-outcomes t m m' h =
    elim (Option-cases (OrderedMap.lookup (slot_of t) m.by_sender_nonce)) [
      | inl free ↦ inl (ground arith)
      | inr (id, taken) ↦ elim (Option-cases (OrderedMap.lookup id m.entries)) [
        | inl lost ↦ absurd (ground arith)
        | inr (old, found) ↦ inr (id, ground arith)
      ]
    ]

pub lookup-removed :
    (id j : Hash32) (m : Mempool)
    → OrderedMap.lookup j m.entries ≡ none
    → OrderedMap.lookup j (remove id m).entries ≡ none
unfolding remove
lookup-removed id j m h = ground (arith, lookup-remove id j m.entries)

module _ ⦃p : Primitives⦄ where
  settle_entry-IsCounted :
      (t : Transaction) (now : ℕ) (m : Mempool) (funded : Result MempoolError Bool)
      → IsCounted m
      → IsCounted (settle_entry t now m funded).0
  unfolding settle_entry
  settle_entry-IsCounted t now m (ok true) h = (expire_and_trim_bound now m h).0
  settle_entry-IsCounted t now m (ok false) h = remove-IsCounted (Transaction.id t) m h
  settle_entry-IsCounted t now m (err e) h = h
  settle_entry-IsCounted t now m panicked h = h

  admit-IsCounted :
      (t : Transaction) (s : LedgerState) (now : ℕ) (m : Mempool)
      (replaced : Result MempoolError Mempool)
      → IsCounted m
      → OrderedMap.lookup (Transaction.id t) m.entries ≡ none
      → m.bytes + Transaction.encoded_len t < u64_mod
      → replace_existing t m ≡ replaced
      → IsCounted (admit t s now m replaced).0
  unfolding admit
  admit-IsCounted t s now m (ok m') h fresh fits e =
      let entered : IsCounted (insert_entry t now m') = elim (replace_existing-outcomes t m m' e) [
        | inl same ↦
            subst (λ x. IsCounted (insert_entry t now x)) (sym same)
              (insert_entry-IsCounted t now m h fresh fits)
        | inr (id, same) ↦
            let smaller = bytes-remove-le id m in
            subst (λ x. IsCounted (insert_entry t now x)) (sym same)
              (insert_entry-IsCounted t now (remove id m) (remove-IsCounted id m h)
                (lookup-removed id (Transaction.id t) m fresh) (omega (arith, smaller, fits)))
      ] in
      settle_entry-IsCounted t now (insert_entry t now m')
        (sender_is_funded t.sender s (insert_entry t now m')) entered
  admit-IsCounted t s now m (err e) h fresh fits _ = h
  admit-IsCounted t s now m panicked h fresh fits _ = h

  accept_valid-IsCounted :
      (t : Transaction) (s : LedgerState) (now : ℕ) (m : Mempool)
      (valid : Result MempoolError (Unit {0}))
      → IsCounted m
      → m.bytes + Transaction.encoded_len t < u64_mod
      → IsCounted (accept_valid t s now m valid).0
  unfolding accept_valid
  accept_valid-IsCounted t s now m (ok u) h fits =
      elim (Option-cases (OrderedMap.lookup (Transaction.id t) m.entries)) [
        | inl fresh ↦ rw fresh (admit-IsCounted t s now m (replace_existing t m) h fresh fits refl)
        | inr (e, waiting) ↦ rw waiting h
      ]
  accept_valid-IsCounted t s now m (err e) h fits = h
  accept_valid-IsCounted t s now m panicked h fits = h

  -- Accepting a transaction, whatever comes of it, keeps the pool's bytes equal to the sum of the sizes of
  -- its entries, where the bytes and the transaction's size stay below 64 bits.
  pub accept_counts :
      (t : Transaction) (s : LedgerState) (now : ℕ) (m : Mempool)
      → IsCounted m
      → m.bytes + Transaction.encoded_len t < u64_mod
      → IsCounted (accept t s now m).0
  unfolding accept
  accept_counts t s now m h fits =
      accept_valid-IsCounted t s now m (validate_for_relay t m.policy s) h fits
