-- ===== src/Mempool/Counted.antt =====
-- The count of bytes.
use paritr_node.Prelude.{
  ℕ, zero, suc, ◌+◌, ◌≡◌, ◌≤◌, ◌<◌, refl, sym, ◌∙◌, arith, inl, inr, some, none, List, [], ◌∷◌,
  Bool-cases, Option-cases, u64_mod, leb,
}
use mathlib.Core.Path.{subst}
use native.Mathlib.Nat.{mod-eq_of_lt}
use paritr_node.Prelude.Order.{bytes_ord}
use paritr_node.Prelude.Slot.{slot_ord}
use paritr_node.OrderedMap
use paritr_node.OrderedMap.{OrderedMap}
use paritr_node.OrderedMap.Sorted.{insert-IsSorted, remove-IsSorted}
use paritr_node.OrderedMap.Sum.{sum-insert, sum-remove}
use paritr_node.Crypto.{Primitives, Hash32}
use paritr_node.Types.Transaction
use paritr_node.Types.Transaction.{Transaction}
use paritr_node.Mempool.{Mempool, Entry, remove, remove_each, insert_entry, trim, lowest}

abbrev pub total_size : OrderedMap Hash32 Entry → ℕ
total_size = OrderedMap.sum_values (λ e. e.size)

-- The entries stand in order, and `bytes` is the sum of their sizes.
pub record IsCounted (m : Mempool) : Type 0 where
  pub sorted : OrderedMap.IsSorted m.entries
  pub counted : m.bytes ≡ total_size m.entries

-- Removing an entry keeps the count of bytes right.
pub remove-IsCounted : (id : Hash32) (m : Mempool) → IsCounted m → IsCounted (remove id m)
unfolding remove
remove-IsCounted id m h = elim (Option-cases (OrderedMap.lookup id m.entries)) [
  | inl missing ↦ rw (remove, missing) h
  | inr (e, found) ↦
      let moved : total_size (OrderedMap.remove id m.entries) + e.size ≡ total_size m.entries =
        (let s = sum-remove (λ (e : Entry). e.size) id m.entries h.sorted in rw found at s) in
      rw (remove, found)
        (record {
          sorted = remove-IsSorted id m.entries h.sorted;
          counted = omega (arith, moved, h.counted);
        })
]

-- It never adds bytes.
pub bytes-remove-le : (id : Hash32) (m : Mempool) → (remove id m).bytes ≤ m.bytes
unfolding remove
bytes-remove-le id m = ground arith

pub remove_each-IsCounted :
    (ids : List Hash32) (m : Mempool) → IsCounted m → IsCounted (remove_each ids m)
unfolding remove_each
remove_each-IsCounted [] m h = h
remove_each-IsCounted (id ∷ ids) m h =
    remove_each-IsCounted ids (remove id m) (remove-IsCounted id m h)

-- A round of the loop.
pub trim-nothing : (fuel : ℕ) (m : Mempool) → lowest m.entries ≡ none → trim fuel m ≡ m
unfolding trim
trim-nothing zero m h = refl
trim-nothing (suc fuel) m h = ground arith

pub trim-zero : (m : Mempool) → trim zero m ≡ m
unfolding trim
trim-zero m = refl

pub trim-within : (fuel : ℕ) (m : Mempool) → m.bytes ≤ m.policy.max_mempool_bytes → trim fuel m ≡ m
unfolding trim
trim-within zero m h = refl
trim-within (suc fuel) m h = ground arith

pub trim-over :
    (fuel : ℕ) (m : Mempool) (id : Hash32) (e : Entry)
    → lowest m.entries ≡ some (id, e)
    → m.policy.max_mempool_bytes < m.bytes
    → trim (suc fuel) m ≡ trim fuel (remove id m)
unfolding trim
trim-over fuel m id e found over = ground arith

pub trim-IsCounted : (fuel : ℕ) (m : Mempool) → IsCounted m → IsCounted (trim fuel m)
trim-IsCounted zero m h = subst IsCounted (sym (trim-zero m)) h
trim-IsCounted (suc fuel) m h = elim (Option-cases (lowest m.entries)) [
  | inl nothing ↦ subst IsCounted (sym (trim-nothing (suc fuel) m nothing)) h
  | inr ((id, e), found) ↦ elim (Bool-cases (leb m.bytes m.policy.max_mempool_bytes)) [
    | inl fits ↦ subst IsCounted (sym (trim-within (suc fuel) m (ground arith))) h
    | inr over ↦
        subst IsCounted (sym (trim-over fuel m id e found (ground arith)))
          (trim-IsCounted fuel (remove id m) (remove-IsCounted id m h))
  ]
]

module _ ⦃p : Primitives⦄ where
  pub insert_entry-IsCounted :
      (t : Transaction) (now : ℕ) (m : Mempool)
      → IsCounted m
      → OrderedMap.lookup (Transaction.id t) m.entries ≡ none
      → m.bytes + Transaction.encoded_len t < u64_mod
      → IsCounted (insert_entry t now m)
  unfolding insert_entry
  insert_entry-IsCounted t now m h fresh fits =
      let size = Transaction.encoded_len t in
      let entry : Entry = record { transaction = t; received_at = now; size = size } in
      let s = sum-insert (λ (e : Entry). e.size) (Transaction.id t) entry m.entries h.sorted in
      let moved : total_size (OrderedMap.insert (Transaction.id t) entry m.entries)
          ≡ total_size m.entries + size =
        (let s' = (rw fresh at s) in omega (arith, s')) in
      record {
        sorted = insert-IsSorted (Transaction.id t) entry m.entries h.sorted;
        counted = mod-eq_of_lt fits ∙ omega (arith, moved, h.counted);
      }
