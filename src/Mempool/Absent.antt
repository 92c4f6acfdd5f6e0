-- ===== src/Mempool/Absent.antt =====
-- What the pool does not hold: a confirmed transaction leaves it, and no other brings it back.
use paritr_node.Prelude.{
  ℕ, zero, suc, ◌≡◌, refl, sym, arith, inl, inr, Bool, true, false, none, List, [], ◌∷◌, Bool-cases,
  Option-cases, leb, length, Result, ok, err, panicked,
}
use mathlib.Core.Path.{subst}
use mathlib.Core.List.{Memᴰ}
use mathlib.Core.List.Memᴰ
use paritr_node.Prelude.Order.{bytes_ord, bytes_eq, bytes_eq_refl}
use paritr_node.OrderedMap
use paritr_node.OrderedMap.Lookup.{lookup-insert, lookup-remove}
use paritr_node.Crypto.{Primitives, Hash32}
use paritr_node.Types.Transaction
use paritr_node.Types.Transaction.{Transaction}
use paritr_node.State.Ledger.{LedgerState}
use paritr_node.Mempool.{
  Mempool, MempoolError, admit, accept_valid, remove, remove_each, remove_confirmed, insert_entry,
  replace_existing, settle_entry, accept, validate_for_relay, sender_is_funded, trim, lowest,
  expired, expire_and_trim,
}
use paritr_node.Mempool.Accepts.{replace_existing-outcomes, lookup-removed}

-- The pool has no entry of this identifier.
abbrev pub IsAbsent : Hash32 → Mempool → Type 0
IsAbsent k m = OrderedMap.lookup k m.entries ≡ none

remove-IsAbsent : (k : Hash32) (m : Mempool) → IsAbsent k (remove k m)
unfolding remove
remove-IsAbsent k m = ground (arith, lookup-remove k k m.entries, bytes_eq_refl k)

remove_each-IsAbsent :
    (k : Hash32) (ids : List Hash32) (m : Mempool) → IsAbsent k m → IsAbsent k (remove_each ids m)
unfolding remove_each
remove_each-IsAbsent k [] m h = h
remove_each-IsAbsent k (id ∷ ids) m h =
    remove_each-IsAbsent k ids (remove id m) (lookup-removed id k m h)

trim-IsAbsent : (k : Hash32) (fuel : ℕ) (m : Mempool) → IsAbsent k m → IsAbsent k (trim fuel m)
unfolding trim
trim-IsAbsent k zero m h = h
trim-IsAbsent k (suc fuel) m h = elim (Option-cases (lowest m.entries)) [
  | inl nothing ↦ rw (trim, nothing) h
  | inr ((id, e), found) ↦ elim (Bool-cases (leb m.bytes m.policy.max_mempool_bytes)) [
    | inl within ↦ rw (trim, found, within) h
    | inr over ↦
        rw (trim, found, over) (trim-IsAbsent k fuel (remove id m) (lookup-removed id k m h))
  ]
]

expire_and_trim-IsAbsent :
    (k : Hash32) (now : ℕ) (m : Mempool) → IsAbsent k m → IsAbsent k (expire_and_trim now m)
unfolding expire_and_trim
expire_and_trim-IsAbsent k now m h =
    let kept = remove_each (expired now m.policy.ttl_seconds m.entries) m in
    trim-IsAbsent k (length kept.entries) kept
      (remove_each-IsAbsent k (expired now m.policy.ttl_seconds m.entries) m h)

module _ ⦃p : Primitives⦄ where
  insert_entry-IsAbsent :
      (k : Hash32) (t : Transaction) (now : ℕ) (m : Mempool)
      → bytes_eq k (Transaction.id t) ≡ false
      → IsAbsent k m
      → IsAbsent k (insert_entry t now m)
  unfolding insert_entry
  insert_entry-IsAbsent k t now m other h =
      rw (lookup-insert (Transaction.id t) k _ m.entries, other) h

  settle_entry-IsAbsent :
      (k : Hash32) (t : Transaction) (now : ℕ) (m : Mempool) (funded : Result MempoolError Bool)
      → IsAbsent k m
      → IsAbsent k (settle_entry t now m funded).0
  unfolding settle_entry
  settle_entry-IsAbsent k t now m (ok true) h = expire_and_trim-IsAbsent k now m h
  settle_entry-IsAbsent k t now m (ok false) h = lookup-removed (Transaction.id t) k m h
  settle_entry-IsAbsent k t now m (err e) h = h
  settle_entry-IsAbsent k t now m panicked h = h

  admit-IsAbsent :
      (k : Hash32) (t : Transaction) (s : LedgerState) (now : ℕ) (m : Mempool)
      (replaced : Result MempoolError Mempool)
      → bytes_eq k (Transaction.id t) ≡ false
      → IsAbsent k m
      → replace_existing t m ≡ replaced
      → IsAbsent k (admit t s now m replaced).0
  unfolding admit
  admit-IsAbsent k t s now m (ok m') other h e =
      let left : IsAbsent k m' = elim (replace_existing-outcomes t m m' e) [
        | inl same ↦ subst (IsAbsent k) (sym same) h
        | inr (id, same) ↦ subst (IsAbsent k) (sym same) (lookup-removed id k m h)
      ] in
      settle_entry-IsAbsent k t now (insert_entry t now m')
        (sender_is_funded t.sender s (insert_entry t now m'))
        (insert_entry-IsAbsent k t now m' other left)
  admit-IsAbsent k t s now m (err e) other h _ = h
  admit-IsAbsent k t s now m panicked other h _ = h

  accept_valid-IsAbsent :
      (k : Hash32) (t : Transaction) (s : LedgerState) (now : ℕ) (m : Mempool)
      (valid : Result MempoolError (Unit {0}))
      → bytes_eq k (Transaction.id t) ≡ false
      → IsAbsent k m
      → IsAbsent k (accept_valid t s now m valid).0
  unfolding accept_valid
  accept_valid-IsAbsent k t s now m (ok u) other h =
      elim (Option-cases (OrderedMap.lookup (Transaction.id t) m.entries)) [
        | inl fresh ↦ rw fresh (admit-IsAbsent k t s now m (replace_existing t m) other h refl)
        | inr (e, waiting) ↦ rw waiting h
      ]
  accept_valid-IsAbsent k t s now m (err e) other h = h
  accept_valid-IsAbsent k t s now m panicked other h = h

  -- Accepting a transaction brings no other into the pool.
  pub accept-IsAbsent :
      (k : Hash32) (t : Transaction) (s : LedgerState) (now : ℕ) (m : Mempool)
      → bytes_eq k (Transaction.id t) ≡ false
      → IsAbsent k m
      → IsAbsent k (accept t s now m).0
  unfolding accept
  accept-IsAbsent k t s now m other h =
      accept_valid-IsAbsent k t s now m (validate_for_relay t m.policy s) other h

  remove_confirmed-keeps :
      (k : Hash32) (ts : List Transaction) (m : Mempool)
      → IsAbsent k m
      → IsAbsent k (remove_confirmed ts m)
  unfolding remove_confirmed
  remove_confirmed-keeps k [] m h = h
  remove_confirmed-keeps k (t ∷ ts) m h =
      remove_confirmed-keeps k ts (remove (Transaction.id t) m)
        (lookup-removed (Transaction.id t) k m h)

  -- What is confirmed is no longer in the pool.
  pub remove_confirmed-IsAbsent :
      (ts : List Transaction) (m : Mempool) {t : Transaction}
      → Memᴰ t ts
      → IsAbsent (Transaction.id t) (remove_confirmed ts m)
  unfolding remove_confirmed
  remove_confirmed-IsAbsent [] m there = absurd (Memᴰ.not-nil there)
  remove_confirmed-IsAbsent (x ∷ ts) m (Memᴰ.head here) =
      subst (λ z. IsAbsent (Transaction.id z) (remove_confirmed ts (remove (Transaction.id x) m)))
        (sym here)
        (remove_confirmed-keeps (Transaction.id x) ts (remove (Transaction.id x) m)
          (remove-IsAbsent (Transaction.id x) m))
  remove_confirmed-IsAbsent (x ∷ ts) m (Memᴰ.tail there) =
      remove_confirmed-IsAbsent ts (remove (Transaction.id x) m) there
