-- ===== src/Mempool/Bounded.antt =====
-- The bound on the bytes, and what accepting a transaction does to the pool.
use paritr_node.Prelude.{
  ℕ, zero, suc, ◌≡◌, ◌≢◌, ◌≤◌, ◌<◌, refl, sym, ap, ◌∙◌, arith, inl, inr, some, none, List, [], ◌∷◌,
  Bool-cases, Option-cases, length, leb,
}
use mathlib.Core.Path.{subst}
use paritr_node.Prelude.Order.{bytes_ord, cmp_bytes_refl}
use paritr_node.Prelude.Slot.{slot_ord}
use paritr_node.OrderedMap
use paritr_node.OrderedMap.{OrderedMap}
use paritr_node.Crypto.{Hash32}
use paritr_node.Mempool.{
  Mempool, Entry, remove, remove_each, trim, lowest, expired, expire_and_trim,
}
use paritr_node.Mempool.Counted.{
  total_size, IsCounted, remove-IsCounted, remove_each-IsCounted, trim-IsCounted, trim-zero,
  trim-nothing, trim-within, trim-over,
}

length-remove-le :
    (id : Hash32) (m : OrderedMap Hash32 Entry) → length (OrderedMap.remove id m) ≤ length m
unfolding OrderedMap.remove
length-remove-le id [] = omega arith
length-remove-le id ((j, e) ∷ m) = ground (arith, length-remove-le id m)

length-remove-lt :
    (id : Hash32) (e : Entry) (m : OrderedMap Hash32 Entry)
    → OrderedMap.lookup id m ≡ some e
    → length (OrderedMap.remove id m) < length m
unfolding OrderedMap.remove OrderedMap.lookup
length-remove-lt id e [] h = cc
length-remove-lt id e ((j, f) ∷ m) h =
    ground (arith, length-remove-le id m, length-remove-lt id e m)

-- The entry that `lowest` finds is in the pool.
lowest-lookup :
    (id : Hash32) (e : Entry) (m : OrderedMap Hash32 Entry)
    → lowest m ≡ some (id, e)
    → OrderedMap.lookup id m ≢ none
unfolding lowest OrderedMap.lookup
lowest-lookup id e [] h = cc
lowest-lookup id e (x ∷ m) h = ground (arith, lowest-lookup id e m, cmp_bytes_refl id)

lowest-none : (m : OrderedMap Hash32 Entry) → lowest m ≡ none → m ≡ []
unfolding lowest
lowest-none [] h = refl
lowest-none (x ∷ m) h = ground arith

empty-of-length : (m : OrderedMap Hash32 Entry) → length m ≤ 0 → m ≡ []
empty-of-length [] h = refl
empty-of-length (x ∷ m) h = absurd (omega arith)

bytes-empty : (m : Mempool) → IsCounted m → m.entries ≡ [] → m.bytes ≡ 0
bytes-empty m h nothing = h.counted ∙ ap total_size nothing

policy-remove : (id : Hash32) (m : Mempool) → (remove id m).policy ≡ m.policy
unfolding remove
policy-remove id m = ground arith

entries-remove :
    (id : Hash32) (e : Entry) (m : Mempool)
    → OrderedMap.lookup id m.entries ≢ none
    → length (remove id m).entries < length m.entries
unfolding remove
entries-remove id e m h = elim (Option-cases (OrderedMap.lookup id m.entries)) [
  | inl missing ↦ absurd (h missing)
  | inr (f, found) ↦ rw (remove, found) (length-remove-lt id f m.entries found)
]

-- With as much fuel as entries, the loop ends within the bound.
trim-le :
    (fuel : ℕ) (m : Mempool)
    → IsCounted m
    → length m.entries ≤ fuel
    → (trim fuel m).bytes ≤ m.policy.max_mempool_bytes
trim-le zero m h few =
    let nothing = bytes-empty m h (empty-of-length m.entries few) in
    subst (λ (x : Mempool). x.bytes ≤ m.policy.max_mempool_bytes) (sym (trim-zero m))
      (omega (arith, nothing))
trim-le (suc fuel) m h few = elim (Option-cases (lowest m.entries)) [
  | inl nothing ↦
      let zero_bytes = bytes-empty m h (lowest-none m.entries nothing) in
      subst (λ (x : Mempool). x.bytes ≤ m.policy.max_mempool_bytes)
        (sym (trim-nothing (suc fuel) m nothing)) (omega (arith, zero_bytes))
  | inr ((id, e), found) ↦ elim (Bool-cases (leb m.bytes m.policy.max_mempool_bytes)) [
    | inl fits ↦
        let within : m.bytes ≤ m.policy.max_mempool_bytes = ground arith in
        subst (λ (x : Mempool). x.bytes ≤ m.policy.max_mempool_bytes)
          (sym (trim-within (suc fuel) m within)) within
    | inr over ↦
        let fewer = entries-remove id e m (lowest-lookup id e m.entries found) in
        let again =
          trim-le fuel (remove id m) (remove-IsCounted id m h) (omega (arith, fewer, few)) in
        let again' : (trim fuel (remove id m)).bytes ≤ m.policy.max_mempool_bytes =
          subst (λ r. (trim fuel (remove id m)).bytes ≤ r.max_mempool_bytes) (policy-remove id m)
            again in
        subst (λ (x : Mempool). x.bytes ≤ m.policy.max_mempool_bytes)
          (sym (trim-over fuel m id e found (ground arith))) again'
  ]
]

policy-remove_each : (ids : List Hash32) (m : Mempool) → (remove_each ids m).policy ≡ m.policy
unfolding remove_each
policy-remove_each [] m = refl
policy-remove_each (id ∷ ids) m = policy-remove_each ids (remove id m) ∙ policy-remove id m

-- After `expire_and_trim` the bytes of the pool are within the policy's bound, and they are still the
-- sum of the sizes of its entries.
pub expire_and_trim_bound :
    (now : ℕ) (m : Mempool)
    → IsCounted m
    → IsCounted (expire_and_trim now m)
      × ((expire_and_trim now m).bytes ≤ m.policy.max_mempool_bytes)
unfolding expire_and_trim
expire_and_trim_bound now m h =
    let ids = expired now m.policy.ttl_seconds m.entries in
    let kept = remove_each ids m in
    let counted = remove_each-IsCounted ids m h in
    (
      trim-IsCounted (length kept.entries) kept counted,
      subst (λ r. (trim (length kept.entries) kept).bytes ≤ r.max_mempool_bytes)
          (policy-remove_each ids m) (trim-le (length kept.entries) kept counted (omega arith)),
    )
