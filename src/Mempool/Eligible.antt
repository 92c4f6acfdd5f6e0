-- ===== src/Mempool/Eligible.antt =====
-- The entries among which `Mempool::select` chooses.
use paritr_node.Prelude.{
  ℕ, suc, ◌+◌, ◌≤◌, ◌<◌, ◌≡◌, ◌⊎◌, inl, inr, arith, Bool, true, false, any, some, List, [], ◌∷◌,
  length, Bool-cases, if◌then◌else◌,
}
use mathlib.Core.List.{Memᴰ}
use mathlib.Core.List.Memᴰ
use paritr_node.Prelude.Order.{bytes_eq, bytes_eq_refl}
use paritr_node.Prelude.Sort.{insert_sorted, sort_by}
use paritr_node.OrderedMap.{OrderedMap}
use paritr_node.Crypto.{Hash32}
use paritr_node.Params.{max_money}
use paritr_node.State.Ledger.{LedgerState, account_of}
use paritr_node.State.Supply.{total_balance}
use paritr_node.State.Supply.Accounts.{balance-le-total}
use paritr_node.Mempool.{Entry}
use paritr_node.Mempool.Select.{is_eligible, candidates, first_of}

module _ {ℓ} {A : Type ℓ} (le : A → A → Bool) where
  Mem-insert_sorted :
      (a : A) (l : List A) {x : A} → Memᴰ x (insert_sorted le a l) → (x ≡ a) ⊎ Memᴰ x l
  unfolding insert_sorted
  Mem-insert_sorted a [] h = inl (Memᴰ.eq_of_singleton h)
  Mem-insert_sorted a (b ∷ l) {x} h = elim (Bool-cases (le a b)) [
    | inl before ↦ Memᴰ.cases_cons (rw before at h)
    | inr behind ↦ elim (Memᴰ.cases_cons {l = insert_sorted le a l} (rw behind at h)) [
      | inl here ↦ inr (Memᴰ.head here)
      | inr later ↦ elim (Mem-insert_sorted a l later) [
        | inl same ↦ inl same
        | inr there ↦ inr (Memᴰ.tail there)
      ]
    ]
  ]

  pub Mem-sort_by : (l : List A) {x : A} → Memᴰ x (sort_by le l) → Memᴰ x l
  unfolding sort_by
  Mem-sort_by [] h = h
  Mem-sort_by (a ∷ l) h = elim (Mem-insert_sorted a (sort_by le l) h) [
    | inl same ↦ Memᴰ.head same
    | inr there ↦ Memᴰ.tail (Mem-sort_by l there)
  ]

pub Mem-candidates :
    (s : LedgerState) (included : List Hash32) (l : OrderedMap Hash32 Entry) {x : Hash32 × Entry}
    → Memᴰ x (candidates s included l)
    → (is_eligible s included x ≡ true) × Memᴰ x l
unfolding candidates
Mem-candidates s included [] h = absurd (Memᴰ.not-nil h)
Mem-candidates s included (y ∷ l) {x} h = elim (Bool-cases (is_eligible s included y)) [
  | inl fits ↦ elim (Memᴰ.cases_cons {l = candidates s included l} (rw fits at h)) [
    | inl here ↦ (rw here fits, Memᴰ.head here)
    | inr later ↦ let (fits', there) = Mem-candidates s included l later in (fits', Memᴰ.tail there)
  ]
  | inr other ↦
      let (fits, there) = Mem-candidates s included l (rw other at h) in (fits, Memᴰ.tail there)
]

pub Mem-first_of : (l : List (Hash32 × Entry)) {x : Hash32 × Entry} → first_of l ≡ some x → Memᴰ x l
Mem-first_of [] h = cc
Mem-first_of (y ∷ l) h = Memᴰ.head cc

-- The entries that are not included yet.
unfoldable pub left : List Hash32 → OrderedMap Hash32 Entry → ℕ
left included [] = 0
left included ((id, e) ∷ m) =
    let more = left included m in if any (bytes_eq id) included then more else suc more

pub left-le-length :
    (included : List Hash32) (m : OrderedMap Hash32 Entry) → left included m ≤ length m
unfolding left
left-le-length included [] = omega arith
left-le-length included ((id, e) ∷ m) = ground (arith, left-le-length included m)

left-le :
    (k : Hash32) (included : List Hash32) (m : OrderedMap Hash32 Entry)
    → left (k ∷ included) m ≤ left included m
unfolding left
left-le k included [] = omega arith
left-le k included ((id, e) ∷ m) = ground (arith, left-le k included m)

pub left-lt :
    (k : Hash32) (e : Entry) (included : List Hash32) (m : OrderedMap Hash32 Entry)
    → Memᴰ (k, e) m
    → any (bytes_eq k) included ≡ false
    → left (k ∷ included) m < left included m
unfolding left
left-lt k e included [] there fresh = absurd (Memᴰ.not-nil there)
left-lt k e included ((id, f) ∷ m) (Memᴰ.head here) fresh =
    let same : id ≡ k = cc in
    rw (same, fresh, bytes_eq_refl k) (omega (arith, left-le k included m))
left-lt k e included ((id, f) ∷ m) (Memᴰ.tail there) fresh =
    ground (arith, left-lt k e included m there fresh)

-- What the filter asks, in sums that do not wrap.
pub is_eligible-eq-true :
    (s : LedgerState) (included : List Hash32) (id : Hash32) (e : Entry)
    → total_balance s ≤ max_money
    → is_eligible s included (id, e) ≡ true
    → (any (bytes_eq id) included ≡ false)
      × ((account_of s e.transaction.sender).nonce ≡ e.transaction.nonce)
      × (e.transaction.amount + e.transaction.fee ≤ (account_of s e.transaction.sender).balance)
unfolding is_eligible
is_eligible-eq-true s included id e bound h =
    let held = balance-le-total s e.transaction.sender in ground (arith, held)
