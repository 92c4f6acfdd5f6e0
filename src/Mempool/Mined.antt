-- ===== src/Mempool/Mined.antt =====
-- What `Mempool::select` gives: transactions that a block can apply, one after the other.
use paritr_node.Prelude.{
  ℕ, zero, suc, ◌+◌, ◌≤◌, ◌<◌, ◌≡◌, inl, inr, refl, arith, List, [], ◌∷◌, length, max, Bool-cases,
  Option-cases, wrapping_add, leb, u64_mod, ok,
}
use mathlib.Core.List.{Memᴰ}
use paritr_node.Mempool.Eligible.{
  left, left-le-length, left-lt, Mem-sort_by, Mem-candidates, Mem-first_of, is_eligible-eq-true,
}
use paritr_node.Prelude.Sort.{sort_by}
use paritr_node.OrderedMap.{OrderedMap}
use paritr_node.Crypto.{Primitives, Hash32}
use paritr_node.Params.{max_money}
use paritr_node.Types.Transaction.{Transaction}
use paritr_node.State.Ledger.{LedgerState, account_of, debit, credit, set_nonce}
use paritr_node.State.Supply.{total_balance, IsOrdered}
use paritr_node.State.Supply.Accounts.{
  balance-le-total, credit-ok, debit-ok, credit_moves, debit_moves, set_nonce_moves,
}
use paritr_node.Validation.Apply.{move_money}
use paritr_node.Mempool.{Mempool, Entry}
use paritr_node.Mempool.Select.{candidates, ranks_before, first_of, spend, select_from, select}

module _ ⦃p : Primitives⦄ where
  spend-eq :
      (t : Transaction) (s s1 s2 : LedgerState) (total next : ℕ)
      → wrapping_add t.amount t.fee ≡ total
      → wrapping_add t.nonce 1 ≡ next
      → debit t.sender total s ≡ ok s1
      → credit t.recipient t.amount s1 ≡ ok s2
      → spend t s ≡ ok (set_nonce t.sender next s2)
  unfolding spend
  spend-eq t s s1 s2 total next sum step paid got = rw (sum, paid, got, step) refl

  move_money-eq :
      (t : Transaction) (s s1 s2 : LedgerState) (total : ℕ)
      → debit t.sender total s ≡ ok s1
      → credit t.recipient t.amount s1 ≡ ok s2
      → t.nonce + 1 < u64_mod
      → move_money t total s ≡ ok (set_nonce t.sender (t.nonce + 1) s2)
  unfolding move_money
  move_money-eq t s s1 s2 total paid got nonce = rw (paid, got) (ground arith)

  -- A transaction that its sender can pay moves, as it does in a block.
  spend-ok :
      (t : Transaction) (s : LedgerState)
      → IsOrdered s
      → total_balance s ≤ max_money
      → t.amount + t.fee ≤ (account_of s t.sender).balance
      → t.nonce + 1 < u64_mod
      → (s' : LedgerState) × (spend t s ≡ ok s')
        × (move_money t (t.amount + t.fee) s ≡ ok s')
        × IsOrdered s'
        × (total_balance s' ≤ max_money)
  spend-ok t s ordered bound funded nonce =
      let held = balance-le-total s t.sender in
      let (s1, paid) = debit-ok t.sender (t.amount + t.fee) s funded in
      let (ordered1, left1, _) = debit_moves t.sender (t.amount + t.fee) s s1 ordered paid in
      let room = balance-le-total s1 t.recipient in
      let (s2, got) = credit-ok t.recipient t.amount s1 (omega (arith, room, left1, bound)) in
      let (ordered2, left2, _) = credit_moves t.recipient t.amount s1 s2 ordered1 got in
      let (ordered3, left3, _) = set_nonce_moves t.sender (t.nonce + 1) s2 ordered2 in
      (
        set_nonce t.sender (t.nonce + 1) s2,
        spend-eq t s s1 s2 (t.amount + t.fee) (t.nonce + 1) (ground arith) (ground arith) paid got,
        move_money-eq t s s1 s2 (t.amount + t.fee) paid got nonce,
        ordered3,
        omega (arith, left1, left2, left3, bound),
      )

  -- Transactions that a block can take from a ledger: each is an entry, has its sender's nonce, is
  -- paid for, and moves the ledger to one from which the next goes on.
  pub data Mined (entries : OrderedMap Hash32 Entry) : LedgerState → List Transaction → Type 0 where
    stops : {s : LedgerState} → Mined entries s []
    takes :
        {s s' : LedgerState} {id : Hash32} {e : Entry} {rest : List Transaction}
        → Memᴰ (id, e) entries
        → (account_of s e.transaction.sender).nonce ≡ e.transaction.nonce
        → e.transaction.amount + e.transaction.fee ≤ (account_of s e.transaction.sender).balance
        → move_money e.transaction (e.transaction.amount + e.transaction.fee) s ≡ ok s'
        → Mined entries s' rest
        → Mined entries s (e.transaction ∷ rest)

  module _ (maximum : ℕ) (entries : OrderedMap Hash32 Entry)
      (nonces : (id : Hash32) (e : Entry)
        → Memᴰ (id, e) entries
        → e.transaction.nonce + 1 < u64_mod) where
    select_from-Mined :
        (fuel : ℕ) (s : LedgerState) (included : List Hash32)
        → IsOrdered s
        → total_balance s ≤ max_money
        → left included entries < fuel
        → (ts : List Transaction) × (select_from fuel maximum entries s included ≡ ok ts)
          × Mined entries s ts
          × (length included + length ts ≤ max maximum (suc (length included)))
    unfolding select_from
    select_from-Mined zero s included ordered bound enough = absurd (omega (arith, enough))
    select_from-Mined (suc fuel) s included ordered bound enough =
        let found = sort_by ranks_before (candidates s included entries) in
        elim (Option-cases (first_of found)) [
          | inl nothing ↦ ([], rw (nothing, select_from) refl, stops, omega arith)
          | inr ((id, e), first) ↦
              let (fits, there) = Mem-candidates s included entries (
                Mem-sort_by ranks_before (candidates s included entries)
                  (Mem-first_of found first)) in
              let (fresh, nonce, funded) = is_eligible-eq-true s included id e bound fits in
              let (s', spent, moved, ordered', bound') =
                spend-ok e.transaction s ordered bound funded (nonces id e there) in
              let fewer = left-lt id e included entries there fresh in
              let (rest, more, mined, count) =
                select_from-Mined fuel s' (id ∷ included) ordered' bound'
                  (omega (arith, fewer, enough)) in
              elim (Bool-cases (leb maximum (suc (length included)))) [
                | inl full ↦ (
                  e.transaction ∷ [],
                  rw (first, spent, full, select_from) refl,
                  takes there nonce funded moved stops,
                  omega arith,
                )
                | inr room ↦ (
                  e.transaction ∷ rest,
                  rw (first, spent, room, more, select_from) refl,
                  takes there nonce funded moved mined,
                  ground (arith, count, room),
                )
              ]
        ]

  -- On a ledger in order whose balances together are within the money range, and with no entry at the
  -- last nonce of 64 bits, `select` ends without a panic. What it gives are entries of the pool, no
  -- more than asked for (but one when none is asked for), that a block on that ledger can apply one
  -- after the other: each has its sender's nonce and is paid for when its turn comes.
  pub select-Mined :
      (s : LedgerState) (maximum : ℕ) (m : Mempool)
      → IsOrdered s
      → total_balance s ≤ max_money
      → ((id : Hash32) (e : Entry) → Memᴰ (id, e) m.entries → e.transaction.nonce + 1 < u64_mod)
      → (ts : List Transaction) × (select s maximum m ≡ ok ts)
        × Mined m.entries s ts
        × (length ts ≤ max maximum 1)
  unfolding select
  select-Mined s maximum m ordered bound nonces =
      let few = left-le-length [] m.entries in
      let (ts, result, mined, count) =
        select_from-Mined maximum m.entries nonces (suc (length m.entries)) s [] ordered bound
          (omega (arith, few)) in
      (ts, result, mined, omega (arith, count))
