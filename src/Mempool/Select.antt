-- ===== src/Mempool/Select.antt =====
-- `Mempool::select`: the transactions of the pool that a block takes.

use paritr_node.Prelude.{
  ℕ, zero, suc, ◌*◌, Bool, ◌||◌, ◌&&◌, not, any, Option, none, some, List, [], ◌∷◌, ◌==◌, ltb, leb,
  length, wrapping_add, saturating_add, Result, ok, panicked, ◌>>=◌, if◌then◌else◌,
}
use paritr_node.Prelude.Order.{bytes_ord, bytes_eq, bytes_lt}
use paritr_node.Prelude.Sort.{sort_by}
use paritr_node.OrderedMap.{OrderedMap}
use paritr_node.Crypto.{Primitives, Hash32}
use paritr_node.Errors.{ConsensusError}
use paritr_node.Types.Transaction.{Transaction}
use paritr_node.State.Ledger.{LedgerState, account_of, debit, credit, set_nonce}
use paritr_node.Mempool.{Mempool, Entry}

-- `.expect(..)`
abbrev pub expect_moved : Result ConsensusError LedgerState → Result ConsensusError LedgerState
expect_moved (ok s) = ok s
expect_moved _ = panicked

-- What the filter asks of an entry.
unfoldable pub is_eligible : LedgerState → List Hash32 → Hash32 × Entry → Bool
is_eligible working included (id, entry) =
    let t = entry.transaction in
    let a = account_of working t.sender in
    not (any (bytes_eq id) included)
    && ((a.nonce == t.nonce) && leb (saturating_add t.amount t.fee) a.balance)

unfoldable pub candidates :
    LedgerState → List Hash32 → OrderedMap Hash32 Entry → List (Hash32 × Entry)
unfolding is_eligible
candidates working included [] = []
candidates working included (x ∷ rest) =
    let more = candidates working included rest in
    if is_eligible working included x then x ∷ more else more

-- The comparison of the sort: the higher rate first, then the lower identifier.
abbrev pub ranks_before : Hash32 × Entry → Hash32 × Entry → Bool
ranks_before (left_id, left) (right_id, right) =
    let left_rate = left.transaction.fee * right.size in
    let right_rate = right.transaction.fee * left.size in
    ltb right_rate left_rate || ((left_rate == right_rate) && not (bytes_lt right_id left_id))

-- `candidates.first()`
abbrev pub first_of : List (Hash32 × Entry) → Option (Hash32 × Entry)
first_of [] = none
first_of (x ∷ rest) = some x

module _ ⦃p : Primitives⦄ where
  -- The moves of a transaction on the working ledger.
  unfoldable pub spend : Transaction → LedgerState → Result ConsensusError LedgerState
  unfolding debit credit set_nonce
  spend t working = do
    debited ← expect_moved (debit t.sender (wrapping_add t.amount t.fee) working)
    credited ← expect_moved (credit t.recipient t.amount debited)
    ok (set_nonce t.sender (wrapping_add t.nonce 1) credited)

  -- The loop, with the identifiers included so far; there are as many as selected transactions. A
  -- round includes an entry that was not, so one more than the entries is fuel enough.
  unfoldable pub select_from :
      ℕ
      → ℕ
      → OrderedMap Hash32 Entry
      → LedgerState
      → List Hash32
      → Result ConsensusError (List Transaction)
  unfolding candidates sort_by spend
  select_from zero maximum entries working included = panicked
  select_from (suc fuel) maximum entries working included =
      elim (first_of (sort_by ranks_before (candidates working included entries))) [
        | none ↦ ok []
        | some (id, entry) ↦ do
          next ← spend entry.transaction working
          let rest = select_from fuel maximum entries next (id ∷ included)
          if leb maximum (suc (length included))
              then ok (entry.transaction ∷ [])
              else (do more ← rest; ok (entry.transaction ∷ more))
      ]

  unfoldable pub select : LedgerState → ℕ → Mempool → Result ConsensusError (List Transaction)
  unfolding select_from
  select state maximum m = select_from (suc (length m.entries)) maximum m.entries state []
