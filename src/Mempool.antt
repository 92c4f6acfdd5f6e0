-- ===== src/Mempool.antt =====
-- src/mempool.rs and src/policy.rs: the pool of transactions that wait for a block. `usize` has 64 bits.
-- A call that fails may have changed the pool, so `accept` gives the pool back beside its result.
pub mod Counted
pub mod Bounded
pub mod Accepts
pub mod Absent
pub mod Select
pub mod Eligible
pub mod Mined
use paritr_node.Prelude.{
  ℕ, zero, suc, ◌+◌, ◌-◌, ◌*◌, ◌/◌, max, Bool, true, false, ◌||◌, ◌&&◌, not, Option, none, some,
  List, [], ◌∷◌, ◌==◌, ltb, leb, length, wrapping_add, checked_add, saturating_add, saturating_mul,
  u64_mod, Result, ok, err, panicked, ◌>>=◌, ◌>>◌, fail_if, map_err, if◌then◌else◌,
}
use paritr_node.Prelude.Order.{bytes_ord, bytes_eq, bytes_lt}
use paritr_node.Prelude.Slot.{slot_ord}
use paritr_node.OrderedMap
use paritr_node.OrderedMap.{OrderedMap}
use paritr_node.Crypto.{Primitives, Address, Hash32, CryptoError, parse_and_validate_signature}
use paritr_node.Params.{max_money}
use paritr_node.Types.Transaction
use paritr_node.Types.Transaction.{Transaction}
use paritr_node.State.Ledger.{LedgerState, account_of}

abbrev pub rbf_percent : ℕ
rbf_percent = 10

pub record RelayPolicy : Type 0 where
  pub min_relay_fee : ℕ
  pub dust_limit : ℕ
  pub max_mempool_bytes : ℕ
  pub max_nonce_gap : ℕ
  pub ttl_seconds : ℕ

-- `RelayPolicy::default()`
abbrev pub default_policy : RelayPolicy
default_policy = record {
  min_relay_fee = 100_000;
  dust_limit = 1_000;
  max_mempool_bytes = 64 * 1024 * 1024;
  max_nonce_gap = 64;
  ttl_seconds = 24 * 60 * 60;
}

pub record Entry : Type 0 where
  pub transaction : Transaction
  pub received_at : ℕ
  pub size : ℕ

pub data MempoolError : Type 0 where
  policy_error invalid_error nonce_error balance_error replacement_fee_error : MempoolError

pub record Mempool : Type 0 where
  pub policy : RelayPolicy
  pub entries : OrderedMap Hash32 Entry
  pub by_sender_nonce : OrderedMap (Address × ℕ) Hash32
  pub bytes : ℕ

abbrev pub new_mempool : RelayPolicy → Mempool
new_mempool policy = record { policy = policy; entries = []; by_sender_nonce = []; bytes = 0 }

abbrev pub slot_of : Transaction → Address × ℕ
slot_of t = (t.sender, t.nonce)

abbrev pub contains_key : Option Entry → Bool
contains_key none = false
contains_key (some e) = true

unfoldable pub remove : Hash32 → Mempool → Mempool
remove id m = elim (OrderedMap.lookup id m.entries) [
  | none ↦ m
  | some e ↦ record m {
    entries = OrderedMap.remove id m.entries;
    bytes = m.bytes - e.size;
    by_sender_nonce = OrderedMap.remove (slot_of e.transaction) m.by_sender_nonce;
  }
]

-- The fee that a replacement must pay.
unfoldable pub required_fee : RelayPolicy → ℕ → ℕ
required_fee policy fee =
    saturating_add fee
      (max policy.min_relay_fee (saturating_add (saturating_mul fee rbf_percent) 99 / 100))

unfoldable pub replace_existing : Transaction → Mempool → Result MempoolError Mempool
unfolding remove required_fee
replace_existing t m = elim (OrderedMap.lookup (slot_of t) m.by_sender_nonce) [
  | none ↦ ok m
  | some existing_id ↦ elim (OrderedMap.lookup existing_id m.entries) [
    | none ↦ panicked
    | some existing ↦
        if ltb t.fee (required_fee m.policy existing.transaction.fee)
        then err replacement_fee_error
        else ok (remove existing_id m)
  ]
]

-- `range((sender, nonce)..=(sender, u64::MAX))`
unfoldable pub slots_from :
    Address → ℕ → OrderedMap (Address × ℕ) Hash32 → OrderedMap (Address × ℕ) Hash32
slots_from sender first [] = []
slots_from sender first (((address, nonce), id) ∷ rest) =
    let more = slots_from sender first rest in
    if bytes_eq address sender && leb first nonce then ((address, nonce), id) ∷ more else more

-- The loop over the queued transactions of a sender, with the balance that is left.
unfoldable pub funds_queue :
    Address
    → ℕ
    → ℕ
    → OrderedMap Hash32 Entry
    → OrderedMap (Address × ℕ) Hash32
    → Result MempoolError Bool
funds_queue sender expected_nonce balance entries [] = ok true
funds_queue sender expected_nonce balance entries (((entry_sender, nonce), id) ∷ rest) =
    if not (bytes_eq entry_sender sender) || not (nonce == expected_nonce)
    then ok true
    else elim (OrderedMap.lookup id entries) [
      | none ↦ panicked
      | some e ↦ elim (checked_add e.transaction.amount e.transaction.fee) [
        | none ↦ ok false
        | some needed ↦
            let more = funds_queue sender (expected_nonce + 1) (balance - needed) entries rest in
            if ltb balance needed then ok false else more
      ]
    ]

unfoldable pub sender_is_funded : Address → LedgerState → Mempool → Result MempoolError Bool
unfolding slots_from funds_queue
sender_is_funded sender s m =
    let account = account_of s sender in
    funds_queue sender account.nonce account.balance m.entries
      (slots_from sender account.nonce m.by_sender_nonce)

-- The identifiers that are too old.
unfoldable pub expired : ℕ → ℕ → OrderedMap Hash32 Entry → List Hash32
expired now ttl [] = []
expired now ttl ((id, e) ∷ rest) =
    let more = expired now ttl rest in if ltb ttl (now - e.received_at) then id ∷ more else more

unfoldable pub remove_each : List Hash32 → Mempool → Mempool
unfolding remove
remove_each [] m = m
remove_each (id ∷ rest) m = remove_each rest (remove id m)

-- The order of `min_by`: the fee per byte, then the identifier.
abbrev pub rate_le : Hash32 × Entry → Hash32 × Entry → Bool
rate_le (left_id, left) (right_id, right) =
    let left_rate = left.transaction.fee * right.size in
    let right_rate = right.transaction.fee * left.size in
    ltb left_rate right_rate || (left_rate == right_rate && not (bytes_lt right_id left_id))

unfoldable pub lowest : OrderedMap Hash32 Entry → Option (Hash32 × Entry)
lowest [] = none
lowest (x ∷ rest) = elim (lowest rest) [
  | none ↦ some x
  | some y ↦ if rate_le x y then some x else some y
]

-- `while self.bytes > max_mempool_bytes`; a round removes an entry, so the number of entries is fuel
-- enough.
unfoldable pub trim : ℕ → Mempool → Mempool
unfolding lowest remove
trim zero m = m
trim (suc fuel) m = elim (lowest m.entries) [
  | none ↦ m
  | some (id, e) ↦
      let next = trim fuel (remove id m) in
      if leb m.bytes m.policy.max_mempool_bytes then m else next
]

unfoldable pub expire_and_trim : ℕ → Mempool → Mempool
unfolding expired remove_each trim
expire_and_trim now m =
    let kept = remove_each (expired now m.policy.ttl_seconds m.entries) m in
    trim (length kept.entries) kept

module _ ⦃p : Primitives⦄ where
  unfoldable pub validate_for_relay :
      Transaction → RelayPolicy → LedgerState → Result MempoolError (Unit {0})
  validate_for_relay t rules s = do
    fail_if
        (not (t.version == Transaction.current_version)
          || (t.amount == 0
              || (ltb max_money t.amount
                  || (ltb max_money t.fee
                      || (t.nonce == u64_mod - 1
                          || (ltb t.amount rules.dust_limit
                              || (ltb t.fee rules.min_relay_fee
                                  || (bytes_eq t.sender t.recipient
                                      || (not
                                            (length t.public_key == 33 || length t.public_key == 65)
                                          || not (length t.signature == 64))))))))))
        policy_error
    fail_if
        (ltb t.nonce (account_of s t.sender).nonce
          || ltb (saturating_add (account_of s t.sender).nonce rules.max_nonce_gap) t.nonce)
        nonce_error
    fail_if (not (length t.signature == 64)) invalid_error
    map_err (λ (e : CryptoError). invalid_error)
        (parse_and_validate_signature t.sender t.public_key t.signature
          (Transaction.signature_hash t))

  abbrev pub entry_for : Transaction → ℕ → Entry
  entry_for t now = record { transaction = t; received_at = now; size = Transaction.encoded_len t }

  unfoldable pub insert_entry : Transaction → ℕ → Mempool → Mempool
  insert_entry t now m = record m {
    bytes = wrapping_add m.bytes (Transaction.encoded_len t);
    by_sender_nonce = OrderedMap.insert (slot_of t) (Transaction.id t) m.by_sender_nonce;
    entries = OrderedMap.insert (Transaction.id t) (entry_for t now) m.entries;
  }

  -- The end of `accept`, once the entry stands in the pool and the sender's funds are checked.
  unfoldable pub settle_entry :
      Transaction → ℕ → Mempool → Result MempoolError Bool → Mempool × Result MempoolError Hash32
  unfolding expire_and_trim remove
  settle_entry t now m (ok true) = (expire_and_trim now m, ok (Transaction.id t))
  settle_entry t now m (ok false) = (remove (Transaction.id t) m, err balance_error)
  settle_entry t now m (err e) = (m, err e)
  settle_entry t now m panicked = (m, panicked)

  -- What follows the test of a replacement, which gives the pool without the replaced entry.
  unfoldable pub admit :
      Transaction
      → LedgerState
      → ℕ
      → Mempool
      → Result MempoolError Mempool
      → Mempool × Result MempoolError Hash32
  unfolding insert_entry settle_entry sender_is_funded
  admit t s now m (ok m') =
      let m'' = insert_entry t now m' in settle_entry t now m'' (sender_is_funded t.sender s m'')
  admit t s now m (err e) = (m, err e)
  admit t s now m panicked = (m, panicked)

  -- What follows `validate_for_relay`.
  unfoldable pub accept_valid :
      Transaction
      → LedgerState
      → ℕ
      → Mempool
      → Result MempoolError (Unit {0})
      → Mempool × Result MempoolError Hash32
  unfolding replace_existing admit
  accept_valid t s now m (ok u) =
      if contains_key (OrderedMap.lookup (Transaction.id t) m.entries)
      then (m, ok (Transaction.id t))
      else admit t s now m (replace_existing t m)
  accept_valid t s now m (err e) = (m, err e)
  accept_valid t s now m panicked = (m, panicked)

  unfoldable pub accept :
      Transaction → LedgerState → ℕ → Mempool → Mempool × Result MempoolError Hash32
  unfolding validate_for_relay accept_valid
  accept t s now m = accept_valid t s now m (validate_for_relay t m.policy s)

  unfoldable pub remove_confirmed : List Transaction → Mempool → Mempool
  unfolding remove
  remove_confirmed [] m = m
  remove_confirmed (t ∷ rest) m = remove_confirmed rest (remove (Transaction.id t) m)
