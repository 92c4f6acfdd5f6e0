-- ===== src/Node/Blocks/Adopted.antt =====
-- What a node is once it has taken a chain over.
use paritr_node.Prelude.{
  ℕ, ◌≡◌, refl, sym, true, false, ◌+◌, ◌%◌, any, map, List, [], ◌∷◌, ◌++◌, Bool-cases, inl, inr,
  arith, ok, u64_mod, if◌then◌else◌,
}
use mathlib.Core.Path.{subst}
use mathlib.Core.List.{Memᴰ}
use mathlib.Core.List.Memᴰ
use paritr_node.Prelude.Order.{bytes_eq, bytes_eq_refl, eq_of_bytes_eq}
use paritr_node.Crypto.{Primitives, Hash32, zero_hash}
use paritr_node.Types.Transaction
use paritr_node.Types.Transaction.{Transaction}
use paritr_node.Types.Block
use paritr_node.Types.Block.{Block}
use paritr_node.State.Ledger.{LedgerState}
use paritr_node.Chain.{Chain, tip}
use paritr_node.Mempool
use paritr_node.Mempool.{Mempool, remove_confirmed}
use paritr_node.Mempool.Absent.{IsAbsent, accept-IsAbsent, remove_confirmed-IsAbsent}
use paritr_node.Network.ObjectKind
use paritr_node.Network.WireMessage.{inventory}
use paritr_node.Node.State.{Node}
use paritr_node.Node.Blocks.{adopt, resurrect}

module _ ⦃p : Primitives⦄ where
  -- The transactions of the old chain that the new one does not hold.
  unfoldable pub unconfirmed : List Transaction → List Transaction → List Transaction
  unconfirmed confirmed [] = []
  unconfirmed confirmed (t ∷ detached) =
      let rest = unconfirmed confirmed detached in
      if any (bytes_eq (Transaction.id t)) (map Transaction.id confirmed) then rest else t ∷ rest

  -- Each is offered to the pool, in turn.
  unfoldable pub offered : LedgerState → ℕ → List Transaction → Mempool → Mempool
  offered state now [] pool = pool
  offered state now (t ∷ rest) pool = offered state now rest (Mempool.accept t state now pool).0

  -- The node stands on `candidate`, whose last block is `new_tip`: its pool of workshares is empty and
  -- stands at that block, no workshare waits, the pool of transactions holds none that is confirmed
  -- and was offered those that are not any more, the block is announced, and the rest is as before.
  pub record Adopted {S : Type 0} (now : ℕ) (confirmed detached : List Transaction)
      (candidate : Chain) (store : S) (node node' : Node S) : Type 0 where
    pub new_tip : Block
    pub new_tip_eq : tip candidate ≡ ok new_tip
    pub chain : node'.chain ≡ candidate
    pub storage : node'.storage ≡ store
    pub workshares : node'.workshares ≡ record {
      anchor = Block.id new_tip;
      templates = [];
      template_bytes = 0;
      shares = [];
      path_work = [];
      tip = zero_hash;
    }
    pub waiting : node'.pending_workshares ≡ []
    pub mempool :
        node'.mempool
        ≡ offered candidate.state now
            (unconfirmed confirmed detached)
            (remove_confirmed confirmed node.mempool)
    pub absent : (t : Transaction) → Memᴰ t confirmed → IsAbsent (Transaction.id t) node'.mempool
    pub generation : node'.generation ≡ (node.generation + 1) % u64_mod
    pub events : node'.events ≡ node.events ++ (inventory ObjectKind.block (Block.id new_tip) ∷ [])
    pub peers : node'.connected_peers ≡ node.connected_peers
    pub queues : node'.sync_queues ≡ node.sync_queues
    pub inbound : node'.max_inbound_peers ≡ node.max_inbound_peers
    pub outbound : node'.max_outbound_peers ≡ node.max_outbound_peers

  resurrect-offered :
      (confirmed : List Transaction) (s : LedgerState) (now : ℕ) (detached : List Transaction)
      (m : Mempool)
      → resurrect (map Transaction.id confirmed) s now detached m
        ≡ offered s now (unconfirmed confirmed detached) m
  unfolding resurrect offered unconfirmed
  resurrect-offered confirmed s now [] m = refl
  resurrect-offered confirmed s now (t ∷ ts) m =
      elim (Bool-cases (any (bytes_eq (Transaction.id t)) (map Transaction.id confirmed))) [
        | inl again ↦ rw again (resurrect-offered confirmed s now ts m)
        | inr gone ↦ rw gone (resurrect-offered confirmed s now ts (Mempool.accept t s now m).0)
      ]

  -- A confirmed identifier is not that of a transaction which goes back.
  any-Mem :
      (ts : List Transaction) {t : Transaction}
      → Memᴰ t ts
      → any (bytes_eq (Transaction.id t)) (map Transaction.id ts) ≡ true
  any-Mem [] there = absurd (Memᴰ.not-nil there)
  any-Mem (x ∷ ts) (Memᴰ.head here) =
      subst (λ z. any (bytes_eq (Transaction.id z)) (map Transaction.id (x ∷ ts)) ≡ true) (sym here)
        (rw (bytes_eq_refl (Transaction.id x)) refl)
  any-Mem (x ∷ ts) (Memᴰ.tail there) = rw (any-Mem ts there) (ground arith)

  apart :
      (k j : Hash32) (ids : List Hash32)
      → any (bytes_eq k) ids ≡ true
      → any (bytes_eq j) ids ≡ false
      → bytes_eq k j ≡ false
  apart k j ids inside outside = elim (Bool-cases (bytes_eq k j)) [
    | inl same ↦
        let e : k ≡ j = eq_of_bytes_eq k j same in
        absurd (cc (subst (λ z. any (bytes_eq z) ids ≡ true) e inside))
    | inr other ↦ other
  ]

  resurrect-IsAbsent :
      (k : Hash32) (ids : List Hash32) (s : LedgerState) (now : ℕ) (detached : List Transaction)
      (m : Mempool)
      → any (bytes_eq k) ids ≡ true
      → IsAbsent k m
      → IsAbsent k (resurrect ids s now detached m)
  unfolding resurrect
  resurrect-IsAbsent k ids s now [] m inside h = h
  resurrect-IsAbsent k ids s now (t ∷ ts) m inside h =
      elim (Bool-cases (any (bytes_eq (Transaction.id t)) ids)) [
        | inl again ↦ rw (resurrect, again) (resurrect-IsAbsent k ids s now ts m inside h)
        | inr gone ↦
            rw (resurrect, gone)
              (resurrect-IsAbsent k ids s now ts (Mempool.accept t s now m).0 inside
                (accept-IsAbsent k t s now m (apart k (Transaction.id t) ids inside gone) h))
      ]

  pub adopt-Adopted :
      {S : Type 0} (now : ℕ) (confirmed detached : List Transaction) (candidate : Chain) (b : Block)
      (store : S) (node : Node S)
      → tip candidate ≡ ok b
      → Adopted now confirmed detached candidate store node
          (adopt now confirmed detached candidate (Block.id b) (record node { storage = store }))
  unfolding adopt paritr_node.Node.WorksharePool.reset
  adopt-Adopted now confirmed detached candidate b store node h = record {
    new_tip = b;
    new_tip_eq = h;
    chain = refl;
    storage = refl;
    workshares = refl;
    waiting = refl;
    mempool =
        resurrect-offered confirmed candidate.state now detached
          (remove_confirmed confirmed node.mempool);
    absent = λ t there.
        resurrect-IsAbsent (Transaction.id t) (map Transaction.id confirmed) candidate.state now
          detached (remove_confirmed confirmed node.mempool) (any-Mem confirmed there)
          (remove_confirmed-IsAbsent confirmed node.mempool there);
    generation = refl;
    events = refl;
    peers = refl;
    queues = refl;
    inbound = refl;
    outbound = refl;
  }
