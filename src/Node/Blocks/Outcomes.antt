-- ===== src/Node/Blocks/Outcomes.antt =====
-- What a submitted block does to a node.

use paritr_node.Prelude.{
  ℕ, ◌≤◌, ◌≡◌, ◌≢◌, refl, Bool, true, false, Bool-cases, inl, inr, List, arith, Result, ok, err,
  panicked, >>=-eq-ok,
}
use paritr_node.Prelude.Order.{bytes_eq}
use paritr_node.Crypto.{Primitives}
use paritr_node.Errors.{ConsensusError}
use paritr_node.Types.Transaction.{Transaction}
use paritr_node.Types.Block
use paritr_node.Types.Block.{Block}
use paritr_node.Validation.Seed.{PowVerifier}
use paritr_node.Chain
use paritr_node.Chain.{
  Chain, ChainEvent, extended, reorganized, known, side_chain, tip, block_by_hash, is_some,
  consider_chain,
}
use paritr_node.Chain.Built.{IsValid, append_outcomes, append-IsValid}
use paritr_node.Chain.Preference.{consider_chain_work}
use paritr_node.Node.State.{Node, Storage, StorageError}
use paritr_node.Node.Blocks.Adopted.{Adopted, adopt-Adopted}
use paritr_node.Node.Blocks.Moved.{Takes, Moves, try_block-Moves}
use paritr_node.Node.Blocks.{
  try_block, assemble_candidate, changes_chain, finish_block, save_and_adopt, after_side_block,
  after_try, submit_block, storage_result, moved_transactions,
}

abbrev is_ok : Result ConsensusError ChainEvent → Bool
is_ok (ok event) = true
is_ok _ = false

module _ ⦃p : Primitives⦄ where
  -- A candidate that is tried successfully is valid, and has no less work.
  pub record IsBetter (pow : PowVerifier) (live candidate : Chain) : Type 0 where
    pub valid : IsValid pow candidate
    pub work : live.cumulative_work ≤ candidate.cumulative_work

  append-IsBetter :
      (block : Block) (pow : PowVerifier) (now : ℕ) (c c' : Chain) (e : ChainEvent)
      → IsValid pow c
      → Chain.append block pow now c ≡ ok (c', e)
      → IsBetter pow c c'
  append-IsBetter block pow now c c' e v h = record {
    valid = append-IsValid block pow now c c' e v h;
    work = elim (append_outcomes block pow now c c' e h) [
      | inl (_, same) ↦ rw same (omega arith)
      | inr (_, x) ↦ omega (arith, x.work)
    ];
  }

  module _ {S : Type 0} (db : Storage S) (pow : PowVerifier) (now : ℕ) where
    try_block-IsBetter :
        (store : S) (live : Chain) (block : Block) (c : Chain) (e : ChainEvent)
        → IsValid pow live
        → try_block db pow now store live block ≡ ok (c, e)
        → IsBetter pow live c
    unfolding try_block
    try_block-IsBetter store live block c e v h =
        let (old_tip, _, rest) = >>=-eq-ok (tip live) _ h in
        elim (Bool-cases (bytes_eq block.header.previous_block (Block.id old_tip))) [
          | inl follows ↦ append-IsBetter block pow now live c e v (rw follows at rest)
          | inr branches ↦
              let (blocks, _, considered) =
                >>=-eq-ok (assemble_candidate db store live block) _ (rw branches at rest) in
              let (valid, work) = consider_chain_work blocks pow now live c e v considered in
              record { valid = valid; work = work }
        ]

    -- What `submit_block` of `block` does to a node, with the result `r`: nothing, to a block that is
    -- known or refused; what the storage keeps of it, where the storage fails or the chain stays; and
    -- otherwise a change to the better chain that the block leads to.
    pub data Submitted (block : Block) (node node' : Node S) (r : Result ConsensusError ChainEvent)
        : Type 0 where
      seen :
          is_some (block_by_hash node.chain (Block.id block)) ≡ true
          → node' ≡ node
          → r ≡ ok known
          → Submitted block node node' r
      refused :
          (x : ConsensusError)
          → try_block db pow now node.storage node.chain block ≡ err x
          → node' ≡ node
          → r ≡ err x
          → Submitted block node node' r
      halted :
          try_block db pow now node.storage node.chain block ≡ panicked
          → node' ≡ node
          → r ≡ panicked
          → Submitted block node node' r
      unstored :
          (candidate : Chain) (e : ChainEvent)
          → try_block db pow now node.storage node.chain block ≡ ok (candidate, e)
          → storage_result (db.store_side_block block node.storage).1 ≢ ok tt
          → node' ≡ record node { storage = (db.store_side_block block node.storage).0 }
          → is_ok r ≡ false
          → Submitted block node node' r
      aside :
          (candidate : Chain) (e : ChainEvent)
          → try_block db pow now node.storage node.chain block ≡ ok (candidate, e)
          → changes_chain e ≡ false
          → node' ≡ record node { storage = (db.store_side_block block node.storage).0 }
          → r ≡ ok e
          → Submitted block node node' r
      unsaved :
          (candidate : Chain) (e : ChainEvent) (store : S)
          → try_block db pow now node.storage node.chain block ≡ ok (candidate, e)
          → changes_chain e ≡ true
          → store ≡ (db.save_chain candidate (db.store_side_block block node.storage).0).0
          → storage_result (db.save_chain candidate (db.store_side_block block node.storage).0).1
            ≢ ok tt
          → node' ≡ record node { storage = store }
          → is_ok r ≡ false
          → Submitted block node node' r
      adopted :
          (candidate : Chain) (e : ChainEvent) (confirmed detached : List Transaction)
          → try_block db pow now node.storage node.chain block ≡ ok (candidate, e)
          → Takes db pow now node.storage node.chain candidate block e confirmed detached
          → IsBetter pow node.chain candidate
          → Adopted now confirmed detached candidate
              (db.save_chain candidate (db.store_side_block block node.storage).0).0
              node
              node'
          → r ≡ ok e
          → Submitted block node node' r

    module _ (block : Block) (node : Node S) where
      abbrev stored : S × Result StorageError (Unit {0})
      stored = db.store_side_block block node.storage

      module _ (candidate : Chain) (e : ChainEvent)
          (tried : try_block db pow now node.storage node.chain block ≡ ok (candidate, e))
          (better : IsBetter pow node.chain candidate) where
        abbrev saved : S × Result StorageError (Unit {0})
        saved = db.save_chain candidate stored.0

        finish_block-Submitted :
            (m : Moves db pow now node.storage node.chain candidate block e)
            (answer : Result ConsensusError (Unit {0}))
            → storage_result saved.1 ≡ answer
            → changes_chain e ≡ true
            → let (node', r) =
                finish_block now m.confirmed m.detached candidate e
                  (record node { storage = saved.0 })
                  answer
                  (ok m.new_tip) in
              Submitted block node node' r
        unfolding finish_block
        finish_block-Submitted m (ok u) h change =
            adopted candidate e m.confirmed m.detached tried m.takes better
              (adopt-Adopted now m.confirmed m.detached candidate m.new_tip saved.0 node
                m.new_tip_eq)
              refl
        finish_block-Submitted m (err x) h change =
            unsaved candidate e saved.0 tried change refl (λ k. cc) refl refl
        finish_block-Submitted m panicked h change =
            unsaved candidate e saved.0 tried change refl (λ k. cc) refl refl

        save_and_adopt-Submitted :
            Moves db pow now node.storage node.chain candidate block e
            → changes_chain e ≡ true
            → let (node', r) =
                save_and_adopt db now candidate e
                  (record node { storage = stored.0 })
                  (moved_transactions block e node.chain candidate) in
              Submitted block node node' r
        unfolding save_and_adopt
        save_and_adopt-Submitted m change =
            rw (m.moved, m.new_tip_eq)
              (finish_block-Submitted m (storage_result saved.1) refl change)

        after_side_block-Submitted :
            (answer : Result ConsensusError (Unit {0}))
            → storage_result stored.1 ≡ answer
            → let (node', r) =
                after_side_block db now block candidate e
                  (record node { storage = stored.0 })
                  answer in
              Submitted block node node' r
        unfolding after_side_block
        after_side_block-Submitted (ok u) h = elim (Bool-cases (changes_chain e)) [
          | inl change ↦ rw change (
              save_and_adopt-Submitted
                (try_block-Moves db pow now node.storage node.chain candidate block e change tried)
                change)
          | inr same ↦ rw same (aside candidate e tried same refl refl)
        ]
        after_side_block-Submitted (err x) h = unstored candidate e tried (λ k. cc) refl refl
        after_side_block-Submitted panicked h = unstored candidate e tried (λ k. cc) refl refl

      after_try-Submitted :
          (tried : Result ConsensusError (Chain × ChainEvent))
          → try_block db pow now node.storage node.chain block ≡ tried
          → IsValid pow node.chain
          → let (node', r) = after_try db now block node tried in Submitted block node node' r
      unfolding after_try
      after_try-Submitted (ok (c, e)) h v =
          after_side_block-Submitted c e h
            (try_block-IsBetter node.storage node.chain block c e v h) (storage_result stored.1)
            refl
      after_try-Submitted (err x) h v = refused x h refl refl
      after_try-Submitted panicked h v = halted h refl refl

    -- A block that is submitted to a node with a valid chain leaves the node as it is when it is known
    -- or refused. Otherwise the storage keeps it; where the storage fails, or the block does not change
    -- the chain, the node changes in nothing else. Where the storage answers and the chain changes, the
    -- node stands on a valid chain of no less work: the chain with the block at its end, or the whole
    -- branch that is preferred to it. The workshares are emptied and stand at the new tip, none waits,
    -- the block is announced, the generation counts up, and the pool of transactions holds none that
    -- the new chain confirms and was offered those that only the old chain held. Peers and queues stay.
    pub submit_block_outcomes :
        (block : Block) (node : Node S)
        → IsValid pow node.chain
        → let (node', r) = submit_block db pow now block node in Submitted block node node' r
    unfolding submit_block
    submit_block_outcomes block node v =
        elim (Bool-cases (is_some (block_by_hash node.chain (Block.id block)))) [
          | inl there ↦ rw there (seen there refl refl)
          | inr fresh ↦ rw fresh (
              after_try-Submitted block node (try_block db pow now node.storage node.chain block)
                refl v)
        ]
