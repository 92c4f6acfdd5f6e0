-- ===== src/Node/Blocks.antt =====
-- `Node::submit_block` and `Node::assemble_candidate`. The call holds the lock of the chain; what it
-- changes before an error is the storage alone.
pub mod Branch
pub mod Adopted
pub mod Moved
pub mod Outcomes
use paritr_node.Prelude.{
  ℕ, zero, suc, ◌+◌, Bool, true, false, not, ◌||◌, Option, none, some, List, [], ◌∷◌, ◌++◌, any,
  length, take, drop, ltb, if◌then◌else◌, saturating_add, Result, ok, err, panicked, ◌>>=◌, ◌>>◌,
  ok_or, fail_if, map,
}
use paritr_node.Prelude.Order.{bytes_eq}
use paritr_node.Crypto.{Primitives, Hash32}
use paritr_node.Errors.{ConsensusError, wrong_parent, storage_invariant}
use paritr_node.Types.Transaction
use paritr_node.Types.Transaction.{Transaction}
use paritr_node.Types.Block
use paritr_node.Types.Block.{Block}
use paritr_node.State.Ledger.{LedgerState}
use paritr_node.Validation.Seed.{PowVerifier}
use paritr_node.Chain
use paritr_node.Chain.{
  Chain, ChainEvent, extended, reorganized, known, side_chain, tip, block_by_hash, is_some,
  consider_chain,
}
use paritr_node.Mempool
use paritr_node.Mempool.{Mempool, remove_confirmed}
use paritr_node.Network.ObjectKind
use paritr_node.Network.WireMessage.{inventory}
use paritr_node.Node.WorksharePool.{reset}
use paritr_node.Node.State.{Node, Storage, StorageError, send, next_generation}

abbrev pub max_branch : ℕ
max_branch = 100_000

-- `map_err(|error| ConsensusError::StorageInvariant(..))`
abbrev pub storage_result {ℓ} : {A : Type ℓ} → Result StorageError A → Result ConsensusError A
storage_result (ok a) = ok a
storage_result (err e) = err storage_invariant
storage_result panicked = panicked

-- `&blocks[first..]`
abbrev pub from_index : ℕ → List Block → Result ConsensusError (List Block)
from_index first blocks = if ltb (length blocks) first then panicked else ok (drop first blocks)

-- `&blocks[..=last]`
abbrev pub up_to_index : ℕ → List Block → Result ConsensusError (List Block)
up_to_index last blocks = if ltb last (length blocks) then ok (take (suc last) blocks) else panicked

-- `.flat_map(|block| block.transactions)`
abbrev pub all_transactions : List Block → List Transaction
all_transactions [] = []
all_transactions (b ∷ rest) = b.transactions ++ all_transactions rest

abbrev pub changes_chain : ChainEvent → Bool
changes_chain (extended _ _) = true
changes_chain (reorganized _ _ _) = true
changes_chain known = false
changes_chain side_chain = false

module _ ⦃p : Primitives⦄ where
  -- The loop from a block back to the active chain: `branch` is the source's vector after
  -- `reverse`, and the result has the height of the common block. An iteration that goes on adds a
  -- block, and the length is tested, so 100,001 iterations are enough.
  unfoldable pub find_fork :
      {S : Type 0}
      → ℕ
      → Storage S
      → S
      → Chain
      → Block
      → List Block
      → List Hash32
      → Result ConsensusError (ℕ × List Block)
  find_fork zero db store active first branch seen = panicked
  find_fork (suc fuel) db store active first branch seen =
      let further = (do
        fail_if
            (any (bytes_eq first.header.previous_block) seen
              || ltb max_branch (length (first ∷ branch)))
            wrong_parent
        found ← storage_result (db.stored_block first.header.previous_block store)
        parent ← ok_or found wrong_parent
        find_fork fuel db store active parent (first ∷ branch)
            (first.header.previous_block ∷ seen)) in
      elim (block_by_hash active first.header.previous_block) [
        | some parent ↦ ok (parent.header.height, first ∷ branch)
        | none ↦ further
      ]

  unfoldable pub assemble_candidate :
      {S : Type 0} → Storage S → S → Chain → Block → Result ConsensusError (List Block)
  assemble_candidate db store active block = do
    (fork_height, branch) ← find_fork (suc max_branch) db store active block [] []
    shared ← up_to_index fork_height active.blocks
    ok (shared ++ branch)

  -- The candidate chain, and what becomes of it.
  unfoldable pub try_block :
      {S : Type 0}
      → Storage S
      → PowVerifier
      → ℕ
      → S
      → Chain
      → Block
      → Result ConsensusError (Chain × ChainEvent)
  try_block db pow now store live block = do
    old_tip ← tip live
    if bytes_eq block.header.previous_block (Block.id old_tip)
        then Chain.append block pow now live
        else (do
          candidate ← assemble_candidate db store live block
          consider_chain candidate pow now live)

  -- `(confirmed, detached)`
  unfoldable pub moved_transactions :
      Block
      → ChainEvent
      → Chain
      → Chain
      → Result ConsensusError (List Transaction × List Transaction)
  moved_transactions block (reorganized _ _ fork_height) live candidate = do
    confirmed ← from_index (saturating_add fork_height 1) candidate.blocks
    detached ← from_index (saturating_add fork_height 1) live.blocks
    ok (all_transactions confirmed, all_transactions detached)
  moved_transactions block _ live candidate = ok (block.transactions, [])

  -- The transactions that only the old chain held go back to the pool, where it takes them.
  unfoldable pub resurrect : List Hash32 → LedgerState → ℕ → List Transaction → Mempool → Mempool
  resurrect confirmed_ids state now [] pool = pool
  resurrect confirmed_ids state now (t ∷ rest) pool = resurrect confirmed_ids state now rest (
      if any (bytes_eq (Transaction.id t)) confirmed_ids
      then pool
      else (Mempool.accept t state now pool).0)

  -- The active chain changes: all that follows `save_chain`.
  unfoldable pub adopt :
      {S : Type 0} → ℕ → List Transaction → List Transaction → Chain → Hash32 → Node S → Node S
  unfolding resurrect
  adopt now confirmed detached candidate new_tip node =
      let changed = record node {
        mempool =
            resurrect (map Transaction.id confirmed) candidate.state now detached
              (remove_confirmed confirmed node.mempool);
        chain = candidate;
        workshares = reset new_tip node.workshares;
        pending_workshares = [];
      } in
      send (inventory ObjectKind.block new_tip) (next_generation changed)

  -- The end of `submit_block`, once the storage has answered.
  unfoldable pub finish_block :
      {S : Type 0}
      → ℕ
      → List Transaction
      → List Transaction
      → Chain
      → ChainEvent
      → Node S
      → Result ConsensusError (Unit {0})
      → Result ConsensusError Block
      → Node S × Result ConsensusError ChainEvent
  unfolding adopt
  finish_block now confirmed detached candidate event node (ok _) (ok new_tip) =
      (adopt now confirmed detached candidate (Block.id new_tip) node, ok event)
  finish_block now confirmed detached candidate event node (ok _) (err e) = (node, err e)
  finish_block now confirmed detached candidate event node (ok _) panicked = (node, panicked)
  finish_block now confirmed detached candidate event node (err e) _ = (node, err e)
  finish_block now confirmed detached candidate event node panicked _ = (node, panicked)

  unfoldable pub save_and_adopt :
      {S : Type 0}
      → Storage S
      → ℕ
      → Chain
      → ChainEvent
      → Node S
      → Result ConsensusError (List Transaction × List Transaction)
      → Node S × Result ConsensusError ChainEvent
  unfolding finish_block
  save_and_adopt db now candidate event node (ok (confirmed, detached)) =
      let (store, saved) = db.save_chain candidate node.storage in
      finish_block now confirmed detached candidate event (record node { storage = store })
        (storage_result saved) (tip candidate)
  save_and_adopt db now candidate event node (err e) = (node, err e)
  save_and_adopt db now candidate event node panicked = (node, panicked)

  unfoldable pub after_side_block :
      {S : Type 0}
      → Storage S
      → ℕ
      → Block
      → Chain
      → ChainEvent
      → Node S
      → Result ConsensusError (Unit {0})
      → Node S × Result ConsensusError ChainEvent
  unfolding save_and_adopt moved_transactions
  after_side_block db now block candidate event node (ok _) =
      if changes_chain event
      then save_and_adopt db now candidate event node
          (moved_transactions block event node.chain candidate)
      else (node, ok event)
  after_side_block db now block candidate event node (err e) = (node, err e)
  after_side_block db now block candidate event node panicked = (node, panicked)

  unfoldable pub after_try :
      {S : Type 0}
      → Storage S
      → ℕ
      → Block
      → Node S
      → Result ConsensusError (Chain × ChainEvent)
      → Node S × Result ConsensusError ChainEvent
  unfolding after_side_block
  after_try db now block node (ok (candidate, event)) =
      let (store, stored) = db.store_side_block block node.storage in
      after_side_block db now block candidate event (record node { storage = store })
        (storage_result stored)
  after_try db now block node (err e) = (node, err e)
  after_try db now block node panicked = (node, panicked)

  unfoldable pub submit_block :
      {S : Type 0}
      → Storage S
      → PowVerifier
      → ℕ
      → Block
      → Node S
      → Node S × Result ConsensusError ChainEvent
  unfolding after_try try_block
  submit_block db pow now block node =
      if is_some (block_by_hash node.chain (Block.id block))
      then (node, ok known)
      else after_try db now block node (try_block db pow now node.storage node.chain block)
