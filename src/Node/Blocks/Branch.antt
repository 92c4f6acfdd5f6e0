-- ===== src/Node/Blocks/Branch.antt =====
-- The search for the fork comes to an end.
use paritr_node.Prelude.{
  ℕ, zero, suc, ◌+◌, ◌≤◌, ◌≡◌, ◌≢◌, refl, Bool-cases, ◌||◌, Option, none, some, Option-cases, inl,
  inr, List, [], ◌∷◌, any, ltb, length, arith, Result, ok, err, panicked, ok_or, ◌>>=◌,
}
use paritr_node.Prelude.Order.{bytes_eq}
use paritr_node.Crypto.{Primitives, Hash32}
use paritr_node.Errors.{wrong_parent}
use paritr_node.Types.Block.{Block}
use paritr_node.Chain.{Chain, block_by_hash}
use paritr_node.Node.State.{Storage, StorageError}
use paritr_node.Node.Blocks.{find_fork, max_branch, storage_result}

module _ ⦃p : Primitives⦄ {S : Type 0} (db : Storage S) (store : S) (active : Chain)
    (answers : (hash : Hash32) → db.stored_block hash store ≢ panicked) where
  -- As the storage answers every call, the search for the common block ends before its fuel does.
  find_fork-ne-panicked :
      (fuel : ℕ) (first : Block) (branch : List Block) (seen : List Hash32)
      → 1 ≤ fuel
      → length branch + fuel ≡ suc max_branch
      → find_fork fuel db store active first branch seen ≢ panicked
  unfolding find_fork
  find_fork-ne-panicked zero first branch seen some_left enough h = omega arith
  find_fork-ne-panicked (suc fuel) first branch seen some_left enough h =
      elim (Option-cases (block_by_hash active first.header.previous_block)) [
        | inr (parent, there) ↦ let h' = rw (there, find_fork) at h in cc
        | inl absent ↦
            elim (Bool-cases (
              any (bytes_eq first.header.previous_block) seen
              || ltb max_branch (length (first ∷ branch)))) [
                | inl back ↦ let h' = rw (absent, back, find_fork) at h in cc
                | inr forward ↦
                    onward (db.stored_block first.header.previous_block store)
                      (answers first.header.previous_block)
                      (λ parent.
                        find_fork-ne-panicked fuel parent (first ∷ branch)
                          (first.header.previous_block ∷ seen) (ground (arith, forward))
                          (omega arith))
                      (rw (absent, forward, find_fork) at h)
              ]
      ]
    where
      onward :
          (found : Result StorageError (Option Block))
          → found ≢ panicked
          → ((parent : Block)
              → find_fork fuel db store active parent
                  (first ∷ branch)
                  (first.header.previous_block ∷ seen)
                ≢ panicked)
          → (storage_result found >>= λ o. ok_or o wrong_parent >>= λ parent.
              find_fork fuel db store active parent
                (first ∷ branch)
                (first.header.previous_block ∷ seen))
            ≢ panicked
      onward panicked fine more e = fine refl
      onward (err x) fine more e = cc
      onward (ok none) fine more e = cc
      onward (ok (some parent)) fine more e = more parent e

  -- The search from a block back to the active chain ends, as long as the storage answers: 100,001
  -- iterations are enough.
  pub find_fork_ends :
      (block : Block) → find_fork (suc max_branch) db store active block [] [] ≢ panicked
  find_fork_ends block =
      find_fork-ne-panicked (suc max_branch) block [] [] (omega arith) (omega arith)
