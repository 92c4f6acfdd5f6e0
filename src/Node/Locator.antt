-- ===== src/Node/Locator.antt =====
-- `Node::block_locator`: the identifiers of blocks of the active chain, from the tip back, ten of them
-- one by one and then at distances that double.
use paritr_node.Prelude.{
  ℕ, zero, suc, ◌+◌, ◌-◌, List, [], ◌∷◌, leb, ◌==◌, if◌then◌else◌, saturating_mul, Result, ok,
  panicked, ◌>>=◌,
}
use paritr_node.Crypto.{Primitives, Hash32}
use paritr_node.Errors.{ConsensusError}
use paritr_node.Types.Block
use paritr_node.Types.Block.{Block}
use paritr_node.Chain
use paritr_node.Chain.{Chain, block_at, expect_some}

module _ ⦃p : Primitives⦄ where
  -- The loop at a height, with `taken` identifiers so far. The height falls in each round, so one
  -- more than it is fuel enough.
  unfoldable pub locate : ℕ → Chain → ℕ → ℕ → ℕ → Result ConsensusError (List Hash32)
  locate zero chain height step taken = panicked
  locate (suc fuel) chain height step taken = do
    block ← expect_some (block_at chain height)
    if height == 0 then ok (Block.id block ∷ []) else (do
      rest ←
          locate fuel chain (height - step)
            (if leb 10 (taken + 1) then saturating_mul step 2 else step) (taken + 1)
      ok (Block.id block ∷ rest))

  unfoldable pub block_locator : Chain → Result ConsensusError (List Hash32)
  unfolding locate
  block_locator chain = do height ← Chain.height chain; locate (suc height) chain height 1 0
