-- ===== src/Chain/Supply.antt =====
-- How much money a chain has made, and where its blocks stand.
use paritr_node.Prelude.{
  ℕ, ◌≡◌, ◌≢◌, ◌≤◌, refl, arith, inl, inr, List, [], ◌∷◌, sum_by, sum_by-append, ◌==◌, Bool-cases,
}
use paritr_node.Crypto.{Primitives}
use paritr_node.Params.{block_subsidy}
use paritr_node.Types.Block.{Block}
use paritr_node.State.Ledger.{LedgerState, empty_ledger}
use paritr_node.State.Supply.{supply, IsOrdered}
use paritr_node.Validation.Seed.{PowVerifier}
use paritr_node.Validation.Whole.{genesis_block}
use paritr_node.Validation.Accepted.{validate_block_genesis, validate_block-supply}
use paritr_node.Chain.Built.{Built, start, extend}

-- The subsidies of the heights that the blocks claim.
abbrev pub subsidies : List Block → ℕ
subsidies = sum_by (λ b. block_subsidy b.header.height)

abbrev pub IsLater : Block → Type 0
IsLater b = b.header.height ≢ 0

module _ ⦃p : Primitives⦄ where
  pub empty-IsOrdered : IsOrdered empty_ledger
  empty-IsOrdered = record { accounts = tt; pending = tt }

  subsidies-genesis : subsidies (genesis_block ∷ []) ≡ 0
  unfolding genesis_block block_subsidy
  subsidies-genesis = refl

  -- The ledger of a chain never holds more money than the subsidies of its blocks.
  pub supply-le-subsidies :
      (pow : PowVerifier) (blocks : List Block) (s : LedgerState)
      → Built pow blocks s
      → IsOrdered s × (supply s ≤ subsidies blocks)
  supply-le-subsidies pow blocks s start = (empty-IsOrdered, omega arith)
  supply-le-subsidies pow blocks s (extend {history = history} {s = s0} block now b h) =
      let (ordered, bound) = supply-le-subsidies pow history s0 b in
      let split =
        sum_by-append (λ (x : Block). block_subsidy x.header.height) history (block ∷ []) in
      elim (Bool-cases (block.header.height == 0)) [
        | inl first ↦
            let (_, emptied) = validate_block_genesis block history s0 s pow now (ground arith) h in
            rw emptied (empty-IsOrdered, omega arith)
        | inr later ↦
            let (kept, grown) =
              validate_block-supply block history s0 s pow now ordered (ground arith) h in
            (kept, omega (arith, bound, grown, split))
      ]
