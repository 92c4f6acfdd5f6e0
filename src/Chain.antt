-- ===== src/Chain.antt =====
-- src/consensus/chain.rs: the active chain. Every step that can fail stands before the first change of
-- the chain, so a call that fails has no chain to return. A chain without blocks, which `tip` panics
-- on, panics in `consider_chain` even where the source would not look at the old tip.
pub mod Built
pub mod Supply
pub mod Heights
pub mod Grown
pub mod Preference
pub mod Repeats
use paritr_node.Prelude.{
  ℕ, suc, ◌-◌, Bool, true, false, ◌||◌, ◌&&◌, not, Option, none, some, List, [], ◌∷◌, ◌++◌, ◌==◌,
  ltb, find, get_elem?, get_last?, Result, ok, err, panicked, ◌>>=◌, ◌>>◌, ok_or, fail_if,
  if◌then◌else◌,
}
use paritr_node.Prelude.Order.{bytes_eq, bytes_lt}
use paritr_node.Crypto.{Primitives, Hash32}
use paritr_node.Errors.{
  ConsensusError, different_genesis, wrong_parent, invalid_target, arithmetic_overflow,
}
use paritr_node.Difficulty.{bits_to_target, target_work}
use paritr_node.Types.Block
use paritr_node.Types.Block.{Block}
use paritr_node.Types.Equality.{same_block}
use paritr_node.State.Ledger
use paritr_node.State.Ledger.{LedgerState, empty_ledger}
use paritr_node.Validation.Seed.{PowVerifier, cumulative_work, add_work}
use paritr_node.Validation.Whole.{genesis_block, validate_block}

pub data ChainEvent : Type 0 where
  extended : Hash32 → ℕ → ChainEvent
  reorganized : Hash32 → Hash32 → ℕ → ChainEvent
  known side_chain : ChainEvent

pub record Chain : Type 0 where
  pub blocks : List Block
  pub state : LedgerState
  pub cumulative_work : ℕ

-- `.expect(..)` of a result
abbrev pub expect_ok : Result ConsensusError ℕ → Result ConsensusError ℕ
expect_ok (ok w) = ok w
expect_ok _ = panicked

-- `.expect(..)` of an option
abbrev pub expect_some : {A : Type 0} → Option A → Result ConsensusError A
expect_some none = panicked
expect_some (some a) = ok a

abbrev pub is_some : Option Block → Bool
is_some none = false
is_some (some b) = true

unfoldable pub tip : Chain → Result ConsensusError Block
tip c = expect_some (get_last? c.blocks)

unfoldable pub height : Chain → Result ConsensusError ℕ
unfolding tip
height c = do last ← tip c; ok last.header.height

-- More work, or as much and the lower tip.
unfoldable pub preferred : ℕ → Hash32 → ℕ → Hash32 → Bool
preferred new_work new_tip work old_tip =
    ltb work new_work || (new_work == work && bytes_lt new_tip old_tip)

-- On a machine whose `usize` has 64 bits.
unfoldable pub block_at : Chain → ℕ → Option Block
block_at c i = get_elem? c.blocks i

module _ ⦃p : Primitives⦄ where
  unfoldable pub genesis : Result ConsensusError Chain
  genesis = do
    work ← expect_ok (cumulative_work (genesis_block ∷ []))
    ok (record { blocks = genesis_block ∷ []; state = empty_ledger; cumulative_work = work })

  -- The loop over the indices: the blocks before, the blocks left and the state so far.
  unfoldable pub validate_rest :
      List Block → List Block → LedgerState → PowVerifier → ℕ → Result ConsensusError LedgerState
  validate_rest before [] state pow now = ok state
  validate_rest before (block ∷ rest) state pow now = do
    state' ← validate_block block before state pow now
    validate_rest (before ++ (block ∷ [])) rest state' pow now

  unfoldable pub from_blocks : List Block → PowVerifier → ℕ → Result ConsensusError Chain
  unfolding validate_rest
  from_blocks [] pow now = err different_genesis
  from_blocks (first ∷ rest) pow now = do
    fail_if (not (same_block first genesis_block)) different_genesis
    state ← validate_rest (first ∷ []) rest empty_ledger pow now
    work ← cumulative_work (first ∷ rest)
    ok (record { blocks = first ∷ rest; state = state; cumulative_work = work })

  unfoldable pub block_by_hash : Chain → Hash32 → Option Block
  block_by_hash c hash = find (λ b. bytes_eq (Block.id b) hash) c.blocks

  unfoldable pub append :
      Block → PowVerifier → ℕ → Chain → Result ConsensusError (Chain × ChainEvent)
  unfolding tip block_by_hash
  append block pow now c = if is_some (block_by_hash c (Block.id block)) then ok (c, known) else do
    last ← tip c
    fail_if (not (bytes_eq block.header.previous_block (Block.id last))) wrong_parent
    next_state ← validate_block block c.blocks c.state pow now
    target ← ok_or (bits_to_target block.header.bits) invalid_target
    own_work ← target_work target
    work ← ok_or (add_work c.cumulative_work own_work) arithmetic_overflow
    ok (
      record { blocks = c.blocks ++ (block ∷ []); state = next_state; cumulative_work = work },
      extended (Block.id block) block.header.height,
    )

  -- `candidate.first() != self.blocks.first()`
  abbrev pub same_first : List Block → List Block → Bool
  same_first [] [] = true
  same_first (a ∷ _) (b ∷ _) = same_block a b
  same_first _ _ = false

  -- `zip(..).take_while(..).count()`
  unfoldable pub common_blocks : List Block → List Block → ℕ
  common_blocks (a ∷ old) (b ∷ new) =
      let rest = common_blocks old new in if bytes_eq (Block.id a) (Block.id b) then suc rest else 0
  common_blocks _ _ = 0

  unfoldable pub consider_chain :
      List Block → PowVerifier → ℕ → Chain → Result ConsensusError (Chain × ChainEvent)
  unfolding from_blocks tip preferred common_blocks
  consider_chain candidate pow now c = do
    fail_if (not (same_first candidate c.blocks)) different_genesis
    validated ← from_blocks candidate pow now
    new_tip ← tip validated
    old_tip ← tip c
    if not (
          preferred validated.cumulative_work (Block.id new_tip) c.cumulative_work
            (Block.id old_tip))
        then ok (c, side_chain)
        else ok (
          validated,
          reorganized (Block.id old_tip) (Block.id new_tip)
              (common_blocks c.blocks validated.blocks - 1),
        )
