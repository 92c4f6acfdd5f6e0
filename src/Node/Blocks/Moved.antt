-- ===== src/Node/Blocks/Moved.antt =====
-- The chain that a block leads to, and the transactions that move with it.
use paritr_node.Prelude.{
  ℕ, ◌-◌, ◌≤◌, ◌≡◌, refl, Bool-cases, inl, inr, not, List, [], ◌∷◌, ◌++◌, arith, some, length, drop,
  get_last?, saturating_add, min, true, u64_mod, ok, >>=-eq-ok, >>-eq-ok,
}
use mathlib.Core.Path.{subst}
use paritr_node.Prelude.Order.{bytes_eq, bytes_eq_refl}
use paritr_node.Crypto.{Primitives, Hash32}
use paritr_node.Types.Transaction.{Transaction}
use paritr_node.Types.Block
use paritr_node.Types.Block.{Block}
use paritr_node.Types.Equality.{block_of_same}
use paritr_node.Validation.Seed.{PowVerifier}
use paritr_node.Chain
use paritr_node.Chain.{
  Chain, ChainEvent, extended, reorganized, tip, common_blocks, same_first, consider_chain,
}
use paritr_node.Chain.Built.{Extends, append_outcomes, expect_some-eq-ok}
use paritr_node.Chain.Preference.{Adopts, consider_chain_outcomes}
use paritr_node.Node.State.{Storage}
use paritr_node.Node.Blocks.{
  try_block, assemble_candidate, changes_chain, moved_transactions, all_transactions, from_index,
}

get_last?-append : (l : List Block) (b : Block) → get_last? (l ++ (b ∷ [])) ≡ some b
get_last?-append [] b = refl
get_last?-append (x ∷ []) b = refl
get_last?-append (x ∷ y ∷ l) b = get_last?-append (y ∷ l) b

from_index-ok : (k : ℕ) (l : List Block) → k ≤ length l → from_index k l ≡ ok (drop k l)
from_index-ok k l h = ground arith

module _ ⦃p : Primitives⦄ where
  common_blocks-le :
      (l m : List Block) → (common_blocks l m ≤ length l) × (common_blocks l m ≤ length m)
  unfolding common_blocks
  common_blocks-le [] m = (omega arith, omega arith)
  common_blocks-le (a ∷ l) [] = (omega arith, omega arith)
  common_blocks-le (a ∷ l) (b ∷ m) = ground (arith, common_blocks-le l m)

  -- Chains that start alike share a block.
  common_blocks_pos :
      (l m : List Block) (b : Block)
      → get_last? l ≡ some b
      → same_first m l ≡ true
      → 1 ≤ common_blocks l m
  unfolding common_blocks
  common_blocks_pos [] m b last h = cc
  common_blocks_pos (x ∷ l) [] b last h = cc
  common_blocks_pos (x ∷ l) (y ∷ m) b last h =
      let same : y ≡ x = block_of_same y x h in
      let alike : bytes_eq (Block.id x) (Block.id y) ≡ true =
        rw same (bytes_eq_refl (Block.id x)) in
      rw alike (omega arith)

  -- How many blocks two chains share from the start, counted in 64 bits.
  abbrev pub shared : List Block → List Block → ℕ
  shared l m = min (common_blocks l m) (u64_mod - 1)

  -- The chain that a block leads to: it extends the chain, or a branch that is preferred takes its
  -- place. The first list holds the transactions that this confirms, the second those of the blocks
  -- that are left.
  pub data Takes {S : Type 0} (db : Storage S) (pow : PowVerifier) (now : ℕ) (store : S)
      (live candidate : Chain) (block : Block) (e : ChainEvent)
      : List Transaction → List Transaction → Type 0 where
    extends :
        e ≡ extended (Block.id block) block.header.height
        → Extends block pow now live candidate
        → Takes db pow now store live candidate block e block.transactions []
    reorganizes :
        (blocks : List Block)
        → assemble_candidate db store live block ≡ ok blocks
        → Adopts blocks pow live candidate e
        → Takes db pow now store live candidate block e
            (all_transactions (drop (shared live.blocks blocks) blocks))
            (all_transactions (drop (shared live.blocks blocks) live.blocks))

  -- The transactions that move in a reorganization to these blocks.
  moved-reorganized :
      (block : Block) (old new : Hash32) (live candidate : Chain) (blocks : List Block)
      (e : ChainEvent)
      → candidate.blocks ≡ blocks
      → e ≡ reorganized old new (common_blocks live.blocks blocks - 1)
      → 1 ≤ common_blocks live.blocks blocks
      → moved_transactions block e live candidate
        ≡ ok (
          all_transactions (drop (shared live.blocks blocks) blocks),
          all_transactions (drop (shared live.blocks blocks) live.blocks),
        )
  unfolding moved_transactions
  moved-reorganized block old new live candidate blocks e same event some_shared =
      let (left, right) = common_blocks-le live.blocks blocks in
      let first : saturating_add (common_blocks live.blocks blocks - 1) 1
          ≡ shared live.blocks blocks =
        ground arith in
      rw
        (
          event,
          same,
          first,
          from_index-ok (shared live.blocks blocks) blocks (omega (arith, right)),
          from_index-ok (shared live.blocks blocks) live.blocks (omega (arith, left)),
        )
        refl

  consider_chain-same_first :
      (blocks : List Block) (pow : PowVerifier) (now : ℕ) (live : Chain) {r : Chain × ChainEvent}
      → consider_chain blocks pow now live ≡ ok r
      → same_first blocks live.blocks ≡ true
  unfolding consider_chain
  consider_chain-same_first blocks pow now live h =
      let (alike, _) = >>-eq-ok (not (same_first blocks live.blocks)) _ _ h in ground arith

  -- What a change of chain needs: its transactions, and the new tip.
  pub record Moves {S : Type 0} (db : Storage S) (pow : PowVerifier) (now : ℕ) (store : S)
      (live candidate : Chain) (block : Block) (e : ChainEvent) : Type 0 where
    pub confirmed : List Transaction
    pub detached : List Transaction
    pub takes : Takes db pow now store live candidate block e confirmed detached
    pub moved : moved_transactions block e live candidate ≡ ok (confirmed, detached)
    pub new_tip : Block
    pub new_tip_eq : tip candidate ≡ ok new_tip

  module _ {S : Type 0} (db : Storage S) (pow : PowVerifier) (now : ℕ) (store : S)
      (live candidate : Chain) (block : Block) (e : ChainEvent) where
    append-Moves :
        changes_chain e ≡ true
        → Chain.append block pow now live ≡ ok (candidate, e)
        → Moves db pow now store live candidate block e
    unfolding tip moved_transactions
    append-Moves change h = elim (append_outcomes block pow now live candidate e h) [
      | inl (seen, _) ↦ absurd (cc (subst (λ x. changes_chain x ≡ true) seen change))
      | inr (event, x) ↦ record {
        confirmed = block.transactions;
        detached = [];
        takes = extends event x;
        moved = rw event refl;
        new_tip = block;
        new_tip_eq = rw (x.blocks, get_last?-append live.blocks block) refl;
      }
    ]

    consider_chain-Moves :
        (blocks : List Block)
        → changes_chain e ≡ true
        → assemble_candidate db store live block ≡ ok blocks
        → consider_chain blocks pow now live ≡ ok (candidate, e)
        → Moves db pow now store live candidate block e
    unfolding tip
    consider_chain-Moves blocks change made h =
        elim (consider_chain_outcomes blocks pow now live candidate e h) [
          | inl (aside, _) ↦ absurd (cc (subst (λ x. changes_chain x ≡ true) aside change))
          | inr a ↦ record {
            confirmed = all_transactions (drop (shared live.blocks blocks) blocks);
            detached = all_transactions (drop (shared live.blocks blocks) live.blocks);
            takes = reorganizes blocks made a;
            moved =
                moved-reorganized block (Block.id a.old_tip) (Block.id a.new_tip) live candidate
                  blocks e a.blocks a.event
                  (common_blocks_pos live.blocks blocks a.old_tip
                    (expect_some-eq-ok (get_last? live.blocks) a.old_tip_eq)
                    (consider_chain-same_first blocks pow now live h));
            new_tip = a.new_tip;
            new_tip_eq = a.new_tip_eq;
          }
        ]

    pub try_block-Moves :
        changes_chain e ≡ true
        → try_block db pow now store live block ≡ ok (candidate, e)
        → Moves db pow now store live candidate block e
    unfolding try_block
    try_block-Moves change h =
        let (old_tip, _, rest) = >>=-eq-ok (tip live) _ h in
        elim (Bool-cases (bytes_eq block.header.previous_block (Block.id old_tip))) [
          | inl follows ↦ append-Moves change (rw follows at rest)
          | inr branches ↦
              let (blocks, made, considered) =
                >>=-eq-ok (assemble_candidate db store live block) _ (rw branches at rest) in
              consider_chain-Moves blocks change made considered
        ]
