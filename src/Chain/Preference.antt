-- ===== src/Chain/Preference.antt =====
-- Which chain `consider_chain` keeps.
use paritr_node.Prelude.{
  ℕ, ◌-◌, ◌≡◌, ◌≢◌, ◌≤◌, ◌⊎◌, sym, ap, arith, inl, inr, true, not, List, Bool-cases, ok, >>-eq-ok,
  >>=-eq-ok,
}
use mathlib.Core.Path.{subst}
use paritr_node.Prelude.Order.{bytes_ord, eq_of_cmp_bytes, cmp_bytes-gt_of_lt, cmp_bytes-lt_of_gt}
use paritr_node.Crypto.{Primitives, Hash32}
use paritr_node.Types.Block
use paritr_node.Types.Block.{Block}
use paritr_node.Validation.Seed.{PowVerifier}
use paritr_node.Rewards.Exact.Totals.{ok-injective}
use paritr_node.Chain.{
  Chain, ChainEvent, reorganized, side_chain, tip, preferred, common_blocks, consider_chain,
  from_blocks, same_first,
}
use paritr_node.Chain.Built.{IsValid, from_blocks-IsValid}

-- Of two different tips, exactly one chain is preferred to the other.
pub preferred_exclusive :
    (w v : ℕ) (a b : Hash32) → a ≢ b → preferred w a v b ≡ not (preferred v b w a)
unfolding preferred
preferred_exclusive w v a b apart = ground (
  arith,
  eq_of_cmp_bytes a b,
  eq_of_cmp_bytes b a,
  cmp_bytes-gt_of_lt a b,
  cmp_bytes-lt_of_gt a b,
  cmp_bytes-gt_of_lt b a,
  cmp_bytes-lt_of_gt b a,
)

-- A chain that is preferred has at least the other's work.
preferred-le : (w v : ℕ) (a b : Hash32) → preferred w a v b ≡ true → v ≤ w
unfolding preferred
preferred-le w v a b h = ground arith

module _ ⦃p : Primitives⦄ where
  -- The chain after a change of chain.
  pub record Adopts (candidate : List Block) (pow : PowVerifier) (c c' : Chain) (e : ChainEvent)
      : Type 0 where
    pub blocks : c'.blocks ≡ candidate
    pub valid : IsValid pow c'
    pub new_tip : Block
    pub new_tip_eq : tip c' ≡ ok new_tip
    pub old_tip : Block
    pub old_tip_eq : tip c ≡ ok old_tip
    pub better :
        preferred c'.cumulative_work (Block.id new_tip) c.cumulative_work (Block.id old_tip) ≡ true
    pub event :
        e ≡ reorganized (Block.id old_tip) (Block.id new_tip) (common_blocks c.blocks candidate - 1)

  adopts :
      (candidate : List Block) (pow : PowVerifier) (now : ℕ) (c c' : Chain) (old new : Block)
      → from_blocks candidate pow now ≡ ok c'
      → tip c' ≡ ok new
      → tip c ≡ ok old
      → preferred c'.cumulative_work (Block.id new) c.cumulative_work (Block.id old) ≡ true
      → Adopts candidate pow c c'
          (reorganized (Block.id old) (Block.id new) (common_blocks c.blocks c'.blocks - 1))
  adopts candidate pow now c c' old new made new_eq old_eq better =
      let (valid, same) = from_blocks-IsValid candidate pow now c' made in
      record {
        blocks = same;
        valid = valid;
        new_tip = new;
        new_tip_eq = new_eq;
        old_tip = old;
        old_tip_eq = old_eq;
        better = better;
        event =
            ap (λ l. reorganized (Block.id old) (Block.id new) (common_blocks c.blocks l - 1)) same;
      }

  pub consider_chain_outcomes :
      (candidate : List Block) (pow : PowVerifier) (now : ℕ) (c c' : Chain) (e : ChainEvent)
      → consider_chain candidate pow now c ≡ ok (c', e)
      → ((e ≡ side_chain) × (c' ≡ c)) ⊎ Adopts candidate pow c c' e
  unfolding consider_chain
  consider_chain_outcomes candidate pow now c c' e h =
      let (_, rest) = >>-eq-ok (not (same_first candidate c.blocks)) _ _ h in
      let (validated, made, rest) = >>=-eq-ok (from_blocks candidate pow now) _ rest in
      let (new, new_eq, rest) = >>=-eq-ok (tip validated) _ rest in
      let (old, old_eq, rest) = >>=-eq-ok (tip c) _ rest in
      let better =
        preferred validated.cumulative_work (Block.id new) c.cumulative_work (Block.id old) in
      elim (Bool-cases better) [
        | inl yes_better ↦
            let done = ok-injective (rw yes_better at rest) in
            let a = adopts candidate pow now c validated old new made new_eq old_eq yes_better in
            inr (subst (λ (x : Chain × ChainEvent). Adopts candidate pow c x.0 x.1) done a)
        | inr no_better ↦
            let done : (c, side_chain) ≡ (c', e) = ok-injective (rw no_better at rest) in
            inl (sym (ap (λ x. x.1) done), sym (ap (λ x. x.0) done))
      ]

  -- Considering a chain never lowers the work, and leaves a valid chain valid.
  pub consider_chain_work :
      (candidate : List Block) (pow : PowVerifier) (now : ℕ) (c c' : Chain) (e : ChainEvent)
      → IsValid pow c
      → consider_chain candidate pow now c ≡ ok (c', e)
      → IsValid pow c' × (c.cumulative_work ≤ c'.cumulative_work)
  consider_chain_work candidate pow now c c' e v h =
      elim (consider_chain_outcomes candidate pow now c c' e h) [
        | inl (_, same) ↦
            subst (λ (x : Chain). IsValid pow x × (c.cumulative_work ≤ x.cumulative_work))
              (sym same) (v, omega arith)
        | inr a ↦ (
          a.valid,
          preferred-le c'.cumulative_work c.cumulative_work (Block.id a.new_tip)
              (Block.id a.old_tip) a.better,
        )
      ]
