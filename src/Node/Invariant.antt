-- ===== src/Node/Invariant.antt =====
-- What a node relies on, and that blocks, templates and workshares keep it.
use mathlib.Core.Path.{subst}
use paritr_node.Prelude.{
  ℕ, ◌+◌, ◌≤◌, ◌≡◌, refl, sym, ap, ◌∙◌, Bool, Bool-cases, inl, inr, [], ◌∷◌, length, arith, Result,
  ok, err, panicked, >>=-eq-ok, then-eq-ok,
}
use paritr_node.Prelude.Order.{Ord, bytes_ord}
use paritr_node.OrderedMap.{OrderedMap, lookup, remove}
use paritr_node.Crypto.{Primitives, Hash32}
use paritr_node.Errors.{ConsensusError}
use paritr_node.Types.BlockTemplate
use paritr_node.Types.BlockTemplate.{BlockTemplate}
use paritr_node.Types.Workshare
use paritr_node.Types.Workshare.{Workshare}
use paritr_node.Types.Witness.{WorkshareWitness}
use paritr_node.Types.Block
use paritr_node.Types.Block.{Block}
use paritr_node.Validation.Apply.{validate_template_transactions}
use paritr_node.Validation.Seed.{PowVerifier}
use paritr_node.Validation.Shares.{validate_workshares}
use paritr_node.Chain.{Chain, ChainEvent, tip}
use paritr_node.Chain.Built.{IsValid}
use paritr_node.Node.WorksharePool
use paritr_node.Node.WorksharePool.{WorksharePool, reset, candidate_witness, is_present}
use paritr_node.Node.WorksharePool.Bounds.{register_template-Registers, Registers}
use paritr_node.Node.WorksharePool.Work.{accept-Accepts, Accepts, insert_share_lem}
use paritr_node.Node.WorksharePool.Reached.{Reached, emptied, registered, submitted}
use paritr_node.Node.State.{Node, Storage}
use paritr_node.Node.Blocks.{submit_block}
use paritr_node.Node.Blocks.Outcomes.{
  Submitted, seen, refused, halted, unstored, aside, unsaved, adopted, submit_block_outcomes,
}
use paritr_node.Node.Submissions.{
  register_template, submit_workshare, announce_template, announce_workshare, register_checked,
  check_template, take_template, take_workshare,
}
use paritr_node.Node.Pending.{Pending}
use paritr_node.Node.Messages.{max_pending}

pub length-remove {ℓ κ} :
    {K : Type ℓ} {V : Type κ} ⦃o : Ord K⦄ (k : K) (m : OrderedMap K V)
    → length (remove k m) ≤ length m
unfolding remove
length-remove k [] = omega arith
length-remove k ((j, v) ∷ m) = ground (arith, length-remove k m)

module _ ⦃p : Primitives⦄ where
  register_template-anchor :
      (t : BlockTemplate) (pool pool' : WorksharePool) (id : Hash32)
      → WorksharePool.register_template t pool ≡ ok (pool', id)
      → pool'.anchor ≡ pool.anchor
  register_template-anchor t pool pool' id h = go (register_template-Registers t pool pool' id h)
    where
      go : Registers t pool pool' → pool'.anchor ≡ pool.anchor
      go (Registers.found same) = ap (λ (x : WorksharePool). x.anchor) same
      go (Registers.added fresh count bytes same) = ap (λ (x : WorksharePool). x.anchor) same

  accept-anchor :
      (s : Workshare) (pool pool' : WorksharePool) (changed : Bool)
      → WorksharePool.accept s pool ≡ ok (pool', changed)
      → pool'.anchor ≡ pool.anchor
  accept-anchor s pool pool' changed h = go (accept-Accepts s pool pool' changed h)
    where
      go : Accepts s pool pool' changed → pool'.anchor ≡ pool.anchor
      go (Accepts.already same unchanged) = ap (λ (x : WorksharePool). x.anchor) same
      go (Accepts.adds a) =
          (insert_share_lem (Workshare.id s) s (a.before + a.weight) pool pool' changed a.result).0

  -- What a node relies on: its chain is valid, its pool of workshares is one that it can come to and
  -- stands at the chain's tip, and at most 2,048 workshares wait.
  pub record Healthy (pow : PowVerifier) (chain : Chain) (pool : WorksharePool) (pending : Pending)
      : Type 0 where
    pub valid : IsValid pow chain
    pub last : Block
    pub last_eq : tip chain ≡ ok last
    pub anchor : pool.anchor ≡ Block.id last
    pub reached : Reached pool
    pub few : length pending ≤ max_pending

  abbrev pub IsHealthy : {S : Type 0} → PowVerifier → Node S → Type 0
  IsHealthy pow node = Healthy pow node.chain node.workshares node.pending_workshares

  -- A later state of a healthy node: it is healthy, and its chain has no less work.
  pub record Progress {S : Type 0} (pow : PowVerifier) (node node' : Node S) : Type 0 where
    pub healthy : IsHealthy pow node'
    pub work : node.chain.cumulative_work ≤ node'.chain.cumulative_work

  module _ {S : Type 0} (db : Storage S) (pow : PowVerifier) (now : ℕ) where
    -- A change of the pool at the same anchor.
    pub with_pool :
        (node node' : Node S)
        → IsHealthy pow node
        → node'.chain ≡ node.chain
        → node'.workshares.anchor ≡ node.workshares.anchor
        → Reached node'.workshares
        → length node'.pending_workshares ≤ max_pending
        → Progress pow node node'
    with_pool node node' h chain anchor reached few = record {
      healthy = record {
        valid = subst (IsValid pow) (sym chain) h.valid;
        last = h.last;
        last_eq = ap tip chain ∙ h.last_eq;
        anchor = anchor ∙ h.anchor;
        reached = reached;
        few = few;
      };
      work = rw chain (omega arith);
    }

    pub unchanged : (node : Node S) → IsHealthy pow node → Progress pow node node
    unchanged node h = record { healthy = h; work = omega arith }

    pub submit_block-Progress :
        (b : Block) (node : Node S)
        → IsHealthy pow node
        → Progress pow node (submit_block db pow now b node).0
    unfolding reset
    submit_block-Progress b node h =
        go (submit_block db pow now b node).0 (submit_block db pow now b node).1
          (submit_block_outcomes db pow now b node h.valid)
      where
        -- The storage is no part of what a node relies on.
        stored :
            {node' : Node S} (store : S)
            → node' ≡ record node { storage = store }
            → Progress pow node node'
        stored store same = subst (Progress pow node) (sym same) (record {
          healthy = record {
            valid = h.valid;
            last = h.last;
            last_eq = h.last_eq;
            anchor = h.anchor;
            reached = h.reached;
            few = h.few;
          };
          work = omega arith;
        })

        go :
            (node' : Node S) (r : Result ConsensusError ChainEvent)
            → Submitted db pow now b node node' r
            → Progress pow node node'
        go node' r (seen _ same _) = subst (Progress pow node) (sym same) (unchanged node h)
        go node' r (refused _ _ same _) = subst (Progress pow node) (sym same) (unchanged node h)
        go node' r (halted _ same _) = subst (Progress pow node) (sym same) (unchanged node h)
        go node' r (unstored _ _ _ _ same _) = stored (db.store_side_block b node.storage).0 same
        go node' r (aside _ _ _ _ same _) = stored (db.store_side_block b node.storage).0 same
        go node' r (unsaved _ _ store _ _ _ _ same _) = stored store same
        go node' r (adopted candidate _ _ _ _ _ better a _) = record {
          healthy = record {
            valid = subst (IsValid pow) (sym a.chain) better.valid;
            last = a.new_tip;
            last_eq = ap tip a.chain ∙ a.new_tip_eq;
            anchor = ap (λ (x : WorksharePool). x.anchor) a.workshares;
            reached = subst Reached (sym a.workshares) (emptied_at a.new_tip);
            few = rw a.waiting (omega arith);
          };
          work = rw a.chain better.work;
        }
          where
            emptied_at : (t : Block) → Reached (reset (Block.id t) node.workshares)
            emptied_at t = emptied (Block.id t) node.workshares

    take_template-eq :
        (t : BlockTemplate) (node : Node S) (pool : WorksharePool) (id : Hash32)
        → take_template t node ≡ ok (pool, id)
        → WorksharePool.register_template t node.workshares ≡ ok (pool, id)
    unfolding take_template
    take_template-eq t node pool id e =
        (then-eq-ok (validate_template_transactions t.transactions node.chain.state t.height) _ e).1

    take_workshare-eq :
        (s : Workshare) (node : Node S) (pool : WorksharePool) (changed : Bool)
        → take_workshare pow now s node ≡ ok (pool, changed)
        → (w : WorkshareWitness) × (candidate_witness s node.workshares ≡ ok w)
          × (WorksharePool.accept s node.workshares ≡ ok (pool, changed))
    unfolding take_workshare
    take_workshare-eq s node pool changed e =
        let (w, made, rest) = >>=-eq-ok (candidate_witness s node.workshares) _ e in
        (
          w,
          made,
          (then-eq-ok (validate_workshares w node.chain.blocks node.chain.state pow _) _ rest).1,
        )

    register_checked-Progress :
        (t : BlockTemplate) (node : Node S) (c : Result ConsensusError (Unit {0}))
        → IsHealthy pow node
        → Progress pow node (register_checked t c node).0
    register_checked-Progress t node (err e) h = unchanged node h
    register_checked-Progress t node panicked h = unchanged node h
    register_checked-Progress t node (ok u) h =
        elim (Bool-cases (is_present (lookup (BlockTemplate.id t) node.workshares.templates))) [
          | inl there ↦ rw there (unchanged node h)
          | inr new ↦ rw new (announced (take_template t node) refl)
        ]
      where
        announced :
            (r : Result ConsensusError (WorksharePool × Hash32))
            → take_template t node ≡ r
            → Progress pow node (announce_template (BlockTemplate.id t) r node).0
        announced (ok (pool, id)) e =
            let taken = take_template-eq t node pool id e in
            with_pool node _ h refl (register_template-anchor t node.workshares pool id taken)
              (registered t id h.reached taken) h.few
        announced (err x) e = unchanged node h
        announced panicked e = unchanged node h

    pub register_template-Progress :
        (t : BlockTemplate) (node : Node S)
        → IsHealthy pow node
        → Progress pow node (register_template t node).0
    unfolding register_template
    register_template-Progress t node h = register_checked-Progress t node (check_template t node) h

    pub submit_workshare-Progress :
        (s : Workshare) (node : Node S)
        → IsHealthy pow node
        → Progress pow node (submit_workshare pow now s node).0
    unfolding submit_workshare
    submit_workshare-Progress s node h = announced (take_workshare pow now s node) refl
      where
        announced :
            (r : Result ConsensusError (WorksharePool × Bool))
            → take_workshare pow now s node ≡ r
            → Progress pow node (announce_workshare (Workshare.id s) r node).0
        announced (ok (pool, changed)) e =
            let (w, made, taken) = take_workshare-eq s node pool changed e in
            let anchor = accept-anchor s node.workshares pool changed taken in
            let reached = submitted s w changed h.reached made taken in
            elim (Bool-cases changed) [
              | inl new_tip ↦ rw new_tip (with_pool node _ h refl anchor reached h.few)
              | inr old_tip ↦ rw old_tip (with_pool node _ h refl anchor reached h.few)
            ]
        announced (err x) e = unchanged node h
        announced panicked e = unchanged node h

    pub then_Progress :
        (node node' node'' : Node S)
        → Progress pow node node'
        → Progress pow node' node''
        → Progress pow node node''
    then_Progress node node' node'' a b = record {
      healthy = b.healthy;
      work = omega (arith, a.work, b.work);
    }
