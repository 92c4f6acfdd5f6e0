-- ===== src/Node/Submissions.antt =====
-- `Node::submit_transaction`, `register_template` and `submit_workshare`.
use paritr_node.Prelude.{
  ℕ, Bool, not, ◌||◌, ltb, ◌==◌, if◌then◌else◌, saturating_add, Result, ok, err, panicked, ◌>>=◌,
  ◌>>◌, fail_if,
}
use paritr_node.Prelude.Order.{bytes_ord, bytes_eq}
use paritr_node.OrderedMap.{lookup}
use paritr_node.Crypto.{Primitives, Hash32}
use paritr_node.Errors.{ConsensusError, size_limit, invalid_workshare_chain}
use paritr_node.Params.{max_template_bytes, max_future_block_time}
use paritr_node.Types.Transaction.{Transaction}
use paritr_node.Types.BlockTemplate
use paritr_node.Types.BlockTemplate.{BlockTemplate}
use paritr_node.Types.Workshare
use paritr_node.Types.Workshare.{Workshare}
use paritr_node.Types.Block
use paritr_node.Validation.Apply.{validate_template_transactions}
use paritr_node.Validation.Seed.{PowVerifier}
use paritr_node.Validation.Shares.{validate_workshares}
use paritr_node.Chain.{tip}
use paritr_node.Mempool
use paritr_node.Mempool.{MempoolError}
use paritr_node.Network.ObjectKind
use paritr_node.Network.WireMessage.{inventory}
use paritr_node.Node.WorksharePool
use paritr_node.Node.WorksharePool.{WorksharePool, is_present, size, candidate_witness}
use paritr_node.Node.State.{Node, send, next_generation}

module _ ⦃p : Primitives⦄ {S : Type 0} where
  abbrev pub announce_transaction :
      Result MempoolError Hash32 → Node S → Node S × Result MempoolError Hash32
  announce_transaction (ok id) node = (send (inventory ObjectKind.transaction id) node, ok id)
  announce_transaction (err e) node = (node, err e)
  announce_transaction panicked node = (node, panicked)

  unfoldable pub submit_transaction : ℕ → Transaction → Node S → Node S × Result MempoolError Hash32
  submit_transaction now transaction node =
      let (pool, accepted) = Mempool.accept transaction node.chain.state now node.mempool in
      announce_transaction accepted (record node { mempool = pool })

  -- What `register_template` tests before the pool: the limits, the place in the chain.
  unfoldable pub check_template : BlockTemplate → Node S → Result ConsensusError (Unit {0})
  check_template template node = do
    fail_if
        (not (template.version == BlockTemplate.current_version)
          || ltb max_template_bytes (size template))
        size_limit
    last ← tip node.chain
    fail_if
        (not (template.height == saturating_add last.header.height 1)
          || not (bytes_eq template.parent (Block.id last)))
        invalid_workshare_chain

  -- The pool takes a template whose transactions apply.
  unfoldable pub take_template :
      BlockTemplate → Node S → Result ConsensusError (WorksharePool × Hash32)
  take_template template node = do
    validate_template_transactions template.transactions node.chain.state template.height
    WorksharePool.register_template template node.workshares

  abbrev pub announce_template :
      Hash32
      → Result ConsensusError (WorksharePool × Hash32)
      → Node S
      → Node S × Result ConsensusError Hash32
  announce_template id (ok (pool, _)) node =
      (send (inventory ObjectKind.template id) (record node { workshares = pool }), ok id)
  announce_template id (err e) node = (node, err e)
  announce_template id panicked node = (node, panicked)

  abbrev pub register_checked :
      BlockTemplate
      → Result ConsensusError (Unit {0})
      → Node S
      → Node S × Result ConsensusError Hash32
  register_checked template (ok _) node =
      if is_present (lookup (BlockTemplate.id template) node.workshares.templates)
      then (node, ok (BlockTemplate.id template))
      else announce_template (BlockTemplate.id template) (take_template template node) node
  register_checked template (err e) node = (node, err e)
  register_checked template panicked node = (node, panicked)

  unfoldable pub register_template : BlockTemplate → Node S → Node S × Result ConsensusError Hash32
  unfolding check_template take_template
  register_template template node = register_checked template (check_template template node) node

  -- The pool takes a workshare whose path is valid.
  unfoldable pub take_workshare :
      PowVerifier → ℕ → Workshare → Node S → Result ConsensusError (WorksharePool × Bool)
  take_workshare pow now share node = do
    witness ← candidate_witness share node.workshares
    validate_workshares witness node.chain.blocks node.chain.state pow
        (saturating_add now max_future_block_time)
    WorksharePool.accept share node.workshares

  abbrev pub announce_workshare :
      Hash32
      → Result ConsensusError (WorksharePool × Bool)
      → Node S
      → Node S × Result ConsensusError Bool
  announce_workshare id (ok (pool, changed)) node =
      let kept = record node { workshares = pool } in
      (
        send (inventory ObjectKind.workshare id) (if changed then next_generation kept else kept),
        ok changed,
      )
  announce_workshare id (err e) node = (node, err e)
  announce_workshare id panicked node = (node, panicked)

  unfoldable pub submit_workshare :
      PowVerifier → ℕ → Workshare → Node S → Node S × Result ConsensusError Bool
  unfolding take_workshare
  submit_workshare pow now share node =
      announce_workshare (Workshare.id share) (take_workshare pow now share node) node
