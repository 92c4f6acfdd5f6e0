-- ===== src/Node/Messages.antt =====
-- `Node::handle_wire`: what a node does with a message of a peer, and what it answers.
pub mod Invariant
use paritr_node.Prelude.{
  ℕ, suc, Bool, true, false, not, ◌||◌, ◌&&◌, Option, none, some, List, [], ◌∷◌, length, ltb, ◌==◌,
  if◌then◌else◌, Result, ok, err, panicked,
}
use mathlib.Core.Option
use paritr_node.Prelude.Order.{bytes_ord, bytes_eq}
use paritr_node.OrderedMap
use paritr_node.OrderedMap.{OrderedMap, lookup, insert}
use paritr_node.Crypto.{Primitives, Hash32, zero_hash}
use paritr_node.Errors.{ConsensusError}
use paritr_node.Types.Transaction.{Transaction}
use paritr_node.Types.BlockTemplate.{BlockTemplate}
use paritr_node.Types.BlockHeader.{BlockHeader}
use paritr_node.Types.Workshare
use paritr_node.Types.Workshare.{Workshare}
use paritr_node.Types.Block
use paritr_node.Types.Block.{Block}
use paritr_node.Validation.Seed.{PowVerifier}
use paritr_node.Chain.{ChainEvent, is_some}
use paritr_node.Network.ObjectKind
use paritr_node.Network.ObjectKind.{ObjectKind}
use paritr_node.Network.WireMessage.{
  WireMessage, hello, inventory, get_data, block, transaction, workshare, template, get_headers,
  headers, ping, pong, peers, max_headers,
}
use paritr_node.Node.WorksharePool.{WorksharePool, is_present}
use paritr_node.Node.State.{Node, Storage}
use paritr_node.Node.Blocks.{submit_block}
use paritr_node.Node.Submissions.{submit_transaction, register_template, submit_workshare}
use paritr_node.Node.Pending.{
  Pending, missing_template, missing_previous, process_pending_workshares, pending_request_for,
}
use paritr_node.Node.Locator.{block_locator}
use paritr_node.Node.Headers.{known_block, headers_after, scan_headers}

-- What a call answers; the outcome `panicked` stands for a panic.
abbrev pub Answer : Type 0
Answer = Result ConsensusError (Option WireMessage)

abbrev pub max_pending : ℕ
max_pending = 2_048

-- `entry(id).or_insert(..)`, below the limit.
abbrev pub keep_pending : Hash32 → Hash32 → Workshare → Pending → Pending
keep_pending peer id share pending =
    if ltb (length pending) max_pending && not (is_present (lookup id pending))
    then insert id (peer, share) pending
    else pending

abbrev pub forget_queue : {S : Type 0} → Hash32 → Node S → Node S
forget_queue peer node = record node { sync_queues = OrderedMap.remove peer node.sync_queues }

abbrev pub wrap {ℓ} : {A : Type ℓ} → (A → WireMessage) → Option A → Option WireMessage
wrap f none = none
wrap f (some a) = some (f a)

-- Whether an inventory names something that the node lacks.
abbrev pub not_in {ℓ} : {A : Type ℓ} → Option A → Bool
not_in o = not (is_present o)

module _ ⦃p : Primitives⦄ {S : Type 0} (db : Storage S)
    (arrange : Pending → List (Hash32 × (Hash32 × Workshare))) (pow : PowVerifier) (now : ℕ) where
  unfoldable pub is_missing : ObjectKind → Hash32 → Node S → Bool
  is_missing ObjectKind.block id node = not (is_some (known_block db node id))
  is_missing ObjectKind.transaction id node = not_in (lookup id node.mempool.entries)
  is_missing ObjectKind.template id node = not_in (lookup id node.workshares.templates)
  is_missing ObjectKind.workshare id node =
      not_in (lookup id node.workshares.shares) && not_in (lookup id node.pending_workshares)

  unfoldable pub find_object : ObjectKind → Hash32 → Node S → Option WireMessage
  find_object ObjectKind.block id node = wrap block (known_block db node id)
  find_object ObjectKind.transaction id node =
      wrap (λ entry. transaction entry.transaction) (lookup id node.mempool.entries)
  find_object ObjectKind.template id node = wrap template (lookup id node.workshares.templates)
  find_object ObjectKind.workshare id node = wrap workshare (lookup id node.workshares.shares)

  -- The request that follows the last block of a queue.
  abbrev pub ask_headers : Result ConsensusError (List Hash32) → Answer
  ask_headers (ok locator) = ok (some (get_headers locator zero_hash))
  ask_headers (err e) = panicked
  ask_headers panicked = panicked

  -- The queue of a peer after its block `id` was taken.
  unfoldable pub advance_queue : Hash32 → Hash32 → Option (List Hash32) → Node S → Node S × Answer
  advance_queue peer id none node = (node, ok none)
  advance_queue peer id (some []) node = (forget_queue peer node, ok none)
  advance_queue peer id (some (front ∷ [])) node =
      if not (bytes_eq front id)
      then (forget_queue peer node, ok none)
      else (forget_queue peer node, ask_headers (block_locator node.chain))
  advance_queue peer id (some (front ∷ next ∷ rest)) node =
      if not (bytes_eq front id) then (forget_queue peer node, ok none) else (
        record node { sync_queues = insert peer (next ∷ rest) node.sync_queues },
        ok (some (get_data ObjectKind.block next)),
      )

  unfoldable pub handle_block :
      Hash32 → Hash32 → Node S × Result ConsensusError ChainEvent → Node S × Answer
  unfolding advance_queue
  handle_block peer id (node, ok event) = advance_queue peer id (lookup peer node.sync_queues) node
  handle_block peer id (node, err e) = (forget_queue peer node, ok none)
  handle_block peer id (node, panicked) = (node, panicked)

  abbrev pub process : Node S → Node S
  process node = process_pending_workshares arrange pow (length node.pending_workshares) now node

  abbrev pub request : Hash32 → Node S → Node S × Answer
  request peer node = (node, ok (pending_request_for arrange pow peer node))

  unfoldable pub handle_template : Hash32 → Node S × Result ConsensusError Hash32 → Node S × Answer
  handle_template peer (node, ok id) = request peer (process node)
  handle_template peer (node, err e) = request peer node
  handle_template peer (node, panicked) = (node, panicked)

  unfoldable pub handle_workshare : Hash32 → Workshare → Node S → Node S × Answer
  handle_workshare peer share node =
      if missing_template node.workshares share || missing_previous node.workshares share
      then request peer (record node {
        pending_workshares = keep_pending peer (Workshare.id share) share node.pending_workshares;
      })
      else request peer (process (submit_workshare pow now share node).0)

  unfoldable pub start_queue : Hash32 → Node S → Option (List Hash32) → Node S × Answer
  start_queue peer node none = (forget_queue peer node, ok none)
  start_queue peer node (some []) = (node, ok none)
  start_queue peer node (some (next ∷ rest)) = (
    record node { sync_queues = insert peer (next ∷ rest) node.sync_queues },
    ok (some (get_data ObjectKind.block next)),
  )

  unfoldable pub handle_headers : Hash32 → List BlockHeader → Node S → Node S × Answer
  unfolding start_queue
  handle_headers peer list node =
      if length list == 0 || ltb max_headers (length list)
      then (forget_queue peer node, ok none)
      else start_queue peer node (scan_headers db node none list)

  unfoldable pub handle_wire : Hash32 → WireMessage → Node S → Node S × Answer
  unfolding is_missing find_object handle_block handle_template handle_workshare handle_headers
  handle_wire peer (hello value) node = (node, ok none)
  handle_wire peer (pong nonce) node = (node, ok none)
  handle_wire peer (peers list) node = (node, ok none)
  handle_wire peer (ping nonce) node = (node, ok (some (pong nonce)))
  handle_wire peer (inventory kind id) node =
      (node, ok (if is_missing kind id node then some (get_data kind id) else none))
  handle_wire peer (get_data kind id) node = (node, ok (find_object kind id node))
  handle_wire peer (block value) node =
      handle_block peer (Block.id value) (submit_block db pow now value node)
  handle_wire peer (transaction value) node = ((submit_transaction now value node).0, ok none)
  handle_wire peer (template value) node = handle_template peer (register_template value node)
  handle_wire peer (workshare value) node = handle_workshare peer value node
  handle_wire peer (get_headers locator stop) node =
      (node, ok (some (headers (headers_after node.chain locator stop))))
  handle_wire peer (headers list) node = handle_headers peer list node
