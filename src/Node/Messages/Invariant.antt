-- ===== src/Node/Messages/Invariant.antt =====
-- No message of a peer breaks what a node relies on.

use paritr_node.Prelude.{
  ℕ, zero, suc, ◌≤◌, refl, Bool-cases, Option-cases, ◌||◌, some, none, Option, inl, inr, List, [],
  ◌∷◌, length, ltb, ◌==◌, arith, Result, ok, err, panicked,
}
use paritr_node.Prelude.Order.{bytes_ord, bytes_eq}
use paritr_node.OrderedMap.{lookup, remove}
use paritr_node.Crypto.{Primitives, Hash32}
use paritr_node.Errors.{ConsensusError}
use paritr_node.Types.Workshare
use paritr_node.Types.Workshare.{Workshare}
use paritr_node.Types.Transaction.{Transaction}
use paritr_node.Types.Block
use paritr_node.Types.Block.{Block}
use paritr_node.Types.BlockHeader.{BlockHeader}
use paritr_node.Validation.Seed.{PowVerifier}
use paritr_node.Chain.{ChainEvent}
use paritr_node.Mempool
use paritr_node.Mempool.{MempoolError}
use paritr_node.Node.Headers.{scan_headers}
use paritr_node.Network.WireMessage.{
  WireMessage, hello, inventory, get_data, block, transaction, workshare, template, get_headers,
  headers, ping, pong, peers, max_headers,
}
use paritr_node.Node.WorksharePool.Bounds.{length-insert}
use paritr_node.Node.State.{Node, Storage}
use paritr_node.Node.Blocks.{submit_block}
use paritr_node.Node.Submissions.{
  submit_transaction, register_template, submit_workshare, announce_transaction,
}
use paritr_node.Node.Pending.{
  Pending, missing_template, missing_previous, find_ready, process_pending_workshares,
}
use paritr_node.Node.Messages.{
  handle_wire, handle_block, handle_template, handle_workshare, handle_headers, advance_queue,
  start_queue, keep_pending, max_pending,
}
use paritr_node.Node.Invariant.{
  length-remove, IsHealthy, Progress, with_pool, unchanged, then_Progress, submit_block-Progress,
  register_template-Progress, submit_workshare-Progress,
}

module _ ⦃p : Primitives⦄ {S : Type 0} (db : Storage S) (pow : PowVerifier) (now : ℕ) where
  kept_pending :
      (peer : Hash32) (s : Workshare) (node : Node S)
      → length node.pending_workshares ≤ max_pending
      → length (keep_pending peer (Workshare.id s) s node.pending_workshares) ≤ max_pending
  kept_pending peer s node few =
      ground (arith, few, length-insert (Workshare.id s) (peer, s) node.pending_workshares)

  module _ (arrange : Pending → List (Hash32 × (Hash32 × Workshare))) where
    process-Progress :
        (fuel : ℕ) (node : Node S)
        → IsHealthy pow node
        → Progress pow node (process_pending_workshares arrange pow fuel now node)
    unfolding process_pending_workshares
    process-Progress zero node h = unchanged db pow now node h
    process-Progress (suc fuel) node h =
        elim (Option-cases (find_ready node.workshares (arrange node.pending_workshares))) [
          | inl idle ↦ rw (idle, process_pending_workshares) (unchanged db pow now node h)
          | inr ((id, share), ready) ↦
              let taken : Node S = record node {
                pending_workshares = remove id node.pending_workshares;
              } in
              let first =
                with_pool db pow now node taken h refl refl h.reached
                  (omega (arith, h.few, length-remove id node.pending_workshares)) in
              let second = submit_workshare-Progress db pow now share taken first.healthy in
              let later = (submit_workshare pow now share taken).0 in
              rw (ready, process_pending_workshares)
                (then_Progress db pow now node later
                  (process_pending_workshares arrange pow fuel now later)
                  (then_Progress db pow now node taken later first second)
                  (process-Progress fuel later second.healthy))
        ]

    advance_queue-Progress :
        (peer id : Hash32) (queue : Option (List Hash32)) (node : Node S)
        → IsHealthy pow node
        → Progress pow node (advance_queue db arrange pow now peer id queue node).0
    unfolding advance_queue
    advance_queue-Progress peer id none node h = unchanged db pow now node h
    advance_queue-Progress peer id (some []) node h =
        with_pool db pow now node _ h refl refl h.reached h.few
    advance_queue-Progress peer id (some (front ∷ [])) node h =
        elim (Bool-cases (bytes_eq front id)) [
          | inl same ↦ rw same (with_pool db pow now node _ h refl refl h.reached h.few)
          | inr other ↦ rw other (with_pool db pow now node _ h refl refl h.reached h.few)
        ]
    advance_queue-Progress peer id (some (front ∷ next ∷ rest)) node h =
        elim (Bool-cases (bytes_eq front id)) [
          | inl same ↦ rw same (with_pool db pow now node _ h refl refl h.reached h.few)
          | inr other ↦ rw other (with_pool db pow now node _ h refl refl h.reached h.few)
        ]

    handle_block-Progress :
        (peer id : Hash32) (node : Node S) (r : Result ConsensusError ChainEvent)
        → IsHealthy pow node
        → Progress pow node (handle_block db arrange pow now peer id (node, r)).0
    unfolding handle_block
    handle_block-Progress peer id node (ok e) h =
        advance_queue-Progress peer id (lookup peer node.sync_queues) node h
    handle_block-Progress peer id node (err e) h =
        with_pool db pow now node _ h refl refl h.reached h.few
    handle_block-Progress peer id node panicked h = unchanged db pow now node h

    handle_template-Progress :
        (peer : Hash32) (node : Node S) (r : Result ConsensusError Hash32)
        → IsHealthy pow node
        → Progress pow node (handle_template db arrange pow now peer (node, r)).0
    unfolding handle_template
    handle_template-Progress peer node (ok id) h =
        process-Progress (length node.pending_workshares) node h
    handle_template-Progress peer node (err e) h = unchanged db pow now node h
    handle_template-Progress peer node panicked h = unchanged db pow now node h

    handle_workshare-Progress :
        (peer : Hash32) (s : Workshare) (node : Node S)
        → IsHealthy pow node
        → Progress pow node (handle_workshare db arrange pow now peer s node).0
    unfolding handle_workshare
    handle_workshare-Progress peer s node h =
        elim (Bool-cases
          (missing_template node.workshares s || missing_previous node.workshares s)) [
            | inl waits ↦
                rw waits (
                  with_pool db pow now node _ h refl refl h.reached
                    (kept_pending peer s node h.few))
            | inr ready ↦
                let first = submit_workshare-Progress db pow now s node h in
                let later = (submit_workshare pow now s node).0 in
                rw ready (
                  then_Progress db pow now node later _ first
                    (process-Progress (length later.pending_workshares) later first.healthy))
          ]

    start_queue-Progress :
        (peer : Hash32) (queue : Option (List Hash32)) (node : Node S)
        → IsHealthy pow node
        → Progress pow node (start_queue db arrange pow now peer node queue).0
    unfolding start_queue
    start_queue-Progress peer none node h = with_pool db pow now node _ h refl refl h.reached h.few
    start_queue-Progress peer (some []) node h = unchanged db pow now node h
    start_queue-Progress peer (some (next ∷ rest)) node h =
        with_pool db pow now node _ h refl refl h.reached h.few

    handle_headers-Progress :
        (peer : Hash32) (list : List BlockHeader) (node : Node S)
        → IsHealthy pow node
        → Progress pow node (handle_headers db arrange pow now peer list node).0
    unfolding handle_headers
    handle_headers-Progress peer list node h =
        elim (Bool-cases (length list == 0 || ltb max_headers (length list))) [
          | inl refused ↦ rw refused (with_pool db pow now node _ h refl refl h.reached h.few)
          | inr taken ↦ rw taken (start_queue-Progress peer (scan_headers db node none list) node h)
        ]

    submit_transaction-Progress :
        (t : Transaction) (node : Node S)
        → IsHealthy pow node
        → Progress pow node (submit_transaction now t node).0
    unfolding submit_transaction
    submit_transaction-Progress t node h =
        announced (Mempool.accept t node.chain.state now node.mempool).1
      where
        announced :
            (r : Result MempoolError Hash32)
            → Progress pow node
                (announce_transaction r (record node {
                  mempool = (Mempool.accept t node.chain.state now node.mempool).0;
                })).0
        announced (ok id) = with_pool db pow now node _ h refl refl h.reached h.few
        announced (err e) = with_pool db pow now node _ h refl refl h.reached h.few
        announced panicked = with_pool db pow now node _ h refl refl h.reached h.few

    -- Whatever message a peer sends to a healthy node, at whatever time and in whatever order the
    -- waiting workshares are walked, the node is healthy afterwards: its chain is valid and has no
    -- less work, its pool of workshares stands at the tip, and at most 2,048 workshares wait.
    pub handle_wire-Progress :
        (peer : Hash32) (message : WireMessage) (node : Node S)
        → IsHealthy pow node
        → Progress pow node (handle_wire db arrange pow now peer message node).0
    unfolding handle_wire
    handle_wire-Progress peer (hello value) node h = unchanged db pow now node h
    handle_wire-Progress peer (pong nonce) node h = unchanged db pow now node h
    handle_wire-Progress peer (peers list) node h = unchanged db pow now node h
    handle_wire-Progress peer (ping nonce) node h = unchanged db pow now node h
    handle_wire-Progress peer (inventory kind id) node h = unchanged db pow now node h
    handle_wire-Progress peer (get_data kind id) node h = unchanged db pow now node h
    handle_wire-Progress peer (block value) node h =
        let first = submit_block-Progress db pow now value node h in
        let (later, r) = submit_block db pow now value node in
        then_Progress db pow now node later _ first
          (handle_block-Progress peer (Block.id value) later r first.healthy)
    handle_wire-Progress peer (transaction value) node h = submit_transaction-Progress value node h
    handle_wire-Progress peer (template value) node h =
        let first = register_template-Progress db pow now value node h in
        let (later, r) = register_template value node in
        then_Progress db pow now node later _ first
          (handle_template-Progress peer later r first.healthy)
    handle_wire-Progress peer (workshare value) node h = handle_workshare-Progress peer value node h
    handle_wire-Progress peer (get_headers locator stop) node h = unchanged db pow now node h
    handle_wire-Progress peer (headers list) node h = handle_headers-Progress peer list node h
